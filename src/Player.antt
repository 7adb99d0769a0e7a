-- ===== src/Player.antt =====
-- clients/local-tts-player/local-tts-server.mjs: the player that speaks notifications on a Mac.
pub mod Speech
pub mod Voices
pub mod Server
