-- ===== src/Channels.antt =====
-- src/channels: the adapters, the decorators, the registry, and the builder of one instance.
pub mod Sanitize
pub mod Spoken
pub mod Adapters
pub mod Registry
pub mod Decorators
