-- ===== src/Tests.antt =====
-- Small configurations, and the theorems applied to them.
mod Samples
mod Delivering
mod Storing
mod Editing
mod Refusing
mod Clients
mod Speaking
mod Panel
mod Sending
mod Fronting
mod Tools
mod Routes
mod Booting
mod Cards
