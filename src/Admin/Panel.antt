-- ===== src/Admin/Panel.antt =====
-- src/admin/ui: the pure parts of the browser code that edits the configuration.
pub mod Instances
pub mod Combobox
pub mod Widget
pub mod AddChannel
pub mod Profiles
pub mod State
