-- ===== src/Admin.antt =====
-- src/admin: the configuration that the panel and the MCP tools write.
pub mod Validation
pub mod Service
pub mod Replacing
pub mod WorkerLogs
pub mod Panel
pub mod TestSend
pub mod Status
pub mod Routes
pub mod UiFiles
