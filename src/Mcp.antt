-- ===== src/Mcp.antt =====
-- src/mcp: the tools that the Model Context Protocol server offers. The SDK, which checks a call's
-- arguments against the tool's schema before the handler runs, is not modelled.
pub mod Config
pub mod Values
pub mod Sending
use notify_hub.Base.{Bool, true, false, Text}

-- A `CallToolResult`: one text, and whether it is an error.
pub record ToolResult : Type 0 where
  pub is_error : Bool
  pub text : Text

abbrev pub text_result : Text → ToolResult
text_result text = record { is_error = false; text = text }

abbrev pub error_result : Text → ToolResult
error_result text = record { is_error = true; text = text }
