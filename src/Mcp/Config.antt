-- ===== src/Mcp/Config.antt =====
-- src/mcp/register-config-tools.ts. `JSON.stringify` is a parameter; a handler that throws is `none`
-- in its first component.
pub mod Laws
use notify_hub.Base.{
  ℕ, Bool, true, false, Option, none, some, List, [], ◌∷◌, ◌++◌, Text, lit, if◌then◌else◌,
}
use notify_hub.Core.{ChannelInstance, ProfileRecord}
use notify_hub.Db.{Db}
use notify_hub.Ports.{Outcome, ok, raise, HttpRequest, HttpResponse}
use notify_hub.Admin.Validation.{ConfigPayload}
use notify_hub.Admin.Service.{
  EntityResult, done, refused, get_full_config, upsert_channel_entity, delete_channel_entity,
  upsert_profile_entity, delete_profile_entity,
}
use notify_hub.Admin.TestSend.{
  Surroundings, CommandResult, TestSendOutcome, not_found, disabled, misconfigured, result,
  run_test_send,
}
use notify_hub.Admin.Status.{StatusSummary, get_status_summary}
use notify_hub.Mcp.{ToolResult, text_result, error_result}

-- `"<id>"` in a sentence.
abbrev pub naming : Text → Text → Text → Text
naming kind id rest = kind ++ (lit " \"" ++ (id ++ (lit "\" " ++ rest)))

saved_channel : EntityResult ChannelInstance → ToolResult
saved_channel (refused error) = error_result error
saved_channel (done channel) = text_result (naming (lit "Channel") channel.id (lit "saved."))

saved_profile : EntityResult ProfileRecord → ToolResult
saved_profile (refused error) = error_result error
saved_profile (done profile) = text_result (naming (lit "Profile") profile.id (lit "saved."))

deleted : Text → Text → EntityResult (Unit {0}) → ToolResult
deleted kind id (refused error) = error_result error
deleted kind id (done _) = text_result (naming kind id (lit "deleted."))

-- What a service that may throw answered, as a result.
answered : {A : Type 0} → (A → ToolResult) → Option A × Db → Option ToolResult × Db
answered f (none, db) = (none, db)
answered f (some a, db) = (some (f a), db)

unfoldable pub upsert_channel_tool : ℕ → ChannelInstance → Db → Option ToolResult × Db
unfolding saved_channel upsert_channel_entity
upsert_channel_tool now channel db =
    let (outcome, db') = upsert_channel_entity now channel db in (some (saved_channel outcome), db')

unfoldable pub delete_channel_tool : Text → Db → Option ToolResult × Db
unfolding deleted answered delete_channel_entity
delete_channel_tool id db = answered (deleted (lit "Channel") id) (delete_channel_entity id db)

unfoldable pub upsert_profile_tool : ℕ → ProfileRecord → Db → Option ToolResult × Db
unfolding saved_profile answered upsert_profile_entity
upsert_profile_tool now profile db = answered saved_profile (upsert_profile_entity now profile db)

unfoldable pub delete_profile_tool : Text → Db → Option ToolResult × Db
unfolding deleted delete_profile_entity
delete_profile_tool id db =
    let (outcome, db') = delete_profile_entity id db in
    (some (deleted (lit "Profile") id outcome), db')

-- An outcome that is not a result is an error, and so is a result that is not ok.
test_result : Outcome TestSendOutcome → Option ToolResult
test_result (raise e) = none
test_result (ok (not_found message)) = some (error_result message)
test_result (ok (disabled message)) = some (error_result message)
test_result (ok misconfigured) =
    some (error_result (lit "admin server misconfigured: no HttpClient provided"))
test_result (ok (result good detail)) =
    some (if good then text_result detail else error_result detail)

unfoldable pub test_channel_tool : Surroundings → Text → Db → Option ToolResult
unfolding test_result run_test_send
test_channel_tool x id db = test_result (run_test_send x db id).0

status_result : (StatusSummary → Text) → Outcome StatusSummary → Option ToolResult
status_result print (raise e) = none
status_result print (ok summary) = some (text_result (print summary))

-- A call of one tool. `now` is the time that a statement writes.
pub data ToolCall : Type 0 where
  get_config : ToolCall
  upsert_channel : (now : ℕ) → ChannelInstance → ToolCall
  delete_channel : Text → ToolCall
  upsert_profile : (now : ℕ) → ProfileRecord → ToolCall
  delete_profile : Text → ToolCall
  test_channel : Text → ToolCall
  get_status : ToolCall

-- What answers the tools that ask outside: for `test_channel`, and the gateway and the container's
-- logs for `get_status`.
pub record Outside : Type 0 where
  pub print_config : ConfigPayload → Text
  pub print_status : StatusSummary → Text
  pub surroundings : Surroundings
  pub http : Option (HttpRequest → Outcome HttpResponse)
  pub logs : Option (Outcome CommandResult)

-- The handler of the tool that is called.
unfoldable pub run_tool : Outside → ToolCall → Db → Option ToolResult × Db
unfolding upsert_channel_tool delete_channel_tool upsert_profile_tool delete_profile_tool
    test_channel_tool status_result get_full_config get_status_summary
run_tool x get_config db = (some (text_result (x.print_config (get_full_config db))), db)
run_tool x (upsert_channel now channel) db = upsert_channel_tool now channel db
run_tool x (delete_channel id) db = delete_channel_tool id db
run_tool x (upsert_profile now profile) db = upsert_profile_tool now profile db
run_tool x (delete_profile id) db = delete_profile_tool id db
run_tool x (test_channel id) db = (test_channel_tool x.surroundings id db, db)
run_tool x get_status db =
    (status_result x.print_status (get_status_summary x.surroundings x.http x.logs db), db)

-- One call after the other, each against its own answers from outside.
unfoldable pub run_tools : List (Outside × ToolCall) → Db → List (Option ToolResult) × Db
unfolding run_tool
run_tools [] db = ([], db)
run_tools ((x, call) ∷ calls) db =
    let (outcome, db') = run_tool x call db in
    let (outcomes, last) = run_tools calls db' in (outcome ∷ outcomes, last)
