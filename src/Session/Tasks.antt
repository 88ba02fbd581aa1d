-- ===== src/Session/Tasks.antt =====
-- The fire-and-forget methods of session.ts that run a handler and answer the CLI by a request:
-- `_executeToolAndRespond`, `_executePermissionAndRespond`, `_executeCommandAndRespond` and
-- `_handleElicitationRequest`.

pub mod Shape
pub mod Answers
pub mod Commands
use copilot_sdk_swift.Prelude.{
  String, Bool, true, false, ◌&&◌, ◌||◌, Option, none, some, ◌==◌, if◌then◌else◌, ◌+++◌,
}
use copilot_sdk_swift.Js.Value.{
  Value, undefined, null, bool, num, str, arr, obj, func, Fields, end, field, lookup, has,
}
use copilot_sdk_swift.Js.Stringify.{stringify}
use copilot_sdk_swift.Js.Outcome.{Thrown, error, Outcome, ok, throw, message_of, is_rpc_error}
use copilot_sdk_swift.Rpc.{
  Request, Peer, Async, pure, lift, raise, ◌>>=◌, ◌>>◌, try_catch, send_request,
}
use copilot_sdk_swift.Session.State.{
  ToolInvocation, CommandContext, ElicitationContext, ToolHandler, CommandHandler,
  PermissionHandler, ElicitationHandler,
}

abbrev pub is_text : Value → Bool
is_text (str s) = true
is_text _ = false

-- `resultType` is one of the five that the runtime knows.
abbrev pub is_result_type : Value → Bool
is_result_type (str t) =
    t == "success" || t == "failure" || t == "rejected" || t == "denied" || t == "timeout"
is_result_type _ = false

-- `isToolResultObject` of session.ts; only an object can have the two fields.
unfoldable pub is_tool_result_object : Value → Bool
is_tool_result_object (obj fs) =
    has "textResultForLlm" fs
    && is_text (lookup "textResultForLlm" fs)
    && (has "resultType" fs && is_result_type (lookup "resultType" fs))
is_tool_result_object _ = false

abbrev or_undefined : Option String → Value
or_undefined none = undefined
or_undefined (some t) = str t

abbrev pub stringified : Value → Value
stringified v = or_undefined (stringify v)

-- The `result` that is sent for what a tool's handler returned.
unfoldable pub tool_result : Value → Value
tool_result undefined = str ""
tool_result null = str ""
tool_result (str s) = str s
tool_result v = if is_tool_result_object v then v else stringified v

-- `v[key]`: reading a field of `undefined` or `null` throws a TypeError.
abbrev pub get_field : String → Value → Outcome Value
get_field key undefined = throw (error "Cannot read properties of undefined")
get_field key null = throw (error "Cannot read properties of null")
get_field key (obj fs) = ok (lookup key fs)
get_field key _ = ok undefined

abbrev pub is_no_result : Value → Bool
is_no_result (str k) = k == "no-result"
is_no_result _ = false

abbrev pub denied : Value
denied = obj (field "kind" (str "denied-no-approval-rule-and-could-not-request-from-user") end)

-- A request about the pending call `request_id`, with one more field.
abbrev pub pending : String → String → String → String → Value → Request
pending method session_id request_id key v = record {
  method = method;
  params =
      field "sessionId" (str session_id) (field "requestId" (str request_id) (field key v end));
}

abbrev pub tools_method : String
tools_method = "session.tools.handlePendingToolCall"

abbrev pub permissions_method : String
permissions_method = "session.permissions.handlePendingPermissionRequest"

abbrev pub commands_method : String
commands_method = "session.commands.handlePendingCommand"

abbrev pub ui_method : String
ui_method = "session.ui.handlePendingElicitation"

-- `await this.rpc...(...)` for its effect.
abbrev pub send : Peer → Request → Async (Unit {0})
send peer r = send_request peer r >> pure tt

-- The inner `catch (rpcError)`: a lost connection or an RPC error is dropped.
abbrev pub drop_rpc_error : Thrown → Async (Unit {0})
drop_rpc_error e = if is_rpc_error e then pure tt else raise e

abbrev pub send_or_drop : Peer → Request → Async (Unit {0})
send_or_drop peer r = try_catch (send peer r) drop_rpc_error

-- The answer to a command that has run has no field of its own.
abbrev pub command_done : String → String → Request
command_done session_id request_id = record {
  method = commands_method;
  params = field "sessionId" (str session_id) (field "requestId" (str request_id) end);
}

abbrev pub cancel : Value
cancel = obj (field "action" (str "cancel") end)

module _ (peer : Peer) (session_id : String) where
  unfoldable pub execute_tool_and_respond : String → ToolHandler → ToolInvocation → Async (Unit {0})
  unfolding send_request
  execute_tool_and_respond request_id handler invocation =
      try_catch
        (do
          raw ← lift (handler invocation.arguments invocation)
          send peer (pending tools_method session_id request_id "result" (tool_result raw)))
        (λ e.
          send_or_drop peer
            (pending tools_method session_id request_id "error" (str (message_of e))))

  unfoldable pub execute_permission_and_respond :
      String → Value → PermissionHandler → Async (Unit {0})
  unfolding send_request
  execute_permission_and_respond request_id permission_request handler =
      try_catch
        (do
          result ← lift (handler permission_request session_id)
          kind ← lift (get_field "kind" result)
          if is_no_result kind
              then pure tt
              else send peer (pending permissions_method session_id request_id "result" result))
        (λ _. send_or_drop peer (pending permissions_method session_id request_id "result" denied))

  unfoldable pub execute_command_and_respond :
      String → Option CommandHandler → CommandContext → Async (Unit {0})
  unfolding send_request
  execute_command_and_respond request_id none context = send_or_drop peer (
      pending commands_method session_id request_id "error"
        (str ("Unknown command: " +++ context.command_name)))
  execute_command_and_respond request_id (some handler) context =
      try_catch (do lift (handler context); send peer (command_done session_id request_id))
        (λ e.
          send_or_drop peer
            (pending commands_method session_id request_id "error" (str (message_of e))))

  unfoldable pub handle_elicitation_request :
      Option ElicitationHandler → ElicitationContext → String → Async (Unit {0})
  unfolding send_request
  handle_elicitation_request none context request_id = pure tt
  handle_elicitation_request (some handler) context request_id =
      try_catch
        (do
          result ← lift (handler context)
          send peer (pending ui_method session_id request_id "result" result))
        (λ _. send_or_drop peer (pending ui_method session_id request_id "result" cancel))
