-- ===== src/Session/Broadcast.antt =====
-- `_handleBroadcastEvent` of session.ts: which method a broadcast event starts. A started method
-- is a value of `Task`; nothing waits for it.
use copilot_sdk_swift.Prelude.{String, true, false, Option, none, some}
use copilot_sdk_swift.Js.Value.{Value}
use copilot_sdk_swift.Js.JsMap
use copilot_sdk_swift.Rpc.{Peer, Async}
use copilot_sdk_swift.Session.State.{
  Session, SessionCapabilities, SessionEvent, external_tool_requested, permission_requested,
  command_execute, elicitation_requested, capabilities_changed, ToolHandler, ToolInvocation,
  PermissionHandler, CommandHandler, CommandContext, ElicitationHandler, ElicitationContext,
}
use copilot_sdk_swift.Session.Tasks.{
  execute_tool_and_respond, execute_permission_and_respond, execute_command_and_respond,
  handle_elicitation_request,
}

-- The calls that are started with `void this....`, with the handler that they find.
pub data Task : Type 0 where
  run_tool : (request_id : String) → ToolHandler → ToolInvocation → Task
  run_permission : (request_id : String) → Value → PermissionHandler → Task
  run_command : (request_id : String) → Option CommandHandler → CommandContext → Task
  run_elicitation : (request_id : String) → Option ElicitationHandler → ElicitationContext → Task

unfoldable pub run_task : Peer → String → Task → Async (Unit {0})
run_task peer session_id (run_tool id handler invocation) =
    execute_tool_and_respond peer session_id id handler invocation
run_task peer session_id (run_permission id request handler) =
    execute_permission_and_respond peer session_id id request handler
run_task peer session_id (run_command id handler context) =
    execute_command_and_respond peer session_id id handler context
run_task peer session_id (run_elicitation id handler context) =
    handle_elicitation_request peer session_id handler context id

-- `{ ...this._capabilities, ...event.data }`
abbrev pub merge_capabilities : SessionCapabilities → SessionCapabilities → SessionCapabilities
merge_capabilities old new = record { ui = elim new.ui [ none ↦ old.ui | some ui ↦ some ui ] }

-- The session afterwards, and the method that was started.
unfoldable pub handle_broadcast_event : SessionEvent → Session → Session × Option Task
handle_broadcast_event (external_tool_requested id name call_id args traceparent tracestate) s = (
  s,
  elim (JsMap.get name s.tool_handlers) [
    | none ↦ none
    | some handler ↦ some (
        run_tool id handler (record {
          session_id = s.session_id;
          tool_call_id = call_id;
          tool_name = name;
          arguments = args;
          traceparent = traceparent;
          tracestate = tracestate;
        }))
  ],
)
handle_broadcast_event (permission_requested id request true) s = (s, none)
handle_broadcast_event (permission_requested id request false) s = (
  s,
  elim s.permission_handler [
    | none ↦ none
    | some handler ↦ some (run_permission id request handler)
  ],
)
handle_broadcast_event (command_execute id name command args) s = (
  s,
  some (
      run_command id (JsMap.get name s.command_handlers) (record {
        session_id = s.session_id;
        command = command;
        command_name = name;
        args = args;
      })),
)
handle_broadcast_event (elicitation_requested id message schema mode source url) s = (
  s,
  elim s.elicitation_handler [
    | none ↦ none
    | some handler ↦ some (
        run_elicitation id (some handler) (record {
          session_id = s.session_id;
          message = message;
          requested_schema = schema;
          mode = mode;
          elicitation_source = source;
          url = url;
        }))
  ],
)
handle_broadcast_event (capabilities_changed c) s =
    (record s { capabilities = merge_capabilities s.capabilities c }, none)
handle_broadcast_event _ s = (s, none)
