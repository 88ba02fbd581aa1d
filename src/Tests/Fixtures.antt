-- ===== src/Tests/Fixtures.antt =====
-- The peers, handlers, sessions and clients that the examples run on.
use copilot_sdk_swift.Prelude.{true, false, none, some, [], ◌∷◌}
use copilot_sdk_swift.Js.Value.{Value, undefined, bool, str, obj, end, field}
use copilot_sdk_swift.Js.Outcome.{error, connection_error, ok, throw}
use copilot_sdk_swift.Js.JsMap
use copilot_sdk_swift.Js.JsSet
use copilot_sdk_swift.Rpc.{Peer}
use copilot_sdk_swift.Session.State.{
  Session, PermissionHandler, ToolHandler, ToolInvocation, CommandContext, ElicitationHandler,
  ElicitationContext, new_session,
}
use copilot_sdk_swift.Client.State.{Client, disconnected, connected}

-- A CLI that accepts everything, and one whose connection is lost.
abbrev pub accepting : Peer
accepting sent r = ok (obj end)

abbrev pub lost : Peer
lost sent r = throw (connection_error "closed")

abbrev pub approval : Value
approval = obj (field "kind" (str "approved") end)

abbrev pub approve : PermissionHandler
approve request id = ok approval

abbrev pub withhold : PermissionHandler
withhold request id = ok (obj (field "kind" (str "no-result") end))

abbrev pub failing_tool : ToolHandler
failing_tool args invocation = throw (error "boom")

abbrev pub invocation : ToolInvocation
invocation = record {
  session_id = "s";
  tool_call_id = "c";
  tool_name = "t";
  arguments = undefined;
  traceparent = undefined;
  tracestate = undefined;
}

abbrev pub command_context : CommandContext
command_context = record { session_id = "s"; command = "/go"; command_name = "go"; args = "" }

abbrev pub elicitation_context : ElicitationContext
elicitation_context = record {
  session_id = "s";
  message = "m";
  requested_schema = undefined;
  mode = undefined;
  elicitation_source = undefined;
  url = undefined;
}

abbrev pub failing_elicitation : ElicitationHandler
failing_elicitation context = throw (error "boom")

abbrev pub plain : Session
plain = new_session "s" none

-- Approves every permission, and has one command.
abbrev pub approving : Session
approving = record plain {
  permission_handler = some approve;
  command_handlers = ("go", λ context. ok tt) ∷ [];
}

abbrev pub withholding : Session
withholding = record plain { permission_handler = some withhold }

-- A session with two listeners of all events and one of "session.idle".
abbrev pub heard : Session
heard = record plain {
  event_handlers = some 1 ∷ some 2 ∷ [];
  typed_event_handlers = ("session.idle", some 3 ∷ []) ∷ [];
}

-- A host that answers every dialog by an accepted form with `confirmed` set.
abbrev pub confirming : Peer
confirming sent r = ok (
    obj (
      field "action" (str "accept")
        (field "content" (obj (field "confirmed" (bool true) end)) end)))

abbrev pub with_dialogs : Session
with_dialogs = record plain {
  capabilities = record { ui = some (record { elicitation = some true }) };
}

-- A client of an external server, as its constructor leaves it, and one that is connected.
abbrev pub external_client : Client
external_client = record {
  cli_start_timeout = false;
  cli_process = false;
  connection = false;
  socket = false;
  actual_port = some 4321;
  actual_host = "localhost";
  state = disconnected;
  sessions = JsMap.empty;
  stderr_buffer = "";
  is_external_server = true;
  force_stopping = false;
  models_cache = none;
  session_lifecycle_handlers = JsSet.empty;
  typed_lifecycle_handlers = JsMap.empty;
  process_exit_promise = false;
  negotiated_protocol_version = none;
  session_fs_config = none;
  is_child_process = false;
  use_stdio = false;
  auto_start = true;
}

abbrev pub busy_client : Client
busy_client = record external_client {
  connection = true;
  socket = true;
  state = connected;
  sessions = ("s", approving) ∷ ("u", heard) ∷ [];
  negotiated_protocol_version = some 3;
}
