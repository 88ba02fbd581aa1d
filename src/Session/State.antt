-- ===== src/Session/State.antt =====
-- The state of `CopilotSession` (nodejs/src/session.ts), its events and its handlers. A handler is
-- the user's code: a function from its arguments to the way that its promise settles. An event
-- listener is known by a number, since listeners are compared by identity.
use copilot_sdk_swift.Prelude.{String, Bool, Option, none}
use copilot_sdk_swift.Js.Value.{Value}
use copilot_sdk_swift.Js.Outcome.{Outcome}
use copilot_sdk_swift.Js.JsMap
use copilot_sdk_swift.Js.JsMap.{JsMap}
use copilot_sdk_swift.Js.JsSet
use copilot_sdk_swift.Js.JsSet.{JsSet}

-- `SessionCapabilities`
pub record UiCapabilities : Type 0 where
  pub elicitation : Option Bool

pub record SessionCapabilities : Type 0 where
  pub ui : Option UiCapabilities

-- The data of "external_tool.requested", which is also what the handler is told of the call.
pub record ToolInvocation : Type 0 where
  pub session_id : String
  pub tool_call_id : String
  pub tool_name : String
  pub arguments : Value
  pub traceparent : Value
  pub tracestate : Value

pub record CommandContext : Type 0 where
  pub session_id : String
  pub command : String
  pub command_name : String
  pub args : String

pub record ElicitationContext : Type 0 where
  pub session_id : String
  pub message : String
  pub requested_schema : Value
  pub mode : Value
  pub elicitation_source : Value
  pub url : Value

abbrev pub ToolHandler : Type 0
ToolHandler = Value → ToolInvocation → Outcome Value

-- What a command handler returns is not looked at.
abbrev pub CommandHandler : Type 0
CommandHandler = CommandContext → Outcome (Unit {0})

-- The second argument is the session's id.
abbrev pub PermissionHandler : Type 0
PermissionHandler = Value → String → Outcome Value

abbrev pub UserInputHandler : Type 0
UserInputHandler = Value → String → Outcome Value

abbrev pub ElicitationHandler : Type 0
ElicitationHandler = ElicitationContext → Outcome Value

abbrev pub HookHandler : Type 0
HookHandler = Value → String → Outcome Value

abbrev pub SectionTransformFn : Type 0
SectionTransformFn = String → Outcome String

pub record SessionHooks : Type 0 where
  pub on_pre_tool_use : Option HookHandler
  pub on_post_tool_use : Option HookHandler
  pub on_user_prompt_submitted : Option HookHandler
  pub on_session_start : Option HookHandler
  pub on_session_end : Option HookHandler
  pub on_error_occurred : Option HookHandler

-- The events that the SDK itself looks into, and all others by their type and data.
pub data SessionEvent : Type 0 where
  external_tool_requested :
      (request_id tool_name tool_call_id : String) (arguments traceparent tracestate : Value)
      → SessionEvent
  permission_requested :
      (request_id : String) (permission_request : Value) (resolved_by_hook : Bool) → SessionEvent
  command_execute : (request_id command_name command args : String) → SessionEvent
  elicitation_requested :
      (request_id message : String) (requested_schema mode elicitation_source url : Value)
      → SessionEvent
  capabilities_changed : SessionCapabilities → SessionEvent
  assistant_message : (content : String) → SessionEvent
  session_idle : SessionEvent
  session_error : (message stack : String) → SessionEvent
  other : (event_type : String) (contents : Value) → SessionEvent

unfoldable pub event_type : SessionEvent → String
event_type (external_tool_requested _ _ _ _ _ _) = "external_tool.requested"
event_type (permission_requested _ _ _) = "permission.requested"
event_type (command_execute _ _ _ _) = "command.execute"
event_type (elicitation_requested _ _ _ _ _ _) = "elicitation.requested"
event_type (capabilities_changed _) = "capabilities.changed"
event_type (assistant_message _) = "assistant.message"
event_type session_idle = "session.idle"
event_type (session_error _ _) = "session.error"
event_type (other t _) = t

-- The private fields of the class; `connection` and `_rpc` are the peer of module Rpc.
pub record Session : Type 0 where
  pub session_id : String
  pub workspace_path : Option String
  pub event_handlers : JsSet
  pub typed_event_handlers : JsMap JsSet
  pub tool_handlers : JsMap ToolHandler
  pub command_handlers : JsMap CommandHandler
  pub permission_handler : Option PermissionHandler
  pub user_input_handler : Option UserInputHandler
  pub elicitation_handler : Option ElicitationHandler
  pub hooks : Option SessionHooks
  pub transform_callbacks : Option (JsMap SectionTransformFn)
  pub capabilities : SessionCapabilities

-- `new CopilotSession(sessionId, connection, workspacePath)`
abbrev pub new_session : String → Option String → Session
new_session id path = record {
  session_id = id;
  workspace_path = path;
  event_handlers = JsSet.empty;
  typed_event_handlers = JsMap.empty;
  tool_handlers = JsMap.empty;
  command_handlers = JsMap.empty;
  permission_handler = none;
  user_input_handler = none;
  elicitation_handler = none;
  hooks = none;
  transform_callbacks = none;
  capabilities = record { ui = none };
}
