-- ===== src/Client/Incoming.antt =====
-- What client.ts does with the notifications and requests of the CLI: `handleSessionEventNotification`,
-- `handleUserInputRequest`, `handleHooksInvoke`, `handleSystemMessageTransform`, and the adapters for
-- version 2 of the protocol. How the generated types read an event is a parameter.
pub mod Routing
pub mod Adapters
use copilot_sdk_swift.Prelude.{
  ℕ, String, Bool, true, false, ◌&&◌, Option, none, some, List, [], ◌∷◌, if◌then◌else◌, ◌+++◌,
}
use copilot_sdk_swift.Js.Value.{
  Value, undefined, null, str, obj, Fields, end, field, lookup, has, truthy,
}
use copilot_sdk_swift.Js.Outcome.{Thrown, error, Outcome, ok, throw, ◌>>=◌, map_ok, message_of}
use copilot_sdk_swift.Js.JsMap
use copilot_sdk_swift.Js.JsMap.{JsMap}
use copilot_sdk_swift.Session.State.{
  Session, SessionEvent, ToolHandler, ToolInvocation, HookHandler,
}
use copilot_sdk_swift.Session.Subscribe.{get_tool_handler}
use copilot_sdk_swift.Session.Broadcast.{Task}
use copilot_sdk_swift.Session.Dispatch.{Listeners, Dispatching, dispatch_event}
use copilot_sdk_swift.Session.Tasks.{is_text, stringified, denied}
use copilot_sdk_swift.Session.Callbacks
use copilot_sdk_swift.Session.Callbacks.{is_no_result_error}
use copilot_sdk_swift.Client.State.{Client}

abbrev pub as_text : Value → Option String
as_text (str s) = some s
as_text _ = none

-- `params?.[key]`
abbrev pub param : String → Value → Value
param key (obj fs) = lookup key fs
param key _ = undefined

-- `params[key]`, if that is a text.
abbrev pub text_param : String → Value → Option String
text_param key params = as_text (param key params)

-- The text, or the error of a payload that does not have it.
abbrev require : String → Option String → Outcome String
require what none = throw (error what)
require what (some s) = ok s

abbrev session_or : String → Option Session → Outcome Session
session_or message none = throw (error message)
session_or message (some s) = ok s

abbrev pub find_session : String → Client → Outcome Session
find_session id c = session_or ("Session not found: " +++ id) (JsMap.get id c.sessions)

-- The session and the event that a notification is about; `none` where it is not well formed.
unfoldable pub addressed : Value → Option (String × Value)
addressed (obj fs) = elim (as_text (lookup "sessionId" fs)) [
  | none ↦ none
  | some id ↦ if has "event" fs then some (id, lookup "event" fs) else none
]
addressed _ = none

-- The client after a notification, the listeners called and the method started.
pub record Notified : Type 0 where
  pub client : Client
  pub called : List ℕ
  pub task : Option Task

abbrev pub ignored : Client → Notified
ignored c = record { client = c; called = []; task = none }

abbrev pub with_session : String → Session → Client → Client
with_session id s c = record c { sessions = JsMap.set id s c.sessions }

module _ (as_event : Value → SessionEvent) (listeners : Listeners) where
  -- `none` when the fuel of the dispatch runs out.
  unfoldable pub handle_session_event_notification : ℕ → Value → Client → Option Notified
  handle_session_event_notification fuel notification c = elim (addressed notification) [
    | none ↦ some (ignored c)
    | some (id, event) ↦ elim (JsMap.get id c.sessions) [
      | none ↦ some (ignored c)
      | some s ↦ elim (dispatch_event listeners (as_event event) fuel s) [
        | none ↦ none
        | some (d, task) ↦
            some (record { client = with_session id d.session c; called = d.called; task = task })
      ]
    ]
  ]

unfoldable pub handle_user_input_request : Value → Client → Outcome Value
handle_user_input_request params c = do
  id ← require "Invalid user input request payload" (text_param "sessionId" params)
  question ← require "Invalid user input request payload" (text_param "question" params)
  s ← find_session id c
  Callbacks.handle_user_input_request
      (obj (
        field "question" (str question) (
          field "choices" (param "choices" params)
            (field "allowFreeform" (param "allowFreeform" params) end))))
      s

unfoldable pub handle_hooks_invoke : (String → Option HookHandler) → Value → Client → Outcome Value
handle_hooks_invoke inherited params c = do
  id ← require "Invalid hooks invoke payload" (text_param "sessionId" params)
  hook_type ← require "Invalid hooks invoke payload" (text_param "hookType" params)
  s ← find_session id c
  ok (
      obj (
        field "output" (Callbacks.handle_hooks_invoke inherited hook_type (param "input" params) s)
          end))

abbrev sections_or_error : Option (JsMap String) → Outcome (JsMap String)
sections_or_error none = throw (error "Invalid systemMessage.transform payload")
sections_or_error (some sections) = ok sections

-- The contents of the sections by their ids; `none` where the payload has no object of sections.
unfoldable pub handle_system_message_transform :
    Value → Option (JsMap String) → Client → Outcome (JsMap String)
handle_system_message_transform params sections c = do
  id ← require "Invalid systemMessage.transform payload" (text_param "sessionId" params)
  contents ← sections_or_error sections
  s ← find_session id c
  ok (Callbacks.handle_system_message_transform contents s)

-- `isToolResultObject` of client.ts; unlike that of session.ts it does not look at the result type.
unfoldable pub is_tool_result_object : Value → Bool
is_tool_result_object (obj fs) =
    has "textResultForLlm" fs && is_text (lookup "textResultForLlm" fs) && has "resultType" fs
is_tool_result_object _ = false

abbrev failure : String → String → Value
failure text message = obj (
    field "textResultForLlm" (str text) (
      field "resultType" (str "failure")
        (field "error" (str message) (field "toolTelemetry" (obj end) end))))

abbrev success : Value → Value
success text = obj (
    field "textResultForLlm" text
      (field "resultType" (str "success") (field "toolTelemetry" (obj end) end)))

unfoldable pub normalize_tool_result_v2 : Value → Value
normalize_tool_result_v2 undefined = failure "Tool returned no result" "tool returned no result"
normalize_tool_result_v2 null = failure "Tool returned no result" "tool returned no result"
normalize_tool_result_v2 (str s) = success (str s)
normalize_tool_result_v2 v = if is_tool_result_object v then v else success (stringified v)

abbrev failed_tool : Thrown → Value
failed_tool e =
    failure "Invoking this tool produced an error. Detailed information is not available."
      (message_of e)

abbrev pub tool_outcome : Outcome Value → Value
tool_outcome (ok v) = normalize_tool_result_v2 v
tool_outcome (throw e) = failed_tool e

abbrev pub tool_call : String → String → String → Value → ToolInvocation
tool_call id call_id name params = record {
  session_id = id;
  tool_call_id = call_id;
  tool_name = name;
  arguments = param "arguments" params;
  traceparent = param "traceparent" params;
  tracestate = param "tracestate" params;
}

abbrev unsupported : String → Value
unsupported name =
    failure ("Tool '" +++ name +++ "' is not supported by this client instance.")
      ("tool '" +++ name +++ "' not supported")

-- The result of one tool call in a session.
unfoldable pub run_tool_v2 : Option ToolHandler → ToolInvocation → Value
unfolding normalize_tool_result_v2
run_tool_v2 none call = unsupported call.tool_name
run_tool_v2 (some handler) call = tool_outcome (handler call.arguments call)

unfoldable pub handle_tool_call_request_v2 : Value → Client → Outcome Value
unfolding run_tool_v2
handle_tool_call_request_v2 params c = do
  id ← require "Invalid tool call payload" (text_param "sessionId" params)
  call_id ← require "Invalid tool call payload" (text_param "toolCallId" params)
  name ← require "Invalid tool call payload" (text_param "toolName" params)
  s ← session_or ("Unknown session " +++ id) (JsMap.get id c.sessions)
  ok (
      obj (
        field "result" (run_tool_v2 (get_tool_handler name s) (tool_call id call_id name params))
          end))

abbrev pub in_result : Value → Value
in_result v = obj (field "result" v end)

abbrev permission_or_denial : Outcome Value → Outcome Value
permission_or_denial (ok v) = ok (in_result v)
permission_or_denial (throw e) = if is_no_result_error e then throw e else ok (in_result denied)

unfoldable pub handle_permission_request_v2 : Value → Client → Outcome Value
handle_permission_request_v2 params c = do
  id ← require "Invalid permission request payload" (text_param "sessionId" params)
  if truthy (param "permissionRequest" params)
      then (do
        s ← find_session id c
        permission_or_denial
            (Callbacks.handle_permission_request_v2 (param "permissionRequest" params) s))
      else throw (error "Invalid permission request payload")
