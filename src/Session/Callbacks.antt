-- ===== src/Session/Callbacks.antt =====
-- The requests of the CLI that session.ts answers by a callback: `_handleSystemMessageTransform`,
-- `_handlePermissionRequestV2`, `_handleUserInputRequest` and `_handleHooksInvoke`.
pub mod Permissions
pub mod Sections
use copilot_sdk_swift.Prelude.{
  String, Bool, true, false, Option, none, some, List, [], ◌∷◌, ◌==◌, if◌then◌else◌,
}
use copilot_sdk_swift.Js.Value.{Value, undefined, str}
use copilot_sdk_swift.Js.Outcome.{
  Thrown, error, connection_error, response_error, thrown_value, Outcome, ok, throw,
}
use copilot_sdk_swift.Js.JsMap
use copilot_sdk_swift.Js.JsMap.{JsMap}
use copilot_sdk_swift.Session.State.{Session, SessionHooks, HookHandler, SectionTransformFn}
use copilot_sdk_swift.Session.Tasks.{get_field, is_no_result, denied}

-- One section: a callback that fails leaves the content as it was.
unfoldable pub transform_section : Option SectionTransformFn → String → String
transform_section none content = content
transform_section (some callback) content = elim (callback content) [
  | ok transformed ↦ transformed
  | throw e ↦ content
]

abbrev pub find_callback : String → Option (JsMap SectionTransformFn) → Option SectionTransformFn
find_callback id none = none
find_callback id (some callbacks) = JsMap.get id callbacks

-- The loop over the entries of `sections`; it fills `result`.
unfoldable pub transform_sections :
    Option (JsMap SectionTransformFn) → JsMap String → JsMap String → JsMap String
transform_sections callbacks result [] = result
transform_sections callbacks result ((id, content) ∷ rest) =
    transform_sections callbacks
      (JsMap.set id (transform_section (find_callback id callbacks) content) result) rest

unfoldable pub handle_system_message_transform : JsMap String → Session → JsMap String
unfolding transform_sections transform_section
handle_system_message_transform sections s =
    transform_sections s.transform_callbacks JsMap.empty sections

abbrev pub no_result_permission_v2_error : String
no_result_permission_v2_error =
    "Permission handlers cannot return 'no-result' when connected to a protocol v2 server."

-- `error instanceof Error && error.message === NO_RESULT_PERMISSION_V2_ERROR`
abbrev pub is_no_result_error : Thrown → Bool
is_no_result_error (error m) = m == no_result_permission_v2_error
is_no_result_error (connection_error m) = m == no_result_permission_v2_error
is_no_result_error (response_error m) = m == no_result_permission_v2_error
is_no_result_error (thrown_value v) = false

-- The `try` of `_handlePermissionRequestV2`.
abbrev pub checked : Outcome Value → Outcome Value
checked (throw e) = throw e
checked (ok v) = elim (get_field "kind" v) [
  | ok kind ↦ if is_no_result kind then throw (error no_result_permission_v2_error) else ok v
  | throw e ↦ throw e
]

abbrev pub deny_unless_no_result : Outcome Value → Outcome Value
deny_unless_no_result (ok v) = ok v
deny_unless_no_result (throw e) = if is_no_result_error e then throw e else ok denied

unfoldable pub handle_permission_request_v2 : Value → Session → Outcome Value
handle_permission_request_v2 request s = elim s.permission_handler [
  | none ↦ ok denied
  | some handler ↦ deny_unless_no_result (checked (handler request s.session_id))
]

unfoldable pub handle_user_input_request : Value → Session → Outcome Value
handle_user_input_request request s = elim s.user_input_handler [
  | none ↦ throw (error "User input requested but no handler registered")
  | some handler ↦ handler request s.session_id
]

-- `handlerMap[hookType]`: besides the six entries that the method writes, an object has those of
-- `Object.prototype`, which are a parameter here.
unfoldable pub find_hook :
    (String → Option HookHandler) → String → SessionHooks → Option HookHandler
find_hook inherited t h =
    if t == "preToolUse"
    then h.on_pre_tool_use
    else if t == "postToolUse"
    then h.on_post_tool_use
    else if t == "userPromptSubmitted"
    then h.on_user_prompt_submitted
    else if t == "sessionStart"
    then h.on_session_start
    else if t == "sessionEnd"
    then h.on_session_end
    else if t == "errorOccurred"
    then h.on_error_occurred
    else inherited t

-- A hook that fails counts as one that returned `undefined`.
abbrev run_hook : Option HookHandler → Value → String → Value
run_hook none input id = undefined
run_hook (some handler) input id = elim (handler input id) [ ok v ↦ v | throw e ↦ undefined ]

unfoldable pub handle_hooks_invoke :
    (String → Option HookHandler) → String → Value → Session → Value
unfolding find_hook
handle_hooks_invoke inherited hook_type input s = elim s.hooks [
  | none ↦ undefined
  | some h ↦ run_hook (find_hook inherited hook_type h) input s.session_id
]
