-- ===== src/Client/Incoming/Adapters.antt =====
-- What the adapters for version 2 of the protocol answer.
use copilot_sdk_swift.Prelude.{
  String, ◌≡◌, refl, ◌⊎◌, inl, inr, Bool, true, false, Option, none, some, arith, ◌∙◌, ap,
  Option-cases, Bool-cases, if-true, if-false,
}
use copilot_sdk_swift.Js.Value.{Value, undefined, null, bool, num, str, arr, obj, func, lookup, has}
use copilot_sdk_swift.Js.Stringify.{stringify}
use copilot_sdk_swift.Js.Outcome.{Outcome, ok, throw, Outcome-cases}
use copilot_sdk_swift.Js.JsMap
use copilot_sdk_swift.Session.State.{Session, ToolHandler, ToolInvocation, PermissionHandler}
use copilot_sdk_swift.Session.Subscribe.{get_tool_handler}
use copilot_sdk_swift.Session.Tasks
use copilot_sdk_swift.Session.Tasks.{tool_result, denied}
use copilot_sdk_swift.Session.Callbacks
use copilot_sdk_swift.Session.Callbacks.Permissions.{handle_permission_request_v2-ok}
use copilot_sdk_swift.Client.State.{Client}
use copilot_sdk_swift.Client.Incoming.{
  param, text_param, tool_call, tool_outcome, in_result, is_tool_result_object,
  normalize_tool_result_v2, run_tool_v2, handle_tool_call_request_v2, handle_permission_request_v2,
}

-- Whether a tool's handler returned a function, which has no JSON text.
abbrev pub is_function : Outcome Value → Bool
is_function (ok (func source)) = true
is_function _ = false

abbrev pub returns_function : Option ToolHandler → ToolInvocation → Bool
returns_function none call = false
returns_function (some handler) call = is_function (handler call.arguments call)

is_tool_result_object-tool_outcome :
    (o : Outcome Value) → is_function o ≡ false → is_tool_result_object (tool_outcome o) ≡ true
unfolding is_tool_result_object normalize_tool_result_v2 lookup has stringify
is_tool_result_object-tool_outcome (throw e) h = refl
is_tool_result_object-tool_outcome (ok undefined) h = refl
is_tool_result_object-tool_outcome (ok null) h = refl
is_tool_result_object-tool_outcome (ok (bool true)) h = refl
is_tool_result_object-tool_outcome (ok (bool false)) h = refl
is_tool_result_object-tool_outcome (ok (num n)) h = refl
is_tool_result_object-tool_outcome (ok (str s)) h = refl
is_tool_result_object-tool_outcome (ok (arr xs)) h = refl
is_tool_result_object-tool_outcome (ok (obj fs)) h =
    elim (Bool-cases (is_tool_result_object (obj fs))) [
      | inl b ↦ ap is_tool_result_object (if-true _ _ _ b) ∙ b
      | inr b ↦ ap is_tool_result_object (if-false _ _ _ b)
    ]
is_tool_result_object-tool_outcome (ok (func source)) h = absurd (cc h)

run_tool_v2-answers :
    (handler : Option ToolHandler) (call : ToolInvocation)
    → returns_function handler call ≡ false
    → is_tool_result_object (run_tool_v2 handler call) ≡ true
unfolding run_tool_v2 is_tool_result_object lookup has
run_tool_v2-answers none call h = refl
run_tool_v2-answers (some handler) call h =
    is_tool_result_object-tool_outcome (handler call.arguments call) h

-- A well-formed tool call for a session that the client has is always answered by a tool result with a
-- text and a type, whether there is a tool of that name or not and whether it fails or not; but for a
-- tool that returns a function.
pub handle_tool_call_request_v2-answers :
    (params : Value) (c : Client) (id call_id name : String) (s : Session)
    → text_param "sessionId" params ≡ some id
    → text_param "toolCallId" params ≡ some call_id
    → text_param "toolName" params ≡ some name
    → JsMap.get id c.sessions ≡ some s
    → returns_function (get_tool_handler name s) (tool_call id call_id name params) ≡ false
    → (v : Value) × (handle_tool_call_request_v2 params c ≡ ok (in_result v))
      × (is_tool_result_object v ≡ true)
unfolding handle_tool_call_request_v2
handle_tool_call_request_v2-answers params c id call_id name s ti tc tn g f = (
  run_tool_v2 (get_tool_handler name s) (tool_call id call_id name params),
  ground (arith, ti, tc, tn, g),
  run_tool_v2-answers (get_tool_handler name s) (tool_call id call_id name params) f,
)

-- A result that version 3 of the protocol sends as it is, version 2 answers as it is too.
pub tool_protocols_agree :
    (v : Value)
    → Tasks.is_tool_result_object v ≡ true
    → (tool_result v ≡ v) × (normalize_tool_result_v2 v ≡ v)
unfolding Tasks.is_tool_result_object is_tool_result_object tool_result normalize_tool_result_v2
tool_protocols_agree (obj fs) h =
    (if-true _ _ _ h, if-true (is_tool_result_object (obj fs)) _ _ (ground (arith, h)))
tool_protocols_agree undefined h = absurd (cc h)
tool_protocols_agree null h = absurd (cc h)
tool_protocols_agree (bool b) h = absurd (cc h)
tool_protocols_agree (num n) h = absurd (cc h)
tool_protocols_agree (str s) h = absurd (cc h)
tool_protocols_agree (arr xs) h = absurd (cc h)
tool_protocols_agree (func source) h = absurd (cc h)

-- A permission request that the client answers carries a denial, or what the permission handler of the
-- session that it names returned.
pub permission_answer_decided :
    (params v : Value) (c : Client)
    → handle_permission_request_v2 params c ≡ ok v
    → (v ≡ in_result denied)
      ⊎ ((id : String) × (s : Session) × (handler : PermissionHandler) × (w : Value) × (text_param
              "sessionId" params
            ≡ some id)
          × (JsMap.get id c.sessions ≡ some s)
          × (s.permission_handler ≡ some handler)
          × (handler (param "permissionRequest" params) s.session_id ≡ ok w)
          × (v ≡ in_result w))
unfolding handle_permission_request_v2
permission_answer_decided params v c h = elim (Option-cases (text_param "sessionId" params)) [
  | inl t ↦ absurd (ground (arith, t, h))
  | inr (id, t) ↦ elim (Option-cases (JsMap.get id c.sessions)) [
    | inl g ↦ absurd (ground (arith, t, g, h))
    | inr (s, g) ↦
        elim (Outcome-cases
          (Callbacks.handle_permission_request_v2 (param "permissionRequest" params) s)) [
            | inr (x, o) ↦ inl (ground (arith, t, g, o, h))
            | inl (w, o) ↦
                let same : v ≡ in_result w = ground (arith, t, g, o, h) in
                elim (handle_permission_request_v2-ok (param "permissionRequest" params) w s o) [
                  | inl d ↦ inl (same ∙ ap in_result d)
                  | inr (handler, p, q) ↦ inr (id, s, handler, w, t, g, p, q, same)
                ]
          ]
  ]
]
