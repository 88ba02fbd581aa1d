-- ===== src/Extension.antt =====
-- `joinSession` of nodejs/src/extension.ts, and the permission handlers of nodejs/src/types.ts.
use copilot_sdk_swift.Prelude.{
  String, ◌≡◌, refl, true, Option, none, some, List, [], ◌==◌, ◌||◌, if◌then◌else◌, arith, inl, inr,
  ◌∙◌, ap, is_some, not, Bool-cases,
}
use copilot_sdk_swift.Js.Value.{Value, str, bool, obj, end, field, lookup, is_nullish}
use copilot_sdk_swift.Js.Outcome.{Thrown, error, Outcome, ok, throw, Outcome-cases}
use copilot_sdk_swift.Rpc.{Request, Peer}
use copilot_sdk_swift.Session.State.{Session, PermissionHandler}
use copilot_sdk_swift.Session.Requests.{TraceContext}
use copilot_sdk_swift.Session.Tasks.{execute_permission_and_respond}
use copilot_sdk_swift.Session.Tasks.Answers.{execute_permission_and_respond-no_result}
use copilot_sdk_swift.Session.Callbacks.{
  no_result_permission_v2_error, handle_permission_request_v2,
}
use copilot_sdk_swift.Session.Callbacks.Permissions.{handle_permission_request_v2-no_result}
use copilot_sdk_swift.Client.State.{Client}
use copilot_sdk_swift.Client.Start.{StartWorld}
use copilot_sdk_swift.Client.Options.{ClientOptions, construct}
use copilot_sdk_swift.Client.SessionConfig.{SessionConfig}
use copilot_sdk_swift.Client.Sessions.{resume_session}
use copilot_sdk_swift.Client.Sessions.Kept.{Keeps, begin-Keeps}

unfoldable pub approve_all : PermissionHandler
approve_all request id = ok (obj (field "kind" (str "approved") end))

abbrev pub default_join_session_permission_handler : PermissionHandler
default_join_session_permission_handler request id = ok (obj (field "kind" (str "no-result") end))

-- `new CopilotClient({ isChildProcess: true })`
abbrev pub child_options : ClientOptions
child_options = record {
  cli_url = none;
  cli_path = none;
  use_stdio = none;
  is_child_process = true;
  github_token = none;
  use_logged_in_user = none;
  session_fs = none;
  auto_start = none;
}

abbrev or_default_handler : Option PermissionHandler → PermissionHandler
or_default_handler none = default_join_session_permission_handler
or_default_handler (some handler) = handler

abbrev or_true : Value → Value
or_true v = if is_nullish v then bool true else v

-- The configuration for `resumeSession`. A handler that is not given is the default one.
unfoldable pub join_config : SessionConfig → SessionConfig
join_config config = record config {
  on_permission_request = some (or_default_handler config.on_permission_request);
  default_permissions = not (is_some config.on_permission_request) || config.default_permissions;
  settings =
      field "disableResume" (or_true (lookup "disableResume" config.settings)) config.settings;
}

abbrev not_an_extension : Thrown
not_an_extension =
    error "joinSession() is intended for extensions running as child processes of the Copilot CLI."

abbrev outcome_of : Outcome Session × Client × List Request → Outcome Session × List Request
outcome_of (o, c, sent) = (o, sent)

module _ (peer : Peer) (w : StartWorld) (trace : Option (Outcome (Option TraceContext))) where
  abbrev join_as : String → SessionConfig → Outcome Session × List Request
  join_as id config = elim (construct child_options) [
    | throw e ↦ (throw e, [])
    | ok client ↦ outcome_of (resume_session peer w trace id (join_config config) client [])
  ]

  -- How it ends, and the requests that it makes; the first text is the id in the environment.
  unfoldable pub join_session : Option String → SessionConfig → Outcome Session × List Request
  unfolding join_config construct
  join_session none config = (throw not_an_extension, [])
  join_session (some id) config =
      if id == "" then (throw not_an_extension, []) else join_as id config

  joined-Keeps :
      (id : String) (config : SessionConfig) (client : Client) (s : Session)
      → (resume_session peer w trace id config client []).0 ≡ ok s
      → Keeps id config.on_permission_request s
  unfolding resume_session
  joined-Keeps id config client s h =
      let all = resume_session peer w trace id config client [] in
      begin-Keeps peer _ id config w "resuming" client all.1 s [] all.2
        (ap (λ (o : Outcome Session). (o, all.1, all.2)) h)

  join_session-Keeps :
      (env : Option String) (config : SessionConfig) (s : Session)
      → (join_session env config).0 ≡ ok s
      → (id : String) × Keeps id (join_config config).on_permission_request s
  unfolding join_session
  join_session-Keeps none config s h = absurd (cc h)
  join_session-Keeps (some id) config s h = elim (Bool-cases (id == "")) [
    | inl b ↦ absurd (ground (arith, b, h))
    | inr b ↦ elim (Outcome-cases (construct child_options)) [
      | inr (e, c) ↦ absurd (ground (arith, b, c, h))
      | inl (client, c) ↦
          (id, joined-Keeps id (join_config config) client s (ground (arith, b, c, h)))
    ]
  ]

-- A session that an extension joins without a permission handler of its own has the default handler,
-- which decides no permission request. In protocol version 3 the session sends nothing for a request, so
-- that the decision is left to the others; in version 2, where there are no others, it refuses the
-- request with the error that "no-result" is no answer there.
pub join_session_silent :
    (peer : Peer) (w : StartWorld) (trace : Option (Outcome (Option TraceContext)))
    (env : Option String) (config : SessionConfig) (s : Session)
    → config.on_permission_request ≡ none
    → (join_session peer w trace env config).0 ≡ ok s
    → (handler : PermissionHandler) × (s.permission_handler ≡ some handler)
      × ((peer' : Peer) (request_id : String) (request : Value) (sent : List Request)
          → execute_permission_and_respond peer' s.session_id request_id request handler sent
            ≡ (ok tt, sent))
      × ((request : Value)
          → handle_permission_request_v2 request s ≡ throw (error no_result_permission_v2_error))
unfolding lookup join_config
join_session_silent peer w trace env config s n h =
    let (id, k) = join_session-Keeps peer w trace env config s h in
    let mine : s.permission_handler ≡ some default_join_session_permission_handler =
      k.permission ∙ ap (λ (o : Option PermissionHandler). some (or_default_handler o)) n in
    (
      default_join_session_permission_handler,
      mine,
      λ peer' request_id request sent.
          execute_permission_and_respond-no_result peer' s.session_id request_id sent request
            default_join_session_permission_handler refl,
      λ request.
          handle_permission_request_v2-no_result request s default_join_session_permission_handler
            mine refl,
    )
