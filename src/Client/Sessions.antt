-- ===== src/Client/Sessions.antt =====
-- `createSession` and `resumeSession` of client.ts. While the client waits for the answer to its request
-- nothing else is taken to happen; what the start of the client meets is a parameter, and so is how the
-- trace context provider and the maker of a file system handler end.
pub mod Registered
pub mod Opening
pub mod Kept
use copilot_sdk_swift.Prelude.{
  ℕ, String, Bool, true, false, ◌||◌, Option, none, some, List, [], ◌∷◌, ◌++◌, if◌then◌else◌,
  is_some, map, ◌+++◌,
}
use mathlib.Core.Option
use copilot_sdk_swift.Js.Value.{
  Value, undefined, null, bool, str, arr, obj, Items, nil, cons, Fields, end, field, lookup,
}
use copilot_sdk_swift.Js.Outcome.{Thrown, error, Outcome, ok, throw}
use copilot_sdk_swift.Js.JsMap
use copilot_sdk_swift.Rpc.{Request, Peer}
use copilot_sdk_swift.Session.State.{
  Session, SessionCapabilities, UiCapabilities, PermissionHandler, UserInputHandler,
  ElicitationHandler, SessionHooks, ToolHandler, CommandHandler, new_session,
}
use copilot_sdk_swift.Session.Subscribe.{
  register_tools, register_commands, register_permission_handler, register_user_input_handler,
  register_elicitation_handler, register_hooks, register_transform_callbacks, on_any,
  set_capabilities,
}
use copilot_sdk_swift.Session.Requests.{TraceContext, get_trace_context, with_trace}
use copilot_sdk_swift.Client.State.{Client, Exec}
use copilot_sdk_swift.Client.Start.{StartWorld, start}
use copilot_sdk_swift.Client.Incoming.{with_session}
use copilot_sdk_swift.Client.SystemMessage.{
  SystemMessage, Extracted, extract_transform_callbacks, empty_extraction,
}
use copilot_sdk_swift.Client.SessionConfig.{
  SessionConfig, prepare_session, has_hooks, create_request, resume_request,
}

-- The client is started if it has no connection and may start itself.
unfoldable pub ensure_started : StartWorld → Exec (Unit {0})
ensure_started w c =
    if c.connection
    then (ok tt, c)
    else if c.auto_start
    then start w c
    else (throw (error "Client not connected. Call start() first."), c)

abbrev pub missing_fs_handler : Thrown
missing_fs_handler =
    error
      "createSessionFsHandler is required in session config when sessionFs is enabled in client options."

abbrev pub make_fs_handler : SessionConfig → Client → Outcome (Unit {0})
make_fs_handler config c = elim c.session_fs_config [
  | none ↦ ok tt
  | some _ ↦ elim config.create_session_fs_handler [ none ↦ throw missing_fs_handler | some o ↦ o ]
]

abbrev as_flag : Value → Option Bool
as_flag (bool b) = some b
as_flag _ = none

abbrev as_ui : Value → Option UiCapabilities
as_ui (obj fs) = some (record { elicitation = as_flag (lookup "elicitation" fs) })
as_ui _ = none

abbrev as_capabilities : Value → Option SessionCapabilities
as_capabilities (obj fs) = some (record { ui = as_ui (lookup "ui" fs) })
as_capabilities _ = none

abbrev as_path : Value → Option String
as_path (str s) = some s
as_path _ = none

-- What the answer to the request sets; one that is `undefined` or `null` cannot be taken apart.
unfoldable pub read_response : Value → Session → Outcome Session
read_response undefined s = throw (error "Cannot destructure property 'workspacePath' of undefined")
read_response null s = throw (error "Cannot destructure property 'workspacePath' of null")
read_response (obj fs) s = ok (
    set_capabilities (as_capabilities (lookup "capabilities" fs))
      (record s { workspace_path = as_path (lookup "workspacePath" fs) }))
read_response _ s = ok (set_capabilities none (record s { workspace_path = none }))

abbrev pub without_session : String → Client → Client
without_session id c = record c { sessions = JsMap.delete id c.sessions }

abbrev pub Opened : Type 0
Opened = Outcome Session × Client × List Request

abbrev pub answer_of : Peer → List Request → Request → Session → Outcome Session
answer_of peer sent r s = elim (peer sent r) [ ok v ↦ read_response v s | throw e ↦ throw e ]

-- The `try` block and its `catch`, for a session that is in the map already.
unfoldable pub request_session : Peer → Request → String → Session → Client → List Request → Opened
unfolding read_response
request_session peer r id s c sent = elim (answer_of peer sent r s) [
  | ok s' ↦ (ok s', with_session id s' c, sent ++ r ∷ [])
  | throw e ↦ (throw e, without_session id c, sent ++ r ∷ [])
]

-- From the registration of the session on.
unfoldable pub open_session :
    Peer → Request → String → SessionConfig → Client → List Request → Opened
unfolding request_session
open_session peer r id config c sent =
    let s = prepare_session id config in
    let registered = with_session id s c in
    elim (make_fs_handler config c) [
      | throw e ↦ (throw e, registered, sent)
      | ok _ ↦ request_session peer r id s registered sent
    ]

abbrev pub missing_permission_handler : String → Thrown
missing_permission_handler doing = error (
    "An onPermissionRequest handler is required when " +++ doing
    +++ " a session. For example, to allow all permissions, use { onPermissionRequest: approveAll }.")

-- What the two methods have in common: `request` is made of the id of the session.
abbrev pub begin :
    Peer
    → StartWorld
    → (doing : String) → (id : String) → Request
    → SessionConfig
    → Client
    → List Request
    → Opened
begin peer w doing id r config c sent = elim config.on_permission_request [
  | none ↦ (throw (missing_permission_handler doing), c, sent)
  | some _ ↦
      let (o, c') = ensure_started w c in
      elim o [ throw e ↦ (throw e, c', sent) | ok _ ↦ open_session peer r id config c' sent ]
]

abbrev pub id_or : String → Option String → String
id_or random none = random
id_or random (some id) = id

module _ (peer : Peer) (w : StartWorld) (trace : Option (Outcome (Option TraceContext))) where
  -- `random_id` is what `randomUUID()` returns.
  unfoldable pub create_session :
      (random_id : String) → SessionConfig → Client → List Request → Opened
  unfolding ensure_started open_session prepare_session has_hooks create_request
  create_session random_id config c sent =
      let id = id_or random_id config.session_id in
      begin peer w "creating" id (create_request (get_trace_context trace) id config) config c sent

  unfoldable pub resume_session : String → SessionConfig → Client → List Request → Opened
  unfolding ensure_started open_session prepare_session has_hooks resume_request
  resume_session id config c sent =
      begin peer w "resuming" id (resume_request (get_trace_context trace) id config) config c sent
