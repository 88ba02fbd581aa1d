-- ===== src/Client/Sessions/Kept.antt =====
-- What a session that `createSession` or `resumeSession` returns has of its configuration.
use copilot_sdk_swift.Prelude.{
  String, ◌≡◌, ap, Option, none, some, List, ◌∷◌, [], ◌++◌, arith, inl, inr, Option-cases,
}
use copilot_sdk_swift.Js.Value.{Value, undefined, null, obj}
use copilot_sdk_swift.Js.Outcome.{Outcome, ok, Outcome-cases}
use copilot_sdk_swift.Rpc.{Request, Peer}
use copilot_sdk_swift.Session.State.{Session, SessionCapabilities, PermissionHandler}
use copilot_sdk_swift.Session.Subscribe.{
  on_any, set_capabilities, register_transform_callbacks, register_hooks,
  register_elicitation_handler, register_user_input_handler, register_permission_handler,
  register_commands, register_tools,
}
use copilot_sdk_swift.Client.State.{Client}
use copilot_sdk_swift.Client.Start.{StartWorld}
use copilot_sdk_swift.Client.Incoming.{with_session}
use copilot_sdk_swift.Client.SessionConfig.{SessionConfig, prepare_session}
use copilot_sdk_swift.Client.Sessions.{
  Opened, answer_of, begin, ensure_started, make_fs_handler, open_session, read_response,
  request_session,
}

ok-injective : {s s' : Session} → Outcome.ok s ≡ ok s' → s ≡ s'
ok-injective h = cc h

-- The id and the permission handler.
pub record Keeps (id : String) (handler : Option PermissionHandler) (s : Session) : Type 0 where
  pub named : s.session_id ≡ id
  pub permission : s.permission_handler ≡ handler

pub prepare_session-Keeps :
    (id : String) (config : SessionConfig)
    → Keeps id config.on_permission_request (prepare_session id config)
unfolding prepare_session on_any register_transform_callbacks register_hooks
    register_elicitation_handler register_user_input_handler register_permission_handler
    register_commands register_tools
prepare_session-Keeps id config = elim (Option-cases config.on_event) [
  | inl e ↦ record { named = ground (arith, e); permission = ground (arith, e) }
  | inr (h, e) ↦ record { named = ground (arith, e); permission = ground (arith, e) }
]

moved :
    {id : String} {handler : Option PermissionHandler} {s s' : Session}
    → Keeps id handler s
    → Outcome.ok s ≡ ok s'
    → Keeps id handler s'
moved k h = rw (← ok-injective h) k

module _ {id : String} {handler : Option PermissionHandler} {s0 : Session}
    (k : Keeps id handler s0) where
  set_capabilities-Keeps :
      (c : Option SessionCapabilities) (path : Option String)
      → Keeps id handler (set_capabilities c (record s0 { workspace_path = path }))
  unfolding set_capabilities
  set_capabilities-Keeps none path = record { named = k.named; permission = k.permission }
  set_capabilities-Keeps (some c) path = record { named = k.named; permission = k.permission }

  read_response-Keeps : (v : Value) (s : Session) → read_response v s0 ≡ ok s → Keeps id handler s
  unfolding read_response
  read_response-Keeps undefined s h = absurd (cc h)
  read_response-Keeps null s h = absurd (cc h)
  read_response-Keeps (obj fs) s h = moved (set_capabilities-Keeps _ _) h
  read_response-Keeps _ s h = moved (set_capabilities-Keeps none none) h

module _ (peer : Peer) (r : Request) (id : String) where
  pub answer_of-Keeps :
      (sent : List Request) (s0 s : Session) {handler : Option PermissionHandler}
      → Keeps id handler s0
      → answer_of peer sent r s0 ≡ ok s
      → Keeps id handler s
  answer_of-Keeps sent s0 s k h = elim (Outcome-cases (peer sent r)) [
    | inl (v, e) ↦ read_response-Keeps k v s (ground (arith, e, h))
    | inr (x, e) ↦ absurd (ground (arith, e, h))
  ]

module _ (peer : Peer) (r : Request) (id : String) (config : SessionConfig) where
  open_session-Keeps :
      (c c' : Client) (s : Session) (sent sent' : List Request)
      → open_session peer r id config c sent ≡ (ok s, c', sent')
      → Keeps id config.on_permission_request s
  unfolding open_session request_session
  open_session-Keeps c c' s sent sent' h =
      let s0 = prepare_session id config in
      elim (Outcome-cases (make_fs_handler config c)) [
        | inr (x, f) ↦ absurd (ground (arith, f, h))
        | inl (x, f) ↦ elim (Outcome-cases (answer_of peer sent r s0)) [
          | inr (y, e) ↦ absurd (ground (arith, f, e, h))
          | inl (s1, e) ↦
              let eq : ◌≡◌ {A = Opened}
                  (ok s1, with_session id s1 (with_session id s0 c), sent ++ r ∷ [])
                  (ok s, c', sent') =
                ground (arith, f, e, h) in
              let same = ok-injective (ap (λ (p : Opened). p.0) eq) in
              rw (← same) (answer_of-Keeps peer r id sent s0 s1 (prepare_session-Keeps id config) e)
        ]
      ]

  -- A session that is returned has the id that was asked for and the configured permission handler.
  pub begin-Keeps :
      (w : StartWorld) (doing : String) (c c' : Client) (s : Session) (sent sent' : List Request)
      → begin peer w doing id r config c sent ≡ (ok s, c', sent')
      → Keeps id config.on_permission_request s
  begin-Keeps w doing c c' s sent sent' h = elim (Option-cases config.on_permission_request) [
    | inl p ↦ absurd (ground (arith, p, h))
    | inr (handler, p) ↦ elim (Outcome-cases (ensure_started w c).0) [
      | inr (x, e) ↦ absurd (ground (arith, p, e, h))
      | inl (x, e) ↦
          open_session-Keeps (ensure_started w c).1 c' s sent sent' (ground (arith, p, e, h))
    ]
  ]
