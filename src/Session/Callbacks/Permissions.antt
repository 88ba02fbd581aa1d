-- ===== src/Session/Callbacks/Permissions.antt =====
-- The permission decision of protocol version 2, and that both protocols decide alike.
use copilot_sdk_swift.Prelude.{
  String, ◌≡◌, refl, true, some, List, [], ◌∷◌, ◌++◌, arith, inl, inr, ◌⊎◌, eq_refl, Bool-cases,
  Option-cases, ◌∙◌, ap,
}
use copilot_sdk_swift.Js.Value.{Value}
use copilot_sdk_swift.Js.Outcome.{Thrown, error, Outcome, ok, throw, Outcome-cases}
use copilot_sdk_swift.Rpc.{Request, Peer}
use copilot_sdk_swift.Session.State.{Session, PermissionHandler}
use copilot_sdk_swift.Session.Tasks.{
  get_field, is_no_result, denied, pending, permissions_method, execute_permission_and_respond,
}
use copilot_sdk_swift.Session.Tasks.Answers.{withholds}
use copilot_sdk_swift.Session.Callbacks.{
  no_result_permission_v2_error, handle_permission_request_v2, checked,
}

-- The `try` either returns what the handler returned, or throws.
checked-cases :
    (o : Outcome Value)
    → ((v : Value) × (o ≡ ok v) × (checked o ≡ ok v)) ⊎ ((e : Thrown) × (checked o ≡ throw e))
checked-cases (throw e) = inr (e, refl)
checked-cases (ok v) = elim (Outcome-cases (get_field "kind" v)) [
  | inr (e, h) ↦ inr (e, ground (arith, h))
  | inl (kind, h) ↦ elim (Bool-cases (is_no_result kind)) [
    | inl b ↦ inr (error no_result_permission_v2_error, ground (arith, h, b))
    | inr b ↦ inl (v, refl, ground (arith, h, b))
  ]
]

-- In protocol version 2 an answer is the handler's own result, or a denial: an exception of the
-- handler, a result without a kind and a missing handler all deny.
pub handle_permission_request_v2-ok :
    (request v : Value) (s : Session)
    → handle_permission_request_v2 request s ≡ ok v
    → (v ≡ denied)
      ⊎ ((handler : PermissionHandler) × (s.permission_handler ≡ some handler)
          × (handler request s.session_id ≡ ok v))
unfolding handle_permission_request_v2
handle_permission_request_v2-ok request v s h = elim (Option-cases s.permission_handler) [
  | inl e ↦ inl (ground (arith, e, h))
  | inr (handler, e) ↦ elim (checked-cases (handler request s.session_id)) [
    | inl (w, o, c) ↦ inr (handler, e, o ∙ ap ok (ground (arith, e, c, h)))
    | inr (x, c) ↦ inl (ground (arith, e, c, h))
  ]
]

-- A session without a handler and a handler that says "no-result" are told apart: the first denies,
-- the second is refused by an error of its own.
pub handle_permission_request_v2-no_result :
    (request : Value) (s : Session) (handler : PermissionHandler)
    → s.permission_handler ≡ some handler
    → withholds (handler request s.session_id) ≡ true
    → handle_permission_request_v2 request s ≡ throw (error no_result_permission_v2_error)
unfolding handle_permission_request_v2
handle_permission_request_v2-no_result request s handler e w =
    elim (Outcome-cases (handler request s.session_id)) [
      | inr (x, o) ↦ absurd (ground (arith, o, w))
      | inl (v, o) ↦ elim (Outcome-cases (get_field "kind" v)) [
        | inr (x, k) ↦ absurd (ground (arith, o, k, w))
        | inl (kind, k) ↦ ground (arith, e, o, k, w, eq_refl no_result_permission_v2_error)
      ]
    ]

module _ (peer : Peer) (sent : List Request) (request_id : String) where
  -- The two protocols decide alike: what version 2 returns is what version 3 sends first, unless the
  -- handler says "no-result"; and if the CLI accepts that, nothing else is sent.
  pub protocols_agree :
      (request d reply : Value) (s : Session) (handler : PermissionHandler)
      → s.permission_handler ≡ some handler
      → handle_permission_request_v2 request s ≡ ok d
      → peer sent (pending permissions_method s.session_id request_id "result" d) ≡ ok reply
      → execute_permission_and_respond peer s.session_id request_id request handler sent
        ≡ (ok tt, sent ++ pending permissions_method s.session_id request_id "result" d ∷ [])
  unfolding handle_permission_request_v2 execute_permission_and_respond
  protocols_agree request d reply s handler e h p =
      elim (Outcome-cases (handler request s.session_id)) [
        | inr (x, o) ↦
            let same : d ≡ denied = ground (arith, e, h, o) in
            let q : peer sent (pending permissions_method s.session_id request_id "result" denied)
                ≡ ok reply =
              rw same at p in
            rw same (ground (arith, o, q))
        | inl (v, o) ↦ elim (Outcome-cases (get_field "kind" v)) [
          | inr (x, k) ↦
              let same : d ≡ denied = ground (arith, e, h, o, k) in
              let q : peer sent (pending permissions_method s.session_id request_id "result" denied)
                  ≡ ok reply =
                rw same at p in
              rw same (ground (arith, o, k, q))
          | inl (kind, k) ↦ elim (Bool-cases (is_no_result kind)) [
            | inl b ↦ absurd (ground (arith, e, h, o, k, b, eq_refl no_result_permission_v2_error))
            | inr b ↦
                let same : d ≡ v = ground (arith, e, h, o, k, b) in
                let q : peer sent (pending permissions_method s.session_id request_id "result" v)
                    ≡ ok reply =
                  rw same at p in
                rw same (ground (arith, o, k, b, q))
          ]
        ]
      ]
