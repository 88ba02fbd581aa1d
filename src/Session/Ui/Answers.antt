-- ===== src/Session/Ui/Answers.antt =====
-- When the dialogs of session.ts reach the CLI, and what their answers mean.
use copilot_sdk_swift.Prelude.{
  String, ◌≡◌, refl, true, false, Option, List, [], ◌∷◌, ◌++◌, arith, ap, ◌∙◌, Bool-cases, inl, inr,
  eq_iff,
}
use copilot_sdk_swift.Js.Value.{Value, bool, str, obj, Fields, lookup}
use copilot_sdk_swift.Js.Outcome.{ok, throw, Outcome-cases}
use copilot_sdk_swift.Rpc.{Request, Peer}
use copilot_sdk_swift.Session.State.{Session}
use copilot_sdk_swift.Session.Ui.{
  InputOptions, can_elicit, not_supported, elicitation_request, form, confirm_shape, elicitation,
  confirmed, is_accept, confirm, select, input, get_field_or_undefined,
}

is_accept-eq : (v : Value) → is_accept v ≡ true → v ≡ str "accept"
is_accept-eq (str a) h = ap str ((eq_iff a "accept").0 h)
is_accept-eq _ h = cc

confirmed-true :
    (v : Value) (sent : List Request)
    → (confirmed v sent).0 ≡ ok true
    → (fs : Fields) × (v ≡ obj fs)
      × (lookup "action" fs ≡ str "accept")
      × (get_field_or_undefined "confirmed" (lookup "content" fs) ≡ bool true)
unfolding confirmed
confirmed-true (obj fs) sent h =
    (fs, refl, is_accept-eq (lookup "action" fs) (ground (arith, h)), ground (arith, h))
confirmed-true _ sent h = cc

module _ (peer : Peer) (s : Session) (sent : List Request) where
  -- Where the host has not said that it supports elicitation, each of the four dialogs rejects with
  -- the same error and sends nothing.
  pub dialogs_gated :
      can_elicit s ≡ false
      → (message : String) (schema : Value) (options : List String) (o : Option InputOptions)
      → (elicitation peer s message schema sent ≡ (throw not_supported, sent))
        × (confirm peer s message sent ≡ (throw not_supported, sent))
        × (select peer s message options sent ≡ (throw not_supported, sent))
        × (input peer s message o sent ≡ (throw not_supported, sent))
  unfolding elicitation confirm select input
  dialogs_gated h message schema options o =
      (ground (arith, h), ground (arith, h), ground (arith, h), ground (arith, h))

  -- `confirm` says yes only if the host supports the dialog and its answer to the very request that
  -- was sent is an accepted form whose `confirmed` is `true`.
  pub confirm-true :
      (message : String)
      → (confirm peer s message sent).0 ≡ ok true
      → (fs : Fields) × (peer sent (elicitation_request s message (form "confirmed" confirm_shape))
          ≡ ok (obj fs))
        × (can_elicit s ≡ true)
        × (lookup "action" fs ≡ str "accept")
        × (get_field_or_undefined "confirmed" (lookup "content" fs) ≡ bool true)
  unfolding confirm
  confirm-true message h = elim (Bool-cases (can_elicit s)) [
    | inl e ↦
        let r = elicitation_request s message (form "confirmed" confirm_shape) in
        elim (Outcome-cases (peer sent r)) [
          | inl (v, o) ↦
              let (fs, same, action, answer) =
                confirmed-true v (sent ++ r ∷ []) (ground (arith, h, e, o)) in
              (fs, o ∙ ap ok same, e, action, answer)
          | inr (x, o) ↦ absurd (ground (arith, h, e, o))
        ]
    | inr e ↦ absurd (ground (arith, h, e))
  ]
