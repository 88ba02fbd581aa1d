-- ===== src/Client/Stop/Retries.antt =====
-- How often `stop` of client.ts tries to disconnect a session.
use copilot_sdk_swift.Prelude.{
  ℕ, zero, suc, ◌≤◌, ◌≡◌, refl, ap, ◌∙◌, none, some, List, [], ◌∷◌, ◌++◌, arith, inl, inr, ◌⊎◌,
}
use mathlib.Core.List.{append_assoc}
use copilot_sdk_swift.Js.Outcome.{Thrown, Outcome, throw, Outcome-cases, message_of}
use copilot_sdk_swift.Rpc.{Request, Peer}
use copilot_sdk_swift.Session.State.{Session}
use copilot_sdk_swift.Session.Requests.{destroy_request, disconnect}
use copilot_sdk_swift.Client.Stop.{
  Retried, try_disconnect, disconnect_with_retries, backoff, max_attempts,
}

-- The same request `n` times.
unfoldable pub repeated : ℕ → Request → List Request
repeated zero r = []
repeated (suc n) r = r ∷ repeated n r

module _ (peer : Peer) (s : Session) where
  -- Of `left` attempts at most, one to all were made, and an error is left only by the last one.
  pub record Attempts (left : ℕ) (before : List Request) (r : Retried) : Type 0 where
    pub made : ℕ
    pub sent : r.sent ≡ before ++ repeated made (destroy_request s)
    pub at_least_one : 1 ≤ made
    pub at_most : made ≤ left
    pub error : (r.last_error ≡ none) ⊎ (made ≡ left)

  abbrev after_failure : Thrown → ℕ → Retried → Retried
  after_failure x attempt r = record {
    last_error = some (message_of x);
    sent = r.sent ++ destroy_request s ∷ [];
    delays = r.delays ++ backoff attempt;
  }

  try_disconnect_again :
      (left attempt : ℕ) (r : Retried) (x : Thrown)
      → peer r.sent (destroy_request s) ≡ throw x
      → try_disconnect peer (suc left) attempt s r
        ≡ try_disconnect peer left (suc attempt) s (after_failure x attempt r)
  unfolding try_disconnect
  try_disconnect_again left attempt r x e =
      rw (outcome, try_disconnect)
        (ap
          (λ (p : Session × Outcome (Unit {0}) × List Request).
            try_disconnect peer left (suc attempt) p.0 (record {
              last_error = some (message_of x);
              sent = p.2;
              delays = r.delays ++ backoff attempt;
            }))
          throws)
    where
      throws : disconnect peer s r.sent ≡ (s, throw x, r.sent ++ destroy_request s ∷ [])
      throws = unfold disconnect in ground (arith, e)

      outcome : (disconnect peer s r.sent).1 ≡ throw x
      outcome = ap (λ (p : Session × Outcome (Unit {0}) × List Request). p.1) throws

  try_disconnect-Attempts :
      (left attempt : ℕ) (r : Retried)
      → Attempts (suc left) r.sent (try_disconnect peer (suc left) attempt s r)
  unfolding try_disconnect disconnect repeated
  try_disconnect-Attempts zero attempt r = elim (Outcome-cases (peer r.sent (destroy_request s))) [
    | inl (v, e) ↦ record {
      made = 1;
      sent = ground (arith, e);
      at_least_one = omega arith;
      at_most = omega arith;
      error = inl (ground (arith, e));
    }
    | inr (x, e) ↦ record {
      made = 1;
      sent = ground (arith, e);
      at_least_one = omega arith;
      at_most = omega arith;
      error = inr refl;
    }
  ]
  try_disconnect-Attempts (suc left) attempt r =
      elim (Outcome-cases (peer r.sent (destroy_request s))) [
        | inl (v, e) ↦ record {
          made = 1;
          sent = ground (arith, e);
          at_least_one = omega arith;
          at_most = omega arith;
          error = inl (ground (arith, e));
        }
        | inr (x, e) ↦
            let a = try_disconnect-Attempts left (suc attempt) (after_failure x attempt r) in
            rw (try_disconnect_again (suc left) attempt r x e) (record {
              made = suc a.made;
              sent =
                  a.sent
                  ∙ append_assoc r.sent (destroy_request s ∷ [])
                      (repeated a.made (destroy_request s));
              at_least_one = omega arith;
              at_most = omega (arith, a.at_most);
              error = elim a.error [ inl h ↦ inl h | inr h ↦ inr (omega (arith, h)) ];
            })
      ]

  -- `stop` asks the CLI one to three times to destroy a session, and nothing else; an error is
  -- reported only after the third time.
  pub disconnect_with_retries-Attempts :
      (sent : List Request) → Attempts max_attempts sent (disconnect_with_retries peer s sent)
  unfolding disconnect_with_retries
  disconnect_with_retries-Attempts sent =
      try_disconnect-Attempts 2 1 (record { last_error = none; sent = sent; delays = [] })
