-- ===== src/Session/Tasks/Shape.antt =====
-- The shape that the four methods of session.ts which run a handler share.
use mathlib.Core.List.{append_assoc}
use copilot_sdk_swift.Prelude.{
  ◌≤◌, String, ◌≡◌, inl, inr, refl, false, List, [], ◌∷◌, ◌++◌, arith, All, length,
}
use copilot_sdk_swift.Js.Value.{str, lookup}
use copilot_sdk_swift.Js.Outcome.{Thrown, Outcome, ok, throw, Outcome-cases, is_rpc_error}
use copilot_sdk_swift.Rpc.{Request, Peer, Async, lift, ◌>>=◌, try_catch, send_request}
use copilot_sdk_swift.Session.Tasks.{send, send_or_drop}

-- A request that answers the pending request `id`.
abbrev pub IsAnswer : String → String → Request → Type 0
IsAnswer method id r = (r.method ≡ method) × (lookup "requestId" r.params ≡ str id)

-- From `before` to `after` between one and two answers were sent, and nothing else.
pub record IsAnswered (method id : String) (before after : List Request) : Type 0 where
  pub answers : List Request
  pub appended : after ≡ before ++ answers
  pub about_id : All (IsAnswer method id) answers
  pub at_least_one : 1 ≤ length answers
  pub at_most_two : length answers ≤ 2

-- The shape that the four methods share: one request, and one more if anything fails.
abbrev pub respond : Peer → Outcome Request → (Thrown → Request) → Async (Unit {0})
respond peer plan fallback =
    try_catch (do r ← lift plan; send peer r) (λ e. send_or_drop peer (fallback e))

-- The answers that are sent in that shape: a fallback only if the first answer is not to be had, or
-- is not accepted.
abbrev pub answers : Peer → List Request → Outcome Request → (Thrown → Request) → List Request
answers peer sent (throw e) fallback = fallback e ∷ []
answers peer sent (ok r) fallback = elim (peer sent r) [
  | ok _ ↦ r ∷ []
  | throw e ↦ r ∷ fallback e ∷ []
]

module _ (peer : Peer) (sent : List Request) where
  pub after-respond :
      (plan : Outcome Request) (fallback : Thrown → Request)
      → (respond peer plan fallback sent).1 ≡ sent ++ answers peer sent plan fallback
  unfolding send_request
  after-respond (throw e) fallback = ground arith
  after-respond (ok r) fallback = elim (Outcome-cases (peer sent r)) [
    | inl (v, e) ↦ ground (arith, e)
    | inr (x, e) ↦ ground (arith, e, append_assoc sent (r ∷ []) (fallback x ∷ []))
  ]

  -- What a promise of that shape rejects with is no RPC error.
  pub respond-rejects :
      (plan : Outcome Request) (fallback : Thrown → Request) (e : Thrown)
      → (respond peer plan fallback sent).0 ≡ throw e
      → is_rpc_error e ≡ false
  unfolding send_request
  respond-rejects plan fallback e h = ground arith

  pub answers-IsAnswered :
      (method id : String) (plan : Outcome Request) (fallback : Thrown → Request)
      → ((r : Request) → plan ≡ ok r → IsAnswer method id r)
      → ((e : Thrown) → IsAnswer method id (fallback e))
      → (after : List Request) → after ≡ sent ++ answers peer sent plan fallback
      → IsAnswered method id sent after
  answers-IsAnswered method id (throw e) fallback first second after h = record {
    answers = fallback e ∷ [];
    appended = h;
    about_id = (second e, tt);
    at_least_one = omega arith;
    at_most_two = omega arith;
  }
  answers-IsAnswered method id (ok r) fallback first second after h =
      elim (Outcome-cases (peer sent r)) [
        | inl (v, e) ↦ record {
          answers = r ∷ [];
          appended = ground (arith, e, h);
          about_id = (first r refl, tt);
          at_least_one = omega arith;
          at_most_two = omega arith;
        }
        | inr (x, e) ↦ record {
          answers = r ∷ fallback x ∷ [];
          appended = ground (arith, e, h);
          about_id = (first r refl, (second x, tt));
          at_least_one = omega arith;
          at_most_two = omega arith;
        }
      ]

  pub answers-All :
      {P : Request → Type 0} (plan : Outcome Request) (fallback : Thrown → Request)
      → ((r : Request) → plan ≡ ok r → P r)
      → ((e : Thrown) → P (fallback e))
      → All P (answers peer sent plan fallback)
  answers-All (throw e) fallback first second = (second e, tt)
  answers-All (ok r) fallback first second = elim (Outcome-cases (peer sent r)) [
    | inl (v, e) ↦ rw (e, answers) (first r refl, tt)
    | inr (x, e) ↦ rw (e, answers) (first r refl, (second x, tt))
  ]
