-- ===== src/Session/Dispatch.antt =====
-- `_dispatchEvent` of session.ts. A listener is the user's code: before it returns or throws it may
-- subscribe and unsubscribe listeners of the session that calls it.
pub mod Delivery
pub mod Ending
use copilot_sdk_swift.Prelude.{ℕ, String, List, [], ◌∷◌, ◌++◌, Option, none, some}
use copilot_sdk_swift.Js.JsSet
use copilot_sdk_swift.Js.Outcome.{Outcome, ok, throw}
use copilot_sdk_swift.Session.State.{Session, SessionEvent, event_type}
use copilot_sdk_swift.Session.Subscribe.{on_typed, on_any, off_typed, off_any, typed_slots}
use copilot_sdk_swift.Session.Broadcast.{Task, handle_broadcast_event}

pub data Subscription : Type 0 where
  subscribe_typed unsubscribe_typed : String → ℕ → Subscription
  subscribe_any unsubscribe_any : ℕ → Subscription

unfoldable pub apply_subscription : Subscription → Session → Session
apply_subscription (subscribe_typed t h) s = on_typed t h s
apply_subscription (unsubscribe_typed t h) s = off_typed t h s
apply_subscription (subscribe_any h) s = on_any h s
apply_subscription (unsubscribe_any h) s = off_any h s

unfoldable pub apply_all : List Subscription → Session → Session
apply_all [] s = s
apply_all (op ∷ ops) s = apply_all ops (apply_subscription op s)

-- What a listener does with an event, and how its call ends.
abbrev pub Listeners : Type 0
Listeners = ℕ → SessionEvent → List Subscription × Outcome (Unit {0})

-- The session during a dispatch, and the listeners called so far.
pub record Dispatching : Type 0 where
  pub session : Session
  pub called : List ℕ

module _ (listeners : Listeners) (event : SessionEvent) where
  -- `try { handler(event) } catch (_error) { }`
  unfoldable pub call_listener : ℕ → Dispatching → Dispatching
  unfolding apply_all
  call_listener h d =
      let (ops, outcome) = listeners h event in
      let after : Dispatching = record {
        session = apply_all ops d.session;
        called = d.called ++ h ∷ [];
      } in
      elim outcome [ ok _ ↦ after | throw e ↦ after ]

  -- The two loops; `none` when the fuel of one of them runs out.
  unfoldable pub deliver : ℕ → Dispatching → Option Dispatching
  deliver fuel d =
      elim (JsSet.for_each (λ x. typed_slots (event_type event) x.session) call_listener fuel 0 d) [
        | none ↦ none
        | some d' ↦ JsSet.for_each (λ x. x.session.event_handlers) call_listener fuel 0 d'
      ]

  unfoldable pub dispatch_event : ℕ → Session → Option (Dispatching × Option Task)
  dispatch_event fuel s =
      let (s', task) = handle_broadcast_event event s in
      elim (deliver fuel (record { session = s'; called = [] })) [
        | none ↦ none
        | some d ↦ some (d, task)
      ]
