-- ===== src/Client/Lifecycle.antt =====
-- The notifications of the life of sessions in client.ts: `on`, the functions that it returns to
-- unsubscribe, and `handleSessionLifecycleNotification`. A listener is known by a number, and may subscribe
-- and unsubscribe listeners of the client that calls it.
pub mod Delivered
use copilot_sdk_swift.Prelude.{
  ℕ, zero, suc, String, Bool, true, false, Option, none, some, List, [], ◌∷◌, ◌++◌, if◌then◌else◌,
}
use copilot_sdk_swift.Js.Value.{Value, obj, lookup}
use copilot_sdk_swift.Js.Outcome.{Outcome, ok, throw}
use copilot_sdk_swift.Js.JsMap
use copilot_sdk_swift.Js.JsSet
use copilot_sdk_swift.Js.JsSet.{JsSet}
use copilot_sdk_swift.Session.Subscribe.{with_type, set_or_empty}
use copilot_sdk_swift.Client.State.{Client}
use copilot_sdk_swift.Client.Incoming.{as_text}

pub record SessionLifecycleEvent : Type 0 where
  pub event_type : String
  pub session_id : String
  pub metadata : Value

-- `on(eventType, handler)`
unfoldable pub on_lifecycle : String → ℕ → Client → Client
on_lifecycle t h c =
    let m = with_type t c.typed_lifecycle_handlers in
    record c {
      typed_lifecycle_handlers = JsMap.set t (JsSet.add h (set_or_empty (JsMap.get t m))) m;
    }

-- `on(handler)`
unfoldable pub on_any_lifecycle : ℕ → Client → Client
on_any_lifecycle h c = record c {
  session_lifecycle_handlers = JsSet.add h c.session_lifecycle_handlers;
}

-- What `on(eventType, handler)` returns.
unfoldable pub off_lifecycle : String → ℕ → Client → Client
off_lifecycle t h c = elim (JsMap.get t c.typed_lifecycle_handlers) [
  | none ↦ c
  | some hs ↦ record c {
    typed_lifecycle_handlers = JsMap.set t (JsSet.delete h hs) c.typed_lifecycle_handlers;
  }
]

-- What `on(handler)` returns.
unfoldable pub off_any_lifecycle : ℕ → Client → Client
off_any_lifecycle h c = record c {
  session_lifecycle_handlers = JsSet.delete h c.session_lifecycle_handlers;
}

unfoldable pub lifecycle_slots : String → Client → JsSet
lifecycle_slots t c = set_or_empty (JsMap.get t c.typed_lifecycle_handlers)

pub data LifecycleSubscription : Type 0 where
  subscribe_typed unsubscribe_typed : String → ℕ → LifecycleSubscription
  subscribe_any unsubscribe_any : ℕ → LifecycleSubscription

unfoldable pub apply_lifecycle : List LifecycleSubscription → Client → Client
apply_lifecycle [] c = c
apply_lifecycle (subscribe_typed t h ∷ ops) c = apply_lifecycle ops (on_lifecycle t h c)
apply_lifecycle (unsubscribe_typed t h ∷ ops) c = apply_lifecycle ops (off_lifecycle t h c)
apply_lifecycle (subscribe_any h ∷ ops) c = apply_lifecycle ops (on_any_lifecycle h c)
apply_lifecycle (unsubscribe_any h ∷ ops) c = apply_lifecycle ops (off_any_lifecycle h c)

abbrev pub LifecycleListeners : Type 0
LifecycleListeners = ℕ → SessionLifecycleEvent → List LifecycleSubscription × Outcome (Unit {0})

-- The event of a notification; `none` where it is not well formed.
unfoldable pub lifecycle_event : Value → Option SessionLifecycleEvent
lifecycle_event (obj fs) = elim (as_text (lookup "type" fs)) [
  | none ↦ none
  | some t ↦ elim (as_text (lookup "sessionId" fs)) [
    | none ↦ none
    | some id ↦ some (record { event_type = t; session_id = id; metadata = lookup "metadata" fs })
  ]
]
lifecycle_event _ = none

-- The client during a notification, and the listeners called so far.
pub record Announced : Type 0 where
  pub client : Client
  pub called : List ℕ

module _ (listeners : LifecycleListeners) (event : SessionLifecycleEvent) where
  -- `try { handler(event) } catch { }`
  unfoldable pub call_lifecycle : ℕ → Announced → Announced
  unfolding apply_lifecycle
  call_lifecycle h d =
      let (ops, outcome) = listeners h event in
      let after : Announced = record {
        client = apply_lifecycle ops d.client;
        called = d.called ++ h ∷ [];
      } in
      elim outcome [ ok _ ↦ after | throw e ↦ after ]

  -- The two loops; `none` when the fuel of one of them runs out.
  unfoldable pub announce : ℕ → Announced → Option Announced
  announce fuel d =
      elim (JsSet.for_each (λ x. lifecycle_slots event.event_type x.client) call_lifecycle fuel 0
        d) [
          | none ↦ none
          | some d' ↦
              JsSet.for_each (λ x. x.client.session_lifecycle_handlers) call_lifecycle fuel 0 d'
        ]

unfoldable pub handle_session_lifecycle_notification :
    LifecycleListeners → ℕ → Value → Client → Option Announced
unfolding announce
handle_session_lifecycle_notification listeners fuel notification c =
    elim (lifecycle_event notification) [
      | none ↦ some (record { client = c; called = [] })
      | some event ↦ announce listeners event fuel (record { client = c; called = [] })
    ]
