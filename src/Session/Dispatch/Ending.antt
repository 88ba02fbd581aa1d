-- ===== src/Session/Dispatch/Ending.antt =====
-- A dispatch ends if its listeners only unsubscribe; one that keeps subscribing again never ends.
use copilot_sdk_swift.Prelude.{
  ℕ, zero, suc, ◌≤◌, String, ◌≡◌, refl, ap, inl, inr, List, [], ◌∷◌, ◌++◌, none, some, arith,
  length, get_elem?, same_num, true, false,
}
use copilot_sdk_swift.Js.JsSet
use copilot_sdk_swift.Js.JsSet.Laws.{for_each_total, length-delete}
use copilot_sdk_swift.Js.Outcome.{Outcome-cases}
use copilot_sdk_swift.Session.State.{Session, SessionEvent, event_type}
use copilot_sdk_swift.Session.Subscribe.{typed_slots, on_any, off_typed, off_any}
use copilot_sdk_swift.Session.Subscribe.Laws.{typed_slots-off_typed}
use copilot_sdk_swift.Session.Broadcast.{handle_broadcast_event}
use copilot_sdk_swift.Session.Dispatch.Delivery.{loop-empty}
use copilot_sdk_swift.Session.Dispatch.{
  Subscription, subscribe_typed, unsubscribe_typed, subscribe_any, unsubscribe_any,
  apply_subscription, apply_all, Listeners, Dispatching, call_listener, deliver, dispatch_event,
}

abbrev pub OnlyUnsubscribes : List Subscription → Type 0
OnlyUnsubscribes [] = Unit {0}
OnlyUnsubscribes (subscribe_typed _ _ ∷ ops) = ⊥
OnlyUnsubscribes (subscribe_any _ ∷ ops) = ⊥
OnlyUnsubscribes (_ ∷ ops) = OnlyUnsubscribes ops

-- No more slots than the bound, in either of the sets that the event goes to.
record Fits (t : String) (bound : ℕ) (s : Session) : Type 0 where
  typed : length (typed_slots t s) ≤ bound
  any : length s.event_handlers ≤ bound

event_handlers-off_typed :
    (u : String) (h : ℕ) (s : Session) → (off_typed u h s).event_handlers ≡ s.event_handlers
unfolding off_typed
event_handlers-off_typed u h s = ground arith

module _ (t : String) (bound : ℕ) where
  off_typed-Fits :
      (u : String) (h : ℕ) (s : Session) → Fits t bound s → Fits t bound (off_typed u h s)
  off_typed-Fits u h s f = record {
    typed = rw typed_slots-off_typed (ground (arith, f.typed, length-delete h (typed_slots t s)));
    any = rw event_handlers-off_typed f.any;
  }

  off_any-Fits : (h : ℕ) (s : Session) → Fits t bound s → Fits t bound (off_any h s)
  unfolding off_any typed_slots
  off_any-Fits h s f = record {
    typed = f.typed;
    any = omega (arith, length-delete h s.event_handlers, f.any);
  }

  apply_all-Fits :
      (ops : List Subscription) (s : Session)
      → OnlyUnsubscribes ops
      → Fits t bound s
      → Fits t bound (apply_all ops s)
  unfolding apply_all apply_subscription
  apply_all-Fits [] s only f = f
  apply_all-Fits (subscribe_typed u h ∷ ops) s only f = absurd only
  apply_all-Fits (subscribe_any h ∷ ops) s only f = absurd only
  apply_all-Fits (unsubscribe_typed u h ∷ ops) s only f =
      apply_all-Fits ops (off_typed u h s) only (off_typed-Fits u h s f)
  apply_all-Fits (unsubscribe_any h ∷ ops) s only f =
      apply_all-Fits ops (off_any h s) only (off_any-Fits h s f)

module _ (listeners : Listeners) (event : SessionEvent)
    (only : (h : ℕ) → OnlyUnsubscribes (listeners h event).0) where
  call_listener-Fits :
      (bound : ℕ) (h : ℕ) (d : Dispatching)
      → Fits (event_type event) bound d.session
      → Fits (event_type event) bound (call_listener listeners event h d).session
  unfolding call_listener
  call_listener-Fits bound h d f = elim (Outcome-cases (listeners h event).1) [
    | inl (x, e) ↦ rw (e, call_listener) (apply_all-Fits _ bound (listeners h event).0 _ (only h) f)
    | inr (x, e) ↦ rw (e, call_listener) (apply_all-Fits _ bound (listeners h event).0 _ (only h) f)
  ]

  -- Where listeners do nothing to the subscriptions but take some off, the dispatch of an event ends
  -- with as much fuel as the larger set has slots, and one more.
  pub dispatch_event_total :
      (bound : ℕ) (s : Session)
      → length (typed_slots (event_type event) (handle_broadcast_event event s).0) ≤ bound
      → length (handle_broadcast_event event s).0.event_handlers ≤ bound
      → (d : Dispatching) × (dispatch_event listeners event (suc bound) s
          ≡ some (d, (handle_broadcast_event event s).1))
  unfolding dispatch_event deliver
  dispatch_event_total bound s typed any =
      let t = event_type event in
      let s' = (handle_broadcast_event event s).0 in
      let (d, p, f) =
        for_each_total (λ (x : Dispatching). typed_slots t x.session)
          (call_listener listeners event) (λ x. Fits t bound x.session) bound (λ x g. g.typed)
          (call_listener-Fits bound) (suc bound) 0 (record { session = s'; called = [] })
          (record { typed = typed; any = any }) (omega arith) (omega arith) in
      let (r, q, g) =
        for_each_total (λ (x : Dispatching). x.session.event_handlers)
          (call_listener listeners event) (λ x. Fits t bound x.session) bound (λ x g. g.any)
          (call_listener-Fits bound) (suc bound) 0 d f (omega arith) (omega arith) in
      (r, rw (p, dispatch_event) (rw (q, deliver)))

-- The slots after a listener has replaced itself `n` times.
abbrev worn : ℕ → ℕ → JsSet.JsSet
worn zero h = some h ∷ []
worn (suc n) h = none ∷ worn n h

get_elem?-worn : (n h : ℕ) → get_elem? (worn n h) n ≡ some (some h)
get_elem?-worn zero h = refl
get_elem?-worn (suc n) h = get_elem?-worn n h

same_num_refl : (h : ℕ) → same_num h h ≡ true
same_num_refl h = ground arith

has-delete-worn : (n h : ℕ) → JsSet.has h (JsSet.delete h (worn n h)) ≡ false
unfolding JsSet.has JsSet.delete
has-delete-worn zero h = rw (same_num_refl h)
has-delete-worn (suc n) h = has-delete-worn n h

delete-worn : (n h : ℕ) → JsSet.delete h (worn n h) ++ some h ∷ [] ≡ worn (suc n) h
unfolding JsSet.delete
delete-worn zero h = rw (same_num_refl h)
delete-worn (suc n) h = ap (λ s. none ∷ s) (delete-worn n h)

module _ (listeners : Listeners) (event : SessionEvent) (h : ℕ)
    (again : (listeners h event).0 ≡ unsubscribe_any h ∷ subscribe_any h ∷ []) where
  call_listener-worn :
      (n : ℕ) (d : Dispatching)
      → d.session.event_handlers ≡ worn n h
      → (call_listener listeners event h d).session.event_handlers ≡ worn (suc n) h
  unfolding call_listener apply_all apply_subscription off_any on_any JsSet.add
  call_listener-worn n d e = elim (Outcome-cases (listeners h event).1) [
    | inl (x, o) ↦ rw (o, call_listener) (rw again (rw (e, has-delete-worn n h) (delete-worn n h)))
    | inr (x, o) ↦ rw (o, call_listener) (rw again (rw (e, has-delete-worn n h) (delete-worn n h)))
  ]

  out_of_fuel :
      (f : Dispatching → JsSet.JsSet) (n : ℕ) (d : Dispatching)
      → JsSet.for_each f (call_listener listeners event) 0 n d ≡ none
  unfolding JsSet.for_each
  out_of_fuel f n d = refl

  loop-worn :
      (fuel n : ℕ) (d : Dispatching)
      → d.session.event_handlers ≡ worn n h
      → JsSet.for_each (λ x. x.session.event_handlers) (call_listener listeners event) fuel n d
        ≡ none
  unfolding JsSet.for_each
  loop-worn zero n d e = refl
  loop-worn (suc fuel) n d e =
      let here : get_elem? d.session.event_handlers n ≡ some (some h) = rw e (get_elem?-worn n h) in
      rw (here, JsSet.for_each)
        (loop-worn fuel (suc n) (call_listener listeners event h d) (call_listener-worn n d e))

  -- A listener of all events that takes itself off and subscribes again, whenever it is called, is
  -- called again and again: the dispatch does not end, however much fuel it is given.
  pub dispatch_event_resubscribing :
      (fuel : ℕ) (s : Session)
      → typed_slots (event_type event) (handle_broadcast_event event s).0 ≡ []
      → (handle_broadcast_event event s).0.event_handlers ≡ some h ∷ []
      → dispatch_event listeners event fuel s ≡ none
  unfolding dispatch_event deliver
  dispatch_event_resubscribing zero s typed any = rw (
    out_of_fuel (λ x. typed_slots (event_type event) x.session) 0
        (record { session = (handle_broadcast_event event s).0; called = [] }),
    dispatch_event,
  )
  dispatch_event_resubscribing (suc fuel) s typed any =
      let d : Dispatching = record { session = (handle_broadcast_event event s).0; called = [] } in
      rw
        (
          loop-empty listeners event (λ x. typed_slots (event_type event) x.session) fuel d typed,
          dispatch_event,
        )
        (rw (loop-worn (suc fuel) 0 d any, deliver))
