-- ===== src/Client/Incoming/Routing.antt =====
-- Which session a notification or request of the CLI reaches.
use copilot_sdk_swift.Prelude.{
  ℕ, String, Bool, true, false, ap, Bool-cases, Option-cases, ◌≡◌, refl, ◌⊎◌, inl, inr, Option,
  none, some, ◌==◌, if◌then◌else◌, arith,
}
use copilot_sdk_swift.Js.Value.{
  Value, undefined, null, bool, num, str, arr, obj, func, Fields, lookup, has,
}
use copilot_sdk_swift.Session.Tasks.{is_text}
use copilot_sdk_swift.Js.Outcome.{Thrown, Outcome, ok, throw}
use copilot_sdk_swift.Js.JsMap
use copilot_sdk_swift.Js.JsMap.{JsMap, get-set}
use copilot_sdk_swift.Session.State.{Session, SessionEvent, HookHandler}
use copilot_sdk_swift.Session.Broadcast.{Task}
use copilot_sdk_swift.Session.Dispatch.{Listeners, Dispatching, dispatch_event}
use copilot_sdk_swift.Client.State.{Client}
use copilot_sdk_swift.Client.Incoming.{
  text_param, addressed, Notified, ignored, with_session, handle_session_event_notification,
  handle_user_input_request, handle_hooks_invoke, handle_system_message_transform,
  handle_tool_call_request_v2, handle_permission_request_v2,
}

abbrev is_object : Value → Bool
is_object (obj fs) = true
is_object _ = false

-- The four ways in which a notification is not about a session of the client.
pub data IsIgnored (c : Client) : Value → Type 0 where
  no_object : {v : Value} → is_object v ≡ false → IsIgnored c v
  no_id : {fs : Fields} → is_text (lookup "sessionId" fs) ≡ false → IsIgnored c (obj fs)
  no_event : {fs : Fields} → has "event" fs ≡ false → IsIgnored c (obj fs)
  no_session :
      {fs : Fields} (id : String)
      → lookup "sessionId" fs ≡ str id
      → JsMap.get id c.sessions ≡ none
      → IsIgnored c (obj fs)

-- A notification with an event for a session.
pub record IsFor (c : Client) (notification : Value) (id : String) (s : Session) (event : Value)
    : Type 0 where
  pub fields : Fields
  pub object : notification ≡ obj fields
  pub named : lookup "sessionId" fields ≡ str id
  pub has_event : has "event" fields ≡ true
  pub event_of : lookup "event" fields ≡ event
  pub known : JsMap.get id c.sessions ≡ some s

-- What the dispatch of an event in one session leaves: the other sessions and the rest of the client are
-- as before.
pub record IsDelivered (c : Client) (id : String) (d : Dispatching) (task : Option Task)
    (r : Notified) : Type 0 where
  pub sessions :
      (j : String)
      → JsMap.get j r.client.sessions ≡ (if id == j then some d.session else JsMap.get j c.sessions)
  pub rest : record r.client { sessions = c.sessions } ≡ c
  pub called : r.called ≡ d.called
  pub task_of : r.task ≡ task

module _ (as_event : Value → SessionEvent) (listeners : Listeners) (fuel : ℕ) (c : Client) where
  pub data IsRouted (notification : Value) (result : Option Notified) : Type 0 where
    ignores : IsIgnored c notification → result ≡ some (ignored c) → IsRouted notification result
    delivers :
        (id : String) (s : Session) (event : Value) (d : Dispatching) (task : Option Task)
        (r : Notified)
        → IsFor c notification id s event
        → dispatch_event listeners (as_event event) fuel s ≡ some (d, task)
        → result ≡ some r
        → IsDelivered c id d task r
        → IsRouted notification result
    goes_on :
        (id : String) (s : Session) (event : Value)
        → IsFor c notification id s event
        → dispatch_event listeners (as_event event) fuel s ≡ none
        → result ≡ none
        → IsRouted notification result

  abbrev handled : Value → Option Notified
  handled notification = handle_session_event_notification as_event listeners fuel notification c

  routes_session :
      (fs : Fields) (id : String) (s : Session)
      → lookup "sessionId" fs ≡ str id
      → has "event" fs ≡ true
      → JsMap.get id c.sessions ≡ some s
      → IsRouted (obj fs) (handled (obj fs))
  unfolding handle_session_event_notification addressed
  routes_session fs id s n e g =
      let event = lookup "event" fs in
      let found : IsFor c (obj fs) id s event = record {
        fields = fs;
        object = refl;
        named = n;
        has_event = e;
        event_of = refl;
        known = g;
      } in
      elim (Option-cases (dispatch_event listeners (as_event event) fuel s)) [
        | inl d ↦ goes_on id s event found d (ground (arith, n, e, g, d))
        | inr ((d, task), h) ↦
            delivers id s event d task
              (record { client = with_session id d.session c; called = d.called; task = task })
              found h (ground (arith, n, e, g, h))
              (record {
                sessions = λ j. get-set id j d.session c.sessions;
                rest = refl;
                called = refl;
                task_of = refl;
              })
      ]

  routes_fields :
      (fs : Fields) (v : Value) → lookup "sessionId" fs ≡ v → IsRouted (obj fs) (handled (obj fs))
  unfolding handle_session_event_notification addressed
  routes_fields fs (str id) n = elim (Bool-cases (has "event" fs)) [
    | inr e ↦ ignores (no_event e) (ground (arith, n, e))
    | inl e ↦ elim (Option-cases (JsMap.get id c.sessions)) [
      | inl g ↦ ignores (no_session id n g) (ground (arith, n, e, g))
      | inr (s, g) ↦ routes_session fs id s n e g
    ]
  ]
  routes_fields fs undefined n = ignores (no_id (ap is_text n)) (ground (arith, n))
  routes_fields fs null n = ignores (no_id (ap is_text n)) (ground (arith, n))
  routes_fields fs (bool b) n = ignores (no_id (ap is_text n)) (ground (arith, n))
  routes_fields fs (num m) n = ignores (no_id (ap is_text n)) (ground (arith, n))
  routes_fields fs (arr xs) n = ignores (no_id (ap is_text n)) (ground (arith, n))
  routes_fields fs (obj gs) n = ignores (no_id (ap is_text n)) (ground (arith, n))
  routes_fields fs (func t) n = ignores (no_id (ap is_text n)) (ground (arith, n))

  -- Every notification is ignored, or is dispatched. It is ignored, with nothing changed and nobody called,
  -- only if it is no object, has no text as its session id, has no event, or names no session of the client.
  -- Otherwise its event is dispatched in the session that it names, and no other session and nothing else
  -- of the client changes; the handler ends exactly if the dispatch does.
  pub handle_session_event_notification_routes :
      (notification : Value)
      → IsRouted notification
          (handle_session_event_notification as_event listeners fuel notification c)
  unfolding handle_session_event_notification addressed
  handle_session_event_notification_routes (obj fs) = routes_fields fs (lookup "sessionId" fs) refl
  handle_session_event_notification_routes undefined = ignores (no_object refl) refl
  handle_session_event_notification_routes null = ignores (no_object refl) refl
  handle_session_event_notification_routes (bool b) = ignores (no_object refl) refl
  handle_session_event_notification_routes (num n) = ignores (no_object refl) refl
  handle_session_event_notification_routes (str t) = ignores (no_object refl) refl
  handle_session_event_notification_routes (arr xs) = ignores (no_object refl) refl
  handle_session_event_notification_routes (func t) = ignores (no_object refl) refl

-- A request that the client refuses.
abbrev pub IsRefused {ℓ} : {A : Type ℓ} → Outcome A → Type ℓ
IsRefused {A = A} o = (e : Thrown) × (o ≡ throw e)

refused {ℓ} : {A : Type ℓ} (o : Outcome A) → ((v : A) → o ≡ ok v → ⊥) → IsRefused o
refused (ok v) h = absurd (h v refl)
refused (throw e) h = (e, refl)

-- Each of the five requests is refused, before any handler is called, if it names no session of the
-- client.
pub unknown_session-IsRefused :
    (params : Value) (sections : Option (JsMap String)) (inherited : String → Option HookHandler)
    (c : Client)
    → (text_param "sessionId" params ≡ none)
      ⊎ ((id : String) × (text_param "sessionId" params ≡ some id)
          × (JsMap.get id c.sessions ≡ none))
    → IsRefused (handle_user_input_request params c)
      × IsRefused (handle_hooks_invoke inherited params c)
      × IsRefused (handle_system_message_transform params sections c)
      × IsRefused (handle_tool_call_request_v2 params c)
      × IsRefused (handle_permission_request_v2 params c)
unfolding handle_user_input_request handle_hooks_invoke handle_system_message_transform
    handle_tool_call_request_v2 handle_permission_request_v2
unknown_session-IsRefused params sections inherited c (inl t) = (
  refused _ (λ v e. ground (arith, t, e)),
  refused _ (λ v e. ground (arith, t, e)),
  refused _ (λ v e. ground (arith, t, e)),
  refused _ (λ v e. ground (arith, t, e)),
  refused _ (λ v e. ground (arith, t, e)),
)
unknown_session-IsRefused params sections inherited c (inr (id, t, g)) = (
  refused _ (λ v e. ground (arith, t, g, e)),
  refused _ (λ v e. ground (arith, t, g, e)),
  refused _ (λ v e. ground (arith, t, g, e)),
  refused _ (λ v e. ground (arith, t, g, e)),
  refused _ (λ v e. ground (arith, t, g, e)),
)
