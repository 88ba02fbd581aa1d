-- ===== src/Session/Requests/Disconnecting.antt =====
-- What is left of a session after `disconnect`.
use copilot_sdk_swift.Prelude.{
  ℕ, String, ◌≡◌, refl, true, false, Option, none, some, List, [], ◌∷◌, ◌++◌, arith, Option-cases,
  suc, sym, ap, ◌∙◌, inl, inr, ◌⊎◌,
}
use copilot_sdk_swift.Js.Outcome.{Thrown, Outcome, ok, throw, Outcome-cases}
use copilot_sdk_swift.Rpc.{Request, Peer}
use copilot_sdk_swift.Session.State.{
  Session, SessionEvent, command_execute, permission_requested, elicitation_requested,
}
use copilot_sdk_swift.Session.Subscribe.{typed_slots, set_or_empty}
use copilot_sdk_swift.Session.Broadcast.{Task, handle_broadcast_event, run_command, run_elicitation}
use copilot_sdk_swift.Session.Dispatch.Delivery.{dispatch_event_unheard}
use copilot_sdk_swift.Session.Dispatch.{Listeners, Dispatching, dispatch_event}
use copilot_sdk_swift.Session.Requests.{released, destroy_request, disconnect}
use copilot_sdk_swift.Js.JsMap

-- A `disconnect` that the CLI refuses changes nothing of the session, so that it can be tried again;
-- one that it accepts releases the session.
pub disconnect_cases :
    (peer : Peer) (s : Session) (sent : List Request)
    → ((e : Thrown) × (peer sent (destroy_request s) ≡ throw e)
        × (disconnect peer s sent ≡ (s, throw e, sent ++ destroy_request s ∷ [])))
      ⊎ (disconnect peer s sent ≡ (released s, ok tt, sent ++ destroy_request s ∷ []))
unfolding disconnect
disconnect_cases peer s sent = elim (Outcome-cases (peer sent (destroy_request s))) [
  | inl (v, e) ↦ inr (ground (arith, e))
  | inr (x, e) ↦ inl (x, e, ground (arith, e))
]

disconnect-ok :
    (peer : Peer) (s s' : Session) (sent sent' : List Request)
    → disconnect peer s sent ≡ (s', ok tt, sent')
    → s' ≡ released s
disconnect-ok peer s s' sent sent' h = elim (disconnect_cases peer s sent) [
  | inl (e, _, same) ↦ absurd (cc (same, h))
  | inr same ↦ ap (λ (r : Session × Outcome (Unit {0}) × List Request). r.0) (sym h ∙ same)
]

-- The only methods that an event can still start are those for commands and elicitations.
abbrev pub IsLeftover : Option Task → Type 0
IsLeftover none = Unit {0}
IsLeftover (some (run_command _ _ _)) = Unit {0}
IsLeftover (some (run_elicitation _ _ _)) = Unit {0}
IsLeftover _ = ⊥

leftover :
    (event : SessionEvent) (s : Session) → IsLeftover (handle_broadcast_event event (released s)).1
unfolding handle_broadcast_event released JsMap.get
leftover (permission_requested _ _ true) s = tt
leftover (permission_requested _ _ false) s = tt
leftover (elicitation_requested id m c mode source url) s =
    elim (Option-cases s.elicitation_handler) [
      | inl e ↦ rw (e, IsLeftover) tt
      | inr (h, e) ↦ rw (e, IsLeftover) tt
    ]
leftover _ s = tt

-- After a successful `disconnect` no event calls a listener, a tool or the permission handler.
pub disconnect_silent :
    (peer : Peer) (s s' : Session) (sent sent' : List Request)
    → disconnect peer s sent ≡ (s', ok tt, sent')
    → (listeners : Listeners) (event : SessionEvent) (fuel : ℕ)
    → (d : Dispatching) × (task : Option Task) × (dispatch_event listeners event (suc fuel) s'
        ≡ some (d, task))
      × (d.called ≡ [])
      × IsLeftover task
disconnect_silent peer s s' sent sent' h listeners event fuel =
    rw (disconnect-ok peer s s' sent sent' h) (
      record { session = (handle_broadcast_event event (released s)).0; called = [] },
      (handle_broadcast_event event (released s)).1,
      dispatch_event_unheard listeners event fuel (released s)
          (unfold released typed_slots set_or_empty JsMap.get in refl) (unfold released in refl),
      refl,
      leftover event s,
    )

-- But a command is still run by the handler that was registered for it before: `disconnect` does not
-- clear the command handlers.
pub commands_survive_disconnect :
    (peer : Peer) (s s' : Session) (sent sent' : List Request)
    → disconnect peer s sent ≡ (s', ok tt, sent')
    → (id name command args : String)
    → (handle_broadcast_event (command_execute id name command args) s').1
      ≡ some (
          run_command id (JsMap.get name s.command_handlers) (record {
            session_id = s.session_id;
            command = command;
            command_name = name;
            args = args;
          }))
unfolding handle_broadcast_event
commands_survive_disconnect peer s s' sent sent' h id name command args =
    rw (disconnect-ok peer s s' sent sent' h) (unfold released in refl)
