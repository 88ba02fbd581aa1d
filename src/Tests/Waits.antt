-- ===== src/Tests/Waits.antt =====
-- Runs of the theorems about the dispatch of events, `sendAndWait` and `disconnect`.
use copilot_sdk_swift.Prelude.{
  ◌≡◌, refl, true, ◌&&◌, not, Option, none, some, [], ◌∷◌, same_num, arith, if◌then◌else◌,
}
use copilot_sdk_swift.Js.Value.{undefined}
use copilot_sdk_swift.Js.Outcome.{error, ok, throw}
use copilot_sdk_swift.Js.JsMap
use copilot_sdk_swift.Js.JsSet
use copilot_sdk_swift.Js.JsSet.{members}
use copilot_sdk_swift.Session.State.{
  Session, session_idle, session_error, assistant_message, command_execute, event_type,
}
use copilot_sdk_swift.Session.Subscribe.{on_any, off_any, typed_slots, set_or_empty}
use copilot_sdk_swift.Session.Broadcast.{Task, run_command, handle_broadcast_event}
use copilot_sdk_swift.Session.Dispatch.{
  Listeners, Dispatching, dispatch_event, subscribe_any, unsubscribe_any,
}
use copilot_sdk_swift.Session.Dispatch.Delivery.{dispatch_event_passive}
use copilot_sdk_swift.Session.Dispatch.Ending.{dispatch_event_total}
use copilot_sdk_swift.Session.Requests.{destroy_request, released, disconnect}
use copilot_sdk_swift.Session.Requests.Disconnecting.{
  IsLeftover, disconnect_silent, commands_survive_disconnect,
}
use copilot_sdk_swift.Session.Waiting.{arrives, send_and_wait, Finished, observe_all, observe}
use copilot_sdk_swift.Session.Waiting.Outcomes.{last_message, send_and_wait-idle, finished}
use copilot_sdk_swift.Session.Waiting.Cleanup.{
  send_and_wait-unsubscribes, send_and_wait-unhandled_rejection,
}
use copilot_sdk_swift.Tests.Fixtures.{accepting, plain, approving, heard}

-- Listener 1 throws, and none changes the subscriptions.
abbrev grumbling : Listeners
grumbling h event = ([], if same_num h 1 then throw (error "boom") else ok tt)

abbrev eager : Listeners
eager h event = (unsubscribe_any h ∷ subscribe_any h ∷ [], ok tt)

dispatch_event_passive_example :
    dispatch_event grumbling session_idle 9 heard
    ≡ some (record { session = heard; called = 3 ∷ 1 ∷ 2 ∷ [] }, none)
unfolding handle_broadcast_event event_type typed_slots set_or_empty JsMap.get members
dispatch_event_passive_example =
    dispatch_event_passive grumbling session_idle (λ h. refl) 9 heard (omega arith) (omega arith)

dispatch_event_total_example :
    (d : Dispatching) × (dispatch_event grumbling session_idle 4 heard ≡ some (d, none))
unfolding handle_broadcast_event event_type typed_slots set_or_empty JsMap.get
dispatch_event_total_example =
    dispatch_event_total grumbling session_idle (λ h. tt) 3 heard (omega arith) (omega arith)

disconnect_silent_example :
    (d : Dispatching) × (task : Option Task) × (dispatch_event grumbling session_idle 1
        (released heard)
      ≡ some (d, task))
    × (d.called ≡ [])
    × IsLeftover task
unfolding disconnect
disconnect_silent_example =
    disconnect_silent accepting heard (released heard) [] (destroy_request heard ∷ []) refl
      grumbling session_idle 0

commands_survive_disconnect_example :
    (handle_broadcast_event (command_execute "r" "go" "/go" "") (released approving)).1
    ≡ some (
        run_command "r"
          (JsMap.get "go" approving.command_handlers)
          (record { session_id = "s"; command = "/go"; command_name = "go"; args = "" }))
unfolding disconnect
commands_survive_disconnect_example =
    commands_survive_disconnect accepting approving (released approving) []
      (destroy_request approving ∷ []) refl "r" "go" "/go" ""

send_and_wait-idle_example :
    send_and_wait 9 none plain
      (λ s. s)
      (assistant_message "a" ∷ [])
      (ok undefined)
      (arrives (assistant_message "b") ∷ arrives session_idle ∷ [])
    ≡ some (finished 9 none plain (λ s. s) undefined (ok (some "b")))
unfolding last_message
send_and_wait-idle_example =
    send_and_wait-idle 9 none plain (λ s. s) undefined (assistant_message "a" ∷ [])
      (assistant_message "b" ∷ []) (tt, tt) (tt, tt) []

-- While the call waits, another listener is subscribed.
abbrev crowd : Session → Session
crowd s = on_any 8 s

abbrev ended : Finished
ended = record {
  outcome = throw (error "refused");
  session = off_any 9 (crowd (on_any 9 plain));
  unhandled_rejection = true;
}

send_and_wait-unsubscribes_example :
    JsSet.has 9 ended.session.event_handlers
    ≡ (JsSet.has 9 (crowd (on_any 9 plain)).event_handlers && not (same_num 9 9))
unfolding send_and_wait
send_and_wait-unsubscribes_example =
    send_and_wait-unsubscribes 9 none plain crowd (session_error "bad" "" ∷ [])
      (throw (error "refused")) [] ended (unfold observe_all observe in refl) 9

send_and_wait-unhandled_rejection_example : ended.unhandled_rejection ≡ true
unfolding send_and_wait
send_and_wait-unhandled_rejection_example =
    send_and_wait-unhandled_rejection 9 none plain crowd [] [] "bad" "" (throw (error "refused")) []
      ended tt (unfold observe_all observe in refl)
