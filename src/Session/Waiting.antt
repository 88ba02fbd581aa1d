-- ===== src/Session/Waiting.antt =====
-- `sendAndWait` of session.ts as a machine over what happens while it runs: events that its listener
-- sees, the answer to `send`, and the timer. The timer is set once `send` has been answered, and
-- nothing awaits the promise of "session.idle" before that.
pub mod Outcomes
pub mod Cleanup
use copilot_sdk_swift.Prelude.{
  ℕ, String, Bool, true, false, Option, none, some, List, [], ◌∷◌, ◌+++◌,
}
use copilot_sdk_swift.Js.Value.{Value, decimal}
use copilot_sdk_swift.Js.Outcome.{Thrown, error, Outcome, ok, throw}
use copilot_sdk_swift.Session.State.{
  Session, SessionEvent, assistant_message, session_idle, session_error,
}
use copilot_sdk_swift.Session.Subscribe.{on_any, off_any}

-- `idlePromise`; a promise settles once.
pub data IdlePromise : Type 0 where
  pending resolved : IdlePromise
  rejected : Thrown → IdlePromise

pub record Waiting : Type 0 where
  pub idle : IdlePromise
  pub last_assistant_message : Option String

abbrev pub not_yet : Waiting
not_yet = record { idle = pending; last_assistant_message = none }

abbrev settle : IdlePromise → IdlePromise → IdlePromise
settle pending p = p
settle p q = p

-- The listener that `sendAndWait` registers.
unfoldable pub observe : SessionEvent → Waiting → Waiting
observe (assistant_message content) w = record w { last_assistant_message = some content }
observe session_idle w = record w { idle = settle w.idle resolved }
observe (session_error message stack) w = record w {
  idle = settle w.idle (rejected (error message));
}
observe _ w = w

unfoldable pub observe_all : List SessionEvent → Waiting → Waiting
observe_all [] w = w
observe_all (e ∷ es) w = observe_all es (observe e w)

-- What can happen after `send` was answered.
pub data Happening : Type 0 where
  arrives : SessionEvent → Happening
  timer_fires : Happening

abbrev pub timeout_error : ℕ → Thrown
timeout_error ms = error ("Timeout after " +++ decimal ms +++ "ms waiting for session.idle")

abbrev pub default_timeout : ℕ
default_timeout = 60000

abbrev pub effective_timeout : Option ℕ → ℕ
effective_timeout none = default_timeout
effective_timeout (some ms) = ms

abbrev pub settled : Waiting → Option (Outcome (Option String))
settled w = elim w.idle [
  | pending ↦ none
  | resolved ↦ some (ok w.last_assistant_message)
  | rejected e ↦ some (throw e)
]

abbrev pub or_later {ℓ} : {A : Type ℓ} → Option A → Option A → Option A
or_later none later = later
or_later (some a) later = some a

-- `await Promise.race([idlePromise, timeoutPromise])` and the `return` behind it; `none` while
-- neither promise has settled.
unfoldable pub race : ℕ → List Happening → Waiting → Option (Outcome (Option String))
race ms [] w = settled w
race ms (arrives e ∷ hs) w = let later = race ms hs (observe e w) in or_later (settled w) later
race ms (timer_fires ∷ hs) w = or_later (settled w) (some (throw (timeout_error ms)))

abbrev pub is_rejected : IdlePromise → Bool
is_rejected (rejected e) = true
is_rejected _ = false

-- How the call ended. A promise that is rejected while nothing awaits it is an unhandled rejection.
pub record Finished : Type 0 where
  pub outcome : Outcome (Option String)
  pub session : Session
  pub unhandled_rejection : Bool

-- `listener` stands for the function that `sendAndWait` gives to `on`; `before` are the events that
-- arrive until `response`, the answer to `send`; `none` means that the call still waits. Until the
-- call unsubscribes, the session goes on: its own handling of the events, the other listeners, which may
-- subscribe and unsubscribe, and other calls make of it what `during` says.
unfoldable pub send_and_wait :
    (listener : ℕ)
    → (timeout : Option ℕ) → Session
    → (during : Session → Session) → (before : List SessionEvent) → (response : Outcome Value)
    → List Happening
    → Option Finished
send_and_wait listener timeout s during before response happenings =
    let subscribed = on_any listener s in
    let w = observe_all before not_yet in
    let finish : Outcome (Option String) → Finished = λ o. record {
      outcome = o;
      session = off_any listener (during subscribed);
      unhandled_rejection = is_rejected w.idle;
    } in
    elim response [
      | throw e ↦ some (finish (throw e))
      | ok _ ↦ elim (race (effective_timeout timeout) happenings w) [
        | none ↦ none
        | some o ↦ some (finish o)
      ]
    ]
