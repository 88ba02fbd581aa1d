-- ===== src/Session/Waiting/Outcomes.antt =====
-- How `sendAndWait` of session.ts ends.
use copilot_sdk_swift.Prelude.{
  ℕ, String, ◌≡◌, refl, false, Option, none, some, List, [], ◌∷◌, ◌++◌, arith, map, ◌∙◌, ap, All,
}
use copilot_sdk_swift.Js.Value.{Value}
use copilot_sdk_swift.Js.Outcome.{error, Outcome, ok, throw}
use copilot_sdk_swift.Session.State.{
  Session, SessionEvent, assistant_message, session_idle, session_error,
}
use copilot_sdk_swift.Session.Subscribe.{on_any, off_any}
use copilot_sdk_swift.Session.Waiting.{
  pending, Waiting, not_yet, observe, observe_all, Happening, arrives, timer_fires, settled,
  or_later, timeout_error, effective_timeout, race, Finished, send_and_wait,
}

-- An event that does not end the wait.
abbrev pub IsQuiet : SessionEvent → Type 0
IsQuiet session_idle = ⊥
IsQuiet (session_error _ _) = ⊥
IsQuiet _ = Unit {0}

-- The content of the last assistant message of a list of events, `default` if there is none.
unfoldable pub last_message : Option String → List SessionEvent → Option String
last_message default [] = default
last_message default (assistant_message content ∷ es) = last_message (some content) es
last_message default (_ ∷ es) = last_message default es

observe_quiet : (e : SessionEvent) (w : Waiting) → IsQuiet e → (observe e w).idle ≡ w.idle
unfolding observe
observe_quiet session_idle w q = absurd q
observe_quiet (session_error _ _) w q = absurd q
observe_quiet _ w q = refl

observe_all-last :
    (es : List SessionEvent) (w : Waiting)
    → (observe_all es w).last_assistant_message ≡ last_message w.last_assistant_message es
unfolding observe_all observe last_message
observe_all-last [] w = refl
observe_all-last (assistant_message c ∷ es) w = observe_all-last es _
observe_all-last (session_idle ∷ es) w = observe_all-last es _
observe_all-last (session_error m st ∷ es) w = observe_all-last es _
observe_all-last (_ ∷ es) w = observe_all-last es _

pub observe_all-quiet :
    (es : List SessionEvent) (w : Waiting) → All IsQuiet es → (observe_all es w).idle ≡ w.idle
unfolding observe_all
observe_all-quiet [] w q = refl
observe_all-quiet (e ∷ es) w q = observe_all-quiet es (observe e w) q.1 ∙ observe_quiet e w q.0

or_later-none :
    (w : Waiting) (later : Option (Outcome (Option String)))
    → w.idle ≡ pending
    → or_later (settled w) later ≡ later
or_later-none w later p = ground (arith, p)

-- Quiet events only feed the listener.
race-quiet :
    (ms : ℕ) (es : List SessionEvent) (hs : List Happening) (w : Waiting)
    → w.idle ≡ pending
    → All IsQuiet es
    → race ms (map arrives es ++ hs) w ≡ race ms hs (observe_all es w)
unfolding race observe_all
race-quiet ms [] hs w p q = refl
race-quiet ms (e ∷ es) hs w p q =
    let p' = observe_quiet e w q.0 ∙ p in
    or_later-none w _ p ∙ race-quiet ms es hs (observe e w) p' q.1

race-settled :
    (ms : ℕ) (hs : List Happening) (w : Waiting) (o : Outcome (Option String))
    → settled w ≡ some o
    → race ms hs w ≡ some o
unfolding race
race-settled ms [] w o h = h
race-settled ms (arrives e ∷ hs) w o h = rw (h, or_later)
race-settled ms (timer_fires ∷ hs) w o h = rw (h, or_later)

race-ends :
    (ms : ℕ) (e : SessionEvent) (hs : List Happening) (w : Waiting) (o : Outcome (Option String))
    → w.idle ≡ pending
    → settled (observe e w) ≡ some o
    → race ms (arrives e ∷ hs) w ≡ some o
unfolding race
race-ends ms e hs w o p h = or_later-none w _ p ∙ race-settled ms hs (observe e w) o h

last_message-append :
    (m : Option String) (es fs : List SessionEvent)
    → last_message (last_message m es) fs ≡ last_message m (es ++ fs)
unfolding last_message
last_message-append m [] fs = refl
last_message-append m (assistant_message c ∷ es) fs = last_message-append (some c) es fs
last_message-append m (_ ∷ es) fs = last_message-append m es fs

module _ (listener : ℕ) (timeout : Option ℕ) (s : Session) (during : Session → Session)
    (reply : Value) where
  abbrev pub finished : Outcome (Option String) → Finished
  finished o = record {
    outcome = o;
    session = off_any listener (during (on_any listener s));
    unhandled_rejection = false;
  }

  -- The events until an end, before and after the answer to `send`.
  module _ (before es : List SessionEvent) (qb : All IsQuiet before) (qe : All IsQuiet es) where
    abbrev so_far : Waiting
    so_far = observe_all es (observe_all before not_yet)

    idle_before : (observe_all before not_yet).idle ≡ pending
    idle_before = observe_all-quiet before not_yet qb

    idle_so_far : so_far.idle ≡ pending
    idle_so_far = observe_all-quiet es (observe_all before not_yet) qe ∙ idle_before

    last_so_far : so_far.last_assistant_message ≡ last_message none (before ++ es)
    last_so_far =
        observe_all-last es (observe_all before not_yet)
        ∙ ap (λ m. last_message m es) (observe_all-last before not_yet)
        ∙ last_message-append none before es

    finish :
        (hs : List Happening) (o : Outcome (Option String))
        → race (effective_timeout timeout) hs so_far ≡ some o
        → send_and_wait listener timeout s during before (ok reply) (map arrives es ++ hs)
          ≡ some (finished o)
    unfolding send_and_wait
    finish hs o h =
        let later =
          race-quiet (effective_timeout timeout) es hs (observe_all before not_yet) idle_before qe
          ∙ h in
        ground (arith, later, idle_before)

    -- If nothing that came so far has ended the wait, the call resolves at "session.idle" with the
    -- last assistant message, whether that came before or after the answer to `send`.
    pub send_and_wait-idle :
        (hs : List Happening)
        → send_and_wait listener timeout s during before
            (ok reply)
            (map arrives es ++ arrives session_idle ∷ hs)
          ≡ some (finished (ok (last_message none (before ++ es))))
    unfolding observe
    send_and_wait-idle hs = finish (arrives session_idle ∷ hs) _ (
        race-ends _ session_idle hs so_far _ idle_so_far (ground (arith, idle_so_far, last_so_far)))

    -- Likewise it rejects at "session.error", with the message of the event.
    pub send_and_wait-error :
        (message stack : String) (hs : List Happening)
        → send_and_wait listener timeout s during before
            (ok reply)
            (map arrives es ++ arrives (session_error message stack) ∷ hs)
          ≡ some (finished (throw (error message)))
    unfolding observe
    send_and_wait-error message stack hs = finish (arrives (session_error message stack) ∷ hs) _ (
        race-ends _ (session_error message stack) hs so_far _ idle_so_far
          (ground (arith, idle_so_far)))

    -- Likewise it rejects when the timer fires; and it waits as long as none of the three happens.
    pub send_and_wait-timeout :
        (hs : List Happening)
        → (send_and_wait listener timeout s during before
              (ok reply)
              (map arrives es ++ timer_fires ∷ hs)
            ≡ some (finished (throw (timeout_error (effective_timeout timeout)))))
          × (send_and_wait listener timeout s during before (ok reply) (map arrives es ++ [])
              ≡ none)
    unfolding race send_and_wait
    send_and_wait-timeout hs =
        let later =
          race-quiet (effective_timeout timeout) es [] (observe_all before not_yet) idle_before
            qe in
        (
          finish (timer_fires ∷ hs) _ (or_later-none so_far _ idle_so_far),
          ground (arith, later, idle_so_far),
        )
