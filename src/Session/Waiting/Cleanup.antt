-- ===== src/Session/Waiting/Cleanup.antt =====
-- What `sendAndWait` of session.ts leaves behind.
use copilot_sdk_swift.Prelude.{
  ℕ, String, ◌≡◌, refl, true, ◌&&◌, not, Option, some, List, [], ◌∷◌, ◌++◌, arith, ◌∙◌, ap,
  same_num, All, Option-cases, inl, inr,
}
use copilot_sdk_swift.Js.Value.{Value}
use copilot_sdk_swift.Js.JsSet
use copilot_sdk_swift.Js.Outcome.{Thrown, error, Outcome, ok, throw}
use copilot_sdk_swift.Session.State.{Session, SessionEvent, session_idle, session_error}
use copilot_sdk_swift.Session.Subscribe.{on_any, off_any}
use copilot_sdk_swift.Session.Subscribe.Laws.{has-on_any-off_any}
use copilot_sdk_swift.Session.Waiting.{
  rejected, Waiting, not_yet, observe, observe_all, Happening, effective_timeout, race, is_rejected,
  Finished, send_and_wait,
}
use copilot_sdk_swift.Session.Waiting.Outcomes.{IsQuiet, observe_all-quiet}

module _ (listener : ℕ) (timeout : Option ℕ) (s : Session) (during : Session → Session)
    (before : List SessionEvent) (response : Outcome Value) (hs : List Happening) (f : Finished)
    (ended : send_and_wait listener timeout s during before response hs ≡ some f) where
  finished_parts :
      (f.session ≡ off_any listener (during (on_any listener s)))
      × (f.unhandled_rejection ≡ is_rejected (observe_all before not_yet).idle)
  finished_parts = parts response ended
    where
      parts :
          (r : Outcome Value)
          → send_and_wait listener timeout s during before r hs ≡ some f
          → (f.session ≡ off_any listener (during (on_any listener s)))
            × (f.unhandled_rejection ≡ is_rejected (observe_all before not_yet).idle)
      parts (throw e) h = unfold send_and_wait in (ground (arith, h), ground (arith, h))
      parts (ok v) h =
          unfold send_and_wait in
          elim (Option-cases (race (effective_timeout timeout) hs (observe_all before not_yet))) [
            | inl e ↦ absurd (ground (arith, e, h))
            | inr (o, e) ↦ (ground (arith, e, h), ground (arith, e, h))
          ]

  -- Whenever the call has ended, its own listener is off the session, whatever the events of the wait and
  -- other calls made of the session meanwhile, and every other listener of all events is on it exactly if
  -- that left it on.
  pub send_and_wait-unsubscribes :
      (j : ℕ)
      → JsSet.has j f.session.event_handlers
        ≡ (JsSet.has j (during (on_any listener s)).event_handlers && not (same_num listener j))
  send_and_wait-unsubscribes j =
      rw finished_parts.0
        ((has-on_any-off_any listener j (during (on_any listener s))).1 ∙ ground arith)

observe_all-append :
    (es fs : List SessionEvent) (w : Waiting)
    → observe_all (es ++ fs) w ≡ observe_all fs (observe_all es w)
unfolding observe_all
observe_all-append [] fs w = refl
observe_all-append (e ∷ es) fs w = observe_all-append es fs (observe e w)

observe_rejected :
    (x : SessionEvent) (w : Waiting) (e : Thrown)
    → w.idle ≡ rejected e
    → (observe x w).idle ≡ rejected e
unfolding observe
observe_rejected session_idle w e h = ground (arith, h)
observe_rejected (session_error m st) w e h = ground (arith, h)
observe_rejected _ w e h = h

rejected_stays :
    (es : List SessionEvent) (w : Waiting) (e : Thrown)
    → w.idle ≡ rejected e
    → (observe_all es w).idle ≡ rejected e
unfolding observe_all
rejected_stays [] w e h = h
rejected_stays (x ∷ es) w e h = rejected_stays es (observe x w) e (observe_rejected x w e h)

-- A "session.error" that arrives before `send` is answered, with no "session.idle" before it, leaves a
-- rejected promise that nothing awaits: an unhandled rejection, however the call ends.
pub send_and_wait-unhandled_rejection :
    (listener : ℕ) (timeout : Option ℕ) (s : Session) (during : Session → Session)
    (quiet rest : List SessionEvent) (message stack : String) (response : Outcome Value)
    (hs : List Happening) (f : Finished)
    → All IsQuiet quiet
    → send_and_wait listener timeout s during
        (quiet ++ session_error message stack ∷ rest)
        response
        hs
      ≡ some f
    → f.unhandled_rejection ≡ true
send_and_wait-unhandled_rejection listener timeout s during quiet rest message stack response hs f q
      h =
    let w = observe_all quiet not_yet in
    let e : Thrown = error message in
    let first : (observe (session_error message stack) w).idle ≡ rejected e =
      (unfold observe in ground (arith, observe_all-quiet quiet not_yet q)) in
    let last : (observe_all (quiet ++ session_error message stack ∷ rest) not_yet).idle
        ≡ rejected e =
      rw observe_all-append (unfold observe_all in rejected_stays rest _ e first) in
    (finished_parts listener timeout s during _ response hs f h).1 ∙ ap is_rejected last
