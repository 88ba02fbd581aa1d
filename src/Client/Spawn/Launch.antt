-- ===== src/Client/Spawn/Launch.antt =====
-- What `startCLIServer` promises as a whole, and the environment it gives to the process.
use copilot_sdk_swift.Prelude.{
  ℕ, String, ◌≡◌, refl, ap, ◌∙◌, sym, Bool, false, Option, none, some, List, ◌∷◌, ◌++◌, arith, inl,
  inr, Option-cases, Bool-cases, ◌==◌, ◌⊎◌,
}
use copilot_sdk_swift.Js.Outcome.{Thrown, Outcome, ok}
use copilot_sdk_swift.Client.Start.{ServerStart}
use copilot_sdk_swift.Client.Command.{SpawnOptions}
use copilot_sdk_swift.Client.Spawn.{
  ProcessEvent, timer_fires, Starting, observe_process, observe_processes, spawned_process,
  settled_start, of_settled, launch, no_cli_path, cli_not_found, not_spawned,
}
use copilot_sdk_swift.Client.Spawn.Settled.{
  observe_processes-SameEnd, observe_processes-++, timer_fires-settled, ported, announced,
  observe_processes-ported,
}
use copilot_sdk_swift.Client.Spawn.Printed.{Announces, stdout_of, observe_processes-IsPrinted}
use copilot_sdk_swift.Client.Options.{chars}

-- The end of a call, as far as the events decide it.
settled_start-some :
    (s : Starting) (o : Outcome (Unit {0}))
    → s.settled ≡ some o
    → (w : ServerStart) × (settled_start s ≡ some w)
      × (w.settled ≡ o)
      × (w.announced_port ≡ s.announced_port)
settled_start-some s o h = (_, ap (of_settled s) h, refl, refl)

-- What an answer of `launch` is made of.
record IsEnd (s : Starting) (w : ServerStart) : Type 0 where
  settled_of : s.settled ≡ some w.settled
  port_of : w.announced_port ≡ s.announced_port

abbrev from_some {ℓ} : {A : Type ℓ} → A → Option A → A
from_some a none = a
from_some a (some x) = x

some-injective {ℓ} : {A : Type ℓ} (a b : A) → some a ≡ some b → a ≡ b
some-injective a b h = ap (from_some a) h

settled_start-IsEnd : (s : Starting) (w : ServerStart) → settled_start s ≡ some w → IsEnd s w
settled_start-IsEnd s w h = elim (Option-cases s.settled) [
  | inl e ↦ absurd (ground (arith, sym (ap (of_settled s) e) ∙ h))
  | inr (o, e) ↦
      let (v, start_v, settled_v, port_v) = settled_start-some s o e in
      let same = some-injective v w (sym start_v ∙ h) in
      record {
        settled_of = e ∙ ap some (sym settled_v ∙ ap (λ (u : ServerStart). u.settled) same);
        port_of = sym (ap (λ (u : ServerStart). u.announced_port) same) ∙ port_v;
      }
]

abbrev start_of : SpawnOptions → List ProcessEvent → Starting
start_of o es = observe_processes o.use_stdio es (spawned_process o.use_stdio)

-- The call throws before it spawns a process, or it waits for one.
launch-cases :
    (o : SpawnOptions) (exists : String → Bool)
    → ((e : Thrown) × ((es : List ProcessEvent) → launch o exists es ≡ some (not_spawned e)))
      ⊎ ((es : List ProcessEvent) → launch o exists es ≡ settled_start (start_of o es))
unfolding launch
launch-cases o exists = elim (Option-cases o.cli_path) [
  | inl e ↦ inl (no_cli_path, λ es. ground (arith, e))
  | inr (p, e) ↦ elim (Bool-cases (p == "")) [
    | inl empty ↦ inl (no_cli_path, λ es. rw (e, empty) refl)
    | inr full ↦ elim (Bool-cases (exists p)) [
      | inl there ↦ inr (λ es. rw (e, full, there) refl)
      | inr gone ↦ inl (cli_not_found p, λ es. rw (e, full, gone) refl)
    ]
  ]
]

-- Once the timer has fired, the call has settled, whatever the process did before and does after.
pub launch-settles :
    (o : SpawnOptions) (exists : String → Bool) (before after : List ProcessEvent)
    → (w : ServerStart) × (launch o exists (before ++ timer_fires ∷ after) ≡ some w)
unfolding observe_processes
launch-settles o exists before after = elim (launch-cases o exists) [
  | inl (e, h) ↦ (not_spawned e, h (before ++ timer_fires ∷ after))
  | inr h ↦
      let s = start_of o before in
      let (r, timed) = timer_fires-settled o.use_stdio s in
      let t = observe_process o.use_stdio timer_fires s in
      let kept = observe_processes-SameEnd o.use_stdio after t r timed in
      let (w, started, _, _) =
        settled_start-some (observe_processes o.use_stdio after t) r (kept.settled ∙ timed) in
      (
        w,
        h (before ++ timer_fires ∷ after)
            ∙ ap settled_start (
                observe_processes-++ o.use_stdio before (timer_fires ∷ after)
                  (spawned_process o.use_stdio))
            ∙ started,
      )
]

-- What the call ended with, and the port, stay, whatever the process does later.
pub launch-once :
    (o : SpawnOptions) (exists : String → Bool) (es later : List ProcessEvent) (w : ServerStart)
    → launch o exists es ≡ some w
    → (v : ServerStart) × (launch o exists (es ++ later) ≡ some v)
      × (v.settled ≡ w.settled)
      × (v.announced_port ≡ w.announced_port)
launch-once o exists es later w launched = elim (launch-cases o exists) [
  | inl (e, h) ↦ (w, h (es ++ later) ∙ sym (h es) ∙ launched, refl, refl)
  | inr h ↦
      let s = start_of o es in
      let end = settled_start-IsEnd s w (sym (h es) ∙ launched) in
      let kept = observe_processes-SameEnd o.use_stdio later s w.settled end.settled_of in
      let (v, started, settled_v, port_v) =
        settled_start-some (observe_processes o.use_stdio later s) w.settled
          (kept.settled ∙ end.settled_of) in
      (
        v,
        h (es ++ later)
            ∙ ap settled_start
                (observe_processes-++ o.use_stdio es later (spawned_process o.use_stdio))
            ∙ started,
        settled_v,
        port_v ∙ kept.port ∙ sym end.port_of,
      )
]

-- Over TCP, a call that is fulfilled leaves the port that the process announced: some of the events are
-- such that the port stands in what was printed by then, right behind the phrase.
pub launch-Announces :
    (o : SpawnOptions) (exists : String → Bool) (es : List ProcessEvent) (w : ServerStart)
    → o.use_stdio ≡ false
    → launch o exists es ≡ some w
    → w.settled ≡ ok tt
    → (p : ℕ) × (w.announced_port ≡ some p)
      × (seen : List ProcessEvent) × (later : List ProcessEvent) × (es ≡ seen ++ later)
      × Announces (chars (stdout_of "" seen)) p
launch-Announces o exists es w tcp launched up = elim (launch-cases o exists) [
  | inl (e, h) ↦ absurd (
      ground (
        arith,
        ap (λ (u : ServerStart). u.settled)
            (some-injective (not_spawned e) w (sym (h es) ∙ launched)),
        up,
      ))
  | inr h ↦
      let s = start_of o es in
      let end = settled_start-IsEnd s w (sym (h es) ∙ launched) in
      let s0 = observe_processes false es (spawned_process false) in
      let same : s ≡ s0 = ap (λ b. observe_processes b es (spawned_process b)) tcp in
      let (p, f) =
        announced s
          (sym (ap (λ (x : Starting). ported x.settled x.announced_port) (sym same))
            ∙ observe_processes-ported es (spawned_process false) refl)
          (end.settled_of ∙ ap some up) in
      let (seen, later, split, announces) =
        observe_processes-IsPrinted es (spawned_process false) p refl
          (ap (λ (x : Starting). x.announced_port) (sym same) ∙ f) in
      (p, end.port_of ∙ f, seen, later, split, announces)
]
