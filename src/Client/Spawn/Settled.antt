-- ===== src/Client/Spawn/Settled.antt =====
-- The promise of `startCLIServer`: it settles once, it settles in time, and over TCP a success has a port.
use copilot_sdk_swift.Prelude.{
  ◌≡◌, refl, ◌∙◌, Bool, true, false, Option, none, some, List, [], ◌∷◌, ◌++◌, arith, inl, inr,
  Option-cases, ◌+++◌, ℕ,
}
use copilot_sdk_swift.Js.Outcome.{Outcome, ok, throw, error}
use copilot_sdk_swift.Client.Options.{chars}
use copilot_sdk_swift.Client.Spawn.{
  ProcessEvent, prints, logs, errs, exits, timer_fires, Starting, find_port, observe_process,
  observe_processes,
}

-- Once settled, the promise and the port stay.
pub record SameEnd (s t : Starting) : Type 0 where
  pub settled : t.settled ≡ s.settled
  pub port : t.announced_port ≡ s.announced_port

observe_process-SameEnd :
    (use_stdio : Bool) (e : ProcessEvent) (s : Starting) (o : Outcome (Unit {0}))
    → s.settled ≡ some o
    → SameEnd s (observe_process use_stdio e s)
unfolding observe_process
observe_process-SameEnd true (prints d) s o h = record { settled = refl; port = refl }
observe_process-SameEnd false (prints d) s o h =
    elim (Option-cases (find_port (chars (s.stdout +++ d)))) [
      | inl e ↦ record { settled = ground (arith, e, h); port = ground (arith, e, h) }
      | inr (n, e) ↦ record { settled = ground (arith, e, h); port = ground (arith, e, h) }
    ]
observe_process-SameEnd use_stdio (logs d) s o h = record { settled = refl; port = refl }
observe_process-SameEnd use_stdio (errs m) s o h = record {
  settled = ground (arith, h);
  port = ground (arith, h);
}
observe_process-SameEnd use_stdio (exits m) s o h = record {
  settled = ground (arith, h);
  port = ground (arith, h);
}
observe_process-SameEnd use_stdio timer_fires s o h = record {
  settled = ground (arith, h);
  port = ground (arith, h);
}

pub observe_processes-SameEnd :
    (use_stdio : Bool) (es : List ProcessEvent) (s : Starting) (o : Outcome (Unit {0}))
    → s.settled ≡ some o
    → SameEnd s (observe_processes use_stdio es s)
unfolding observe_processes
observe_processes-SameEnd use_stdio [] s o h = record { settled = refl; port = refl }
observe_processes-SameEnd use_stdio (e ∷ es) s o h =
    let one = observe_process-SameEnd use_stdio e s o h in
    let rest =
      observe_processes-SameEnd use_stdio es (observe_process use_stdio e s) o (one.settled ∙ h) in
    record { settled = rest.settled ∙ one.settled; port = rest.port ∙ one.port }

pub observe_processes-++ :
    (use_stdio : Bool) (es more : List ProcessEvent) (s : Starting)
    → observe_processes use_stdio (es ++ more) s
      ≡ observe_processes use_stdio more (observe_processes use_stdio es s)
unfolding observe_processes
observe_processes-++ use_stdio [] more s = refl
observe_processes-++ use_stdio (e ∷ es) more s =
    observe_processes-++ use_stdio es more (observe_process use_stdio e s)

-- The timer settles what is not settled.
abbrev after_timer : Option (Outcome (Unit {0})) → Outcome (Unit {0})
after_timer none = throw (error "Timeout waiting for CLI server to start")
after_timer (some o) = o

pub timer_fires-settled :
    (use_stdio : Bool) (s : Starting)
    → (o : Outcome (Unit {0})) × ((observe_process use_stdio timer_fires s).settled ≡ some o)
unfolding observe_process
timer_fires-settled use_stdio s = elim (Option-cases s.settled) [
  | inl e ↦ (after_timer s.settled, ground (arith, e))
  | inr (o, e) ↦ (o, ground (arith, e))
]

-- A promise that is fulfilled has a port.
abbrev pub ported : Option (Outcome (Unit {0})) → Option ℕ → Bool
ported none p = true
ported (some (throw e)) p = true
ported (some (ok u)) none = false
ported (some (ok u)) (some n) = true

pub announced :
    (s : Starting)
    → ported s.settled s.announced_port ≡ true
    → s.settled ≡ some (ok tt)
    → (p : ℕ) × (s.announced_port ≡ some p)
announced s h e = elim (Option-cases s.announced_port) [
  | inl n ↦ absurd (ground (arith, h, e, n))
  | inr f ↦ f
]

observe_process-ported :
    (e : ProcessEvent) (s : Starting)
    → ported s.settled s.announced_port ≡ true
    → (let t = observe_process false e s in ported t.settled t.announced_port) ≡ true
unfolding observe_process
observe_process-ported (prints d) s h = elim (Option-cases (find_port (chars (s.stdout +++ d)))) [
  | inl e ↦ ground (arith, e, h)
  | inr (n, e) ↦ elim (Option-cases s.settled) [
    | inl f ↦ ground (arith, e, f)
    | inr (o, f) ↦ ground (arith, e, f, h)
  ]
]
observe_process-ported (logs d) s h = h
observe_process-ported (errs m) s h = elim (Option-cases s.settled) [
  | inl f ↦ ground (arith, f)
  | inr (o, f) ↦ ground (arith, f, h)
]
observe_process-ported (exits m) s h = elim (Option-cases s.settled) [
  | inl f ↦ ground (arith, f)
  | inr (o, f) ↦ ground (arith, f, h)
]
observe_process-ported timer_fires s h = elim (Option-cases s.settled) [
  | inl f ↦ ground (arith, f)
  | inr (o, f) ↦ ground (arith, f, h)
]

pub observe_processes-ported :
    (es : List ProcessEvent) (s : Starting)
    → ported s.settled s.announced_port ≡ true
    → (let t = observe_processes false es s in ported t.settled t.announced_port) ≡ true
unfolding observe_processes
observe_processes-ported [] s h = h
observe_processes-ported (e ∷ es) s h =
    observe_processes-ported es (observe_process false e s) (observe_process-ported e s h)
