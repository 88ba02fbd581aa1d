-- ===== src/Client/Machine/Frames.antt =====
-- What the steps of `start` in client.ts leave as it is.
use copilot_sdk_swift.Prelude.{
  ℕ, ◌≡◌, refl, ◌∙◌, true, false, Option, none, some, arith, inl, inr, Bool-cases, if-true,
  if-false,
}
use copilot_sdk_swift.Js.Outcome.{Outcome, ok, throw, Outcome-cases}
use copilot_sdk_swift.Client.State.{Client, Exec, connecting, ◌>>=◌, modify, from_outcome}
use copilot_sdk_swift.Client.Start.{
  StartWorld, start, start_steps, start_cli_server, connect_to_server, connect_via_tcp,
  connect_to_parent_process_via_stdio, connect_to_child_process_via_stdio, verify_protocol_version,
  check_version, set_provider, from_provider, from_verification, from_connection, become_connected,
  is_connected, settle_start,
}

-- The sessions, the kind of the client, and the process of a client that has none of its own.
pub record Frame (c d : Client) : Type 0 where
  pub sessions : d.sessions ≡ c.sessions
  pub external : d.is_external_server ≡ c.is_external_server
  pub child : d.is_child_process ≡ c.is_child_process
  pub process : c.is_external_server ≡ true → d.cli_process ≡ c.cli_process

pub Frame-refl : (c : Client) → Frame c c
Frame-refl c = record { sessions = refl; external = refl; child = refl; process = λ _. refl }

pub Frame-trans : {c d e : Client} → Frame c d → Frame d e → Frame c e
Frame-trans f g = record {
  sessions = g.sessions ∙ f.sessions;
  external = g.external ∙ f.external;
  child = g.child ∙ f.child;
  process = λ x. g.process (f.external ∙ x) ∙ f.process x;
}

abbrev Framed {ℓ} : {A : Type ℓ} → Exec A → Type 0
Framed m = (c : Client) → Frame c (m c).1

bind-Framed {ℓ κ} :
    {A : Type ℓ} {B : Type κ} (m : Exec A) (f : A → Exec B)
    → Framed m
    → ((a : A) → Framed (f a))
    → Framed (m >>= f)
bind-Framed m f hm hf c = elim (Outcome-cases (m c).0) [
  | inl (a, e) ↦ rw (e, ◌>>=◌) (Frame-trans (hm c) (hf a (m c).1))
  | inr (x, e) ↦ rw (e, ◌>>=◌) (hm c)
]

connect_to_server-Framed : (socket : Outcome (Unit {0})) → Framed (connect_to_server socket)
unfolding connect_to_server connect_via_tcp connect_to_parent_process_via_stdio
    connect_to_child_process_via_stdio
connect_to_server-Framed socket c = record {
  sessions = ground arith;
  external = ground arith;
  child = ground arith;
  process = λ x. ground arith;
}

check_version-Framed : (v : Option ℕ) → Framed (check_version v)
unfolding check_version
check_version-Framed none c = Frame-refl c
check_version-Framed (some v) c = record {
  sessions = ground arith;
  external = ground arith;
  child = ground arith;
  process = λ x. ground arith;
}

verify_protocol_version-Framed : (ping : Outcome (Option ℕ)) → Framed (verify_protocol_version ping)
unfolding verify_protocol_version
verify_protocol_version-Framed ping c = elim (Bool-cases c.connection) [
  | inl e ↦
      rw (if-true c.connection ((from_outcome ping >>= check_version) c) _ e)
        (bind-Framed (from_outcome ping) check_version (λ d. Frame-refl d) check_version-Framed c)
  | inr e ↦ rw (if-false c.connection ((from_outcome ping >>= check_version) c) _ e) (Frame-refl c)
]

become_connected-Framed : Framed (modify become_connected)
become_connected-Framed c = record {
  sessions = refl;
  external = refl;
  child = refl;
  process = λ x. refl;
}

set_provider-Framed : (provider : Outcome (Unit {0})) → Framed (set_provider provider)
set_provider-Framed provider c = record {
  sessions = ground arith;
  external = ground arith;
  child = ground arith;
  process = λ x. ground arith;
}

module _ (w : StartWorld) where
  from_connection-Framed : Framed (from_connection w)
  from_connection-Framed =
      bind-Framed (connect_to_server w.socket) (λ _. from_verification w)
        (connect_to_server-Framed w.socket)
        (λ _.
          bind-Framed (verify_protocol_version w.ping) (λ _. from_provider w)
            (verify_protocol_version-Framed w.ping)
            (λ _.
              bind-Framed (set_provider w.provider) (λ _. modify become_connected)
                (set_provider-Framed w.provider) (λ _. become_connected-Framed)))

  -- Only a client of its own server starts one.
  start_cli_server-Frame :
      (c : Client) → c.is_external_server ≡ false → Frame c (start_cli_server w.server c).1
  unfolding start_cli_server
  start_cli_server-Frame c own = record {
    sessions = refl;
    external = refl;
    child = refl;
    process = λ x. absurd (cc (x, own));
  }

  start_steps-Framed : Framed (start_steps w)
  unfolding start_steps
  start_steps-Framed c =
      let external = from_connection w c in
      let own = (start_cli_server w.server >>= λ _. from_connection w) c in
      elim (Bool-cases c.is_external_server) [
        | inl e ↦ rw (if-true c.is_external_server external own e) (from_connection-Framed c)
        | inr e ↦
            let first = start_cli_server-Frame c e in
            rw (if-false c.is_external_server external own e)
              (elim (Outcome-cases (start_cli_server w.server c).0) [
                | inl (a, o) ↦
                    rw (o, ◌>>=◌)
                      (Frame-trans first (from_connection-Framed (start_cli_server w.server c).1))
                | inr (x, o) ↦ rw (o, ◌>>=◌) first
              ])
      ]

  settle_start-Frame :
      (c : Client) (r : Outcome (Unit {0}) × Client) → Frame c r.1 → Frame c (settle_start r).1
  settle_start-Frame c (ok _, d) f = f
  settle_start-Frame c (throw e, d) f = record {
    sessions = f.sessions;
    external = f.external;
    child = f.child;
    process = f.process;
  }

  pub start-Frame : (c : Client) → Frame c (start w c).1
  unfolding start
  start-Frame c = elim (Bool-cases (is_connected c.state)) [
    | inl on ↦
        rw
          (if-true (is_connected c.state) (ok tt, c)
            (settle_start (start_steps w (record c { state = connecting }))) on)
          (Frame-refl c)
    | inr off ↦
        rw
          (if-false (is_connected c.state) (ok tt, c)
            (settle_start (start_steps w (record c { state = connecting }))) off)
          (settle_start-Frame c _ (
            Frame-trans
              (record { sessions = refl; external = refl; child = refl; process = λ x. refl })
              (start_steps-Framed (record c { state = connecting }))))
  ]
