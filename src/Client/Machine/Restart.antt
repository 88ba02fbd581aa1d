-- ===== src/Client/Machine/Restart.antt =====
-- A client that runs its own server can always be stopped and started again.
use copilot_sdk_swift.Prelude.{
  ℕ, ◌≤◌, ◌≡◌, refl, sym, ap, ◌∙◌, Bool, true, false, some, List, arith, inl, inr, Bool-cases,
  Option-cases, if-true, if-false,
}
use copilot_sdk_swift.Js.Outcome.{Outcome, ok, throw}
use copilot_sdk_swift.Rpc.{Request, Peer}
use copilot_sdk_swift.Client.State.{
  Client, Exec, connected, connecting, rest_of, from_outcome, ◌>>=◌,
}
use copilot_sdk_swift.Client.Start.{
  StartWorld, start, start_steps, start_cli_server, connect_to_server, connect_via_tcp,
  connect_to_child_process_via_stdio, verify_protocol_version, check_version, set_provider,
  from_provider, from_verification, from_connection, become_connected, is_connected, settle_start,
  no_port, min_protocol_version, sdk_protocol_version,
}
use copilot_sdk_swift.Client.Stop
use copilot_sdk_swift.Client.Stop.{Teardown, stop}
use copilot_sdk_swift.Client.Machine.{Reached}
use copilot_sdk_swift.Client.Machine.Invariant.{Reached-Inv}

-- The process announced a port that a client can connect to.
pub record IsListening (w : StartWorld) : Type 0 where
  pub port : ℕ
  pub announced : w.server.announced_port ≡ some port
  pub usable : 1 ≤ port

-- A world in which nothing fails: the process starts, a server that is to speak TCP announces a port
-- (over stdio there is none to announce), and the server speaks a supported version.
pub record IsResponsive (use_stdio : Bool) (w : StartWorld) : Type 0 where
  pub spawned : w.server.spawned ≡ true
  pub settled : w.server.settled ≡ ok tt
  pub port : use_stdio ≡ false → IsListening w
  pub socket : w.socket ≡ ok tt
  pub version : ℕ
  pub ping : w.ping ≡ ok (some version)
  pub at_least : min_protocol_version ≤ version
  pub at_most : version ≤ sdk_protocol_version
  pub provider : w.provider ≡ ok tt

module _ {use_stdio : Bool} (w : StartWorld) (r : IsResponsive use_stdio w) where
  check_version-ok : (c : Client) → (check_version (some r.version) c).0 ≡ ok tt
  unfolding check_version
  check_version-ok c = ground (arith, r.at_least, r.at_most)

  verify_protocol_version-ok :
      (c : Client) → c.connection ≡ true → (verify_protocol_version w.ping c).0 ≡ ok tt
  unfolding verify_protocol_version
  verify_protocol_version-ok c on =
      ap (λ (p : Outcome (Unit {0}) × Client). p.0)
        (if-true c.connection ((from_outcome w.ping >>= check_version) c) _ on)
      ∙ rw (r.ping) (check_version-ok c)

  set_provider-ok : (c : Client) → (set_provider w.provider c).0 ≡ ok tt
  set_provider-ok c = elim (Option-cases c.session_fs_config) [
    | inl e ↦ ground (arith, e)
    | inr (f, e) ↦ ground (arith, e, r.provider)
  ]

  -- Where the first call of a chain succeeds, the chain ends as its rest does.
  rest_of-ok :
      (f : Unit {0} → Exec (Unit {0})) (p : Outcome (Unit {0}) × Client)
      (P : Outcome (Unit {0}) × Client → Type 0)
      → p.0 ≡ ok tt
      → P (f tt p.1)
      → P (rest_of f p)
  rest_of-ok f (ok _, c) P e h = h
  rest_of-ok f (throw x, c) P e h = absurd (cc e)

  abbrev IsUp : Outcome (Unit {0}) × Client → Type 0
  IsUp p = (p.0 ≡ ok tt) × (p.1.state ≡ connected)

  from_provider-IsUp : (c : Client) → IsUp (from_provider w c)
  from_provider-IsUp c =
      rest_of-ok (λ _ d. (ok tt, become_connected d)) (set_provider w.provider c) IsUp
        (set_provider-ok c) (refl, refl)

  from_verification-IsUp : (c : Client) → c.connection ≡ true → IsUp (from_verification w c)
  from_verification-IsUp c on =
      rest_of-ok (λ _. from_provider w) (verify_protocol_version w.ping c) IsUp
        (verify_protocol_version-ok c on) (from_provider-IsUp (verify_protocol_version w.ping c).1)

  -- The client can connect: it is no child process, and has a process or a port.
  connect_to_server-ok :
      (c : Client)
      → c.is_child_process ≡ false
      → c.cli_process ≡ true
      → (c.use_stdio ≡ false → no_port c.actual_port ≡ false)
      → ((connect_to_server w.socket c).0 ≡ ok tt)
        × ((connect_to_server w.socket c).1.connection ≡ true)
  unfolding connect_to_server connect_via_tcp connect_to_child_process_via_stdio
  connect_to_server-ok c child process port = elim (Bool-cases c.use_stdio) [
    | inl e ↦ (ground (arith, child, process, e), ground (arith, child, process, e))
    | inr e ↦
        (ground (arith, child, e, port e, r.socket), ground (arith, child, e, port e, r.socket))
  ]

  from_connection-IsUp :
      (c : Client)
      → c.is_child_process ≡ false
      → c.cli_process ≡ true
      → (c.use_stdio ≡ false → no_port c.actual_port ≡ false)
      → IsUp (from_connection w c)
  from_connection-IsUp c child process port =
      let (fine, on) = connect_to_server-ok c child process port in
      rest_of-ok (λ _. from_verification w) (connect_to_server w.socket c) IsUp fine
        (from_verification-IsUp (connect_to_server w.socket c).1 on)

  start_cli_server-ok :
      (c : Client)
      → c.use_stdio ≡ use_stdio
      → ((start_cli_server w.server c).0 ≡ ok tt)
        × ((start_cli_server w.server c).1.cli_process ≡ true)
        × (c.use_stdio ≡ false → no_port (start_cli_server w.server c).1.actual_port ≡ false)
        × ((start_cli_server w.server c).1.is_child_process ≡ c.is_child_process)
        × ((start_cli_server w.server c).1.use_stdio ≡ c.use_stdio)
  unfolding start_cli_server
  start_cli_server-ok c mode = (
    r.settled,
    ground (arith, r.spawned),
    λ e. let t = r.port (sym mode ∙ e) in ground (arith, e, t.announced, t.usable),
    refl,
    refl,
  )

  start_steps-IsUp :
      (c : Client)
      → c.use_stdio ≡ use_stdio
      → c.is_external_server ≡ false
      → c.is_child_process ≡ false
      → IsUp (start_steps w c)
  unfolding start_steps
  start_steps-IsUp c mode own child =
      let server = start_cli_server w.server c in
      let (fine, process, port, same_child, same_stdio) = start_cli_server-ok c mode in
      rw
        (if-false c.is_external_server (from_connection w c)
          (rest_of (λ _. from_connection w) server) own)
        (rest_of-ok (λ _. from_connection w) server IsUp fine
          (from_connection-IsUp server.1 (same_child ∙ child) process
            (λ e. port (sym same_stdio ∙ e))))

  settle_start-IsUp : (p : Outcome (Unit {0}) × Client) → IsUp p → IsUp (settle_start p)
  settle_start-IsUp (ok _, c) u = u
  settle_start-IsUp (throw x, c) u = absurd (cc u.0)

  -- A client that is not connected and has no external server is connected by a `start` in such a world.
  pub start-IsUp :
      (c : Client)
      → c.use_stdio ≡ use_stdio
      → is_connected c.state ≡ false
      → c.is_external_server ≡ false
      → c.is_child_process ≡ false
      → ((start w c).0 ≡ ok tt) × ((start w c).1.state ≡ connected)
  unfolding start
  start-IsUp c mode off own child =
      let steps = start_steps w (record c { state = connecting }) in
      rw (if-false (is_connected c.state) (ok tt, c) (settle_start steps) off) (
        settle_start-IsUp steps (start_steps-IsUp (record c { state = connecting }) mode own child))

-- Whatever steps a program has taken with a client that runs its own server, `stop`, however it goes, and
-- then `start`, in a world in which nothing fails, end with the client connected. Over stdio such a world
-- needs no announced port.
pub start-stop_connects :
    (c : Client) (w : StartWorld) (peer : Peer) (t : Teardown) (sent : List Request)
    → Reached c
    → IsResponsive c.use_stdio w
    → c.is_external_server ≡ false
    → ((start w (stop peer t c sent).1).0 ≡ ok tt)
      × ((start w (stop peer t c sent).1).1.state ≡ connected)
unfolding stop Stop.released
start-stop_connects c w peer t sent reached r own =
    start-IsUp w r (stop peer t c sent).1 refl refl own (not_child c.is_child_process refl)
  where
    not_child : (b : Bool) → c.is_child_process ≡ b → c.is_child_process ≡ false
    not_child true e = absurd (cc ((Reached-Inv c reached).child e, own))
    not_child false e = e
