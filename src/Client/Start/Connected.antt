-- ===== src/Client/Start/Connected.antt =====
-- What holds of a client after `start`.
use copilot_sdk_swift.Prelude.{
  ap, ℕ, ◌≤◌, ◌≡◌, refl, sym, if-true, if-false, ◌∙◌, Bool-cases, inl, inr, true, false, Option,
  none, some, arith,
}
use copilot_sdk_swift.Js.Outcome.{Outcome, ok, Outcome-cases, Thrown, throw}
use copilot_sdk_swift.Client.State.{
  Client, connecting, connected, rest_of-eq-ok, modify, ◌>>=◌, failed,
}
use copilot_sdk_swift.Client.Start.{
  StartWorld, min_protocol_version, sdk_protocol_version, check_version, verify_protocol_version,
  connect_to_server, start_cli_server, start_steps, from_provider, from_verification,
  from_connection, set_provider, become_connected, is_connected, start, settle_start,
}

-- A client that may send requests: it has a connection, and a protocol version was agreed on.
pub record IsReady (c : Client) : Type 0 where
  pub connection : c.connection ≡ true
  pub version : ℕ
  pub negotiated : c.negotiated_protocol_version ≡ some version
  pub at_least : min_protocol_version ≤ version
  pub at_most : version ≤ sdk_protocol_version

check_version-IsReady :
    (version : Option ℕ) (c d : Client)
    → c.connection ≡ true
    → check_version version c ≡ (ok tt, d)
    → IsReady d
unfolding check_version
check_version-IsReady none c d p h = absurd (cc h)
check_version-IsReady (some v) c d p h = record {
  connection = ground (arith, p, h);
  version = v;
  negotiated = ground (arith, h);
  at_least = ground (arith, h);
  at_most = ground (arith, h);
}

verify_protocol_version-IsReady :
    (ping : Outcome (Option ℕ)) (c d : Client)
    → verify_protocol_version ping c ≡ (ok tt, d)
    → IsReady d
unfolding verify_protocol_version
verify_protocol_version-IsReady ping c d h = elim (Bool-cases c.connection) [
  | inr e ↦ absurd (ground (arith, e, h))
  | inl e ↦
      let (version, _, checked) = rest_of-eq-ok check_version ping c (ground (arith, e, h)) in
      check_version-IsReady version c d e checked
]

after_provider :
    (provider : Outcome (Unit {0})) (c d : Client) → set_provider provider c ≡ (ok tt, d) → d ≡ c
after_provider provider c d h = ground (arith, h)

from_connection-IsReady :
    (w : StartWorld) (c d : Client)
    → from_connection w c ≡ (ok tt, d)
    → IsReady d × (d.state ≡ connected)
from_connection-IsReady w c d h =
    let c2 = (connect_to_server w.socket c).1 in
    let c3 = (verify_protocol_version w.ping c2).1 in
    let c4 = (set_provider w.provider c3).1 in
    let (_, _, h2) =
      rest_of-eq-ok (λ _. from_verification w) (connect_to_server w.socket c).0 c2 h in
    let (_, v, h3) =
      rest_of-eq-ok (λ _. from_provider w) (verify_protocol_version w.ping c2).0 c3 h2 in
    let (_, p, h4) =
      rest_of-eq-ok (λ _. modify become_connected) (set_provider w.provider c3).0 c4 h3 in
    let same : c4 ≡ c3 = after_provider w.provider c3 c4 (ground (arith, p)) in
    let ready : IsReady c3 = verify_protocol_version-IsReady w.ping c2 c3 (ground (arith, v)) in
    let d-eq : become_connected c4 ≡ d = ground (arith, h4) in
    rw (← d-eq) (
      rw same (
        record {
          connection = ready.connection;
          version = ready.version;
          negotiated = ready.negotiated;
          at_least = ready.at_least;
          at_most = ready.at_most;
        },
        refl,
      ))

start_steps-IsReady :
    (w : StartWorld) (c d : Client)
    → start_steps w c ≡ (ok tt, d)
    → IsReady d × (d.state ≡ connected)
unfolding start_steps
start_steps-IsReady w c d h =
    let external = from_connection w c in
    let own = (start_cli_server w.server >>= λ _. from_connection w) c in
    elim (Bool-cases c.is_external_server) [
      | inl e ↦
          from_connection-IsReady w c d (sym (if-true c.is_external_server external own e) ∙ h)
      | inr e ↦
          let c1 = (start_cli_server w.server c).1 in
          let (_, _, h1) =
            rest_of-eq-ok (λ _. from_connection w) (start_cli_server w.server c).0 c1
              (sym (if-false c.is_external_server external own e) ∙ h) in
          from_connection-IsReady w c1 d h1
    ]

-- A `start` that has something to do and returns leaves a connection and a protocol version in the
-- supported range, and the state "connected".
pub start-IsReady :
    (w : StartWorld) (c d : Client)
    → is_connected c.state ≡ false
    → start w c ≡ (ok tt, d)
    → IsReady d × (d.state ≡ connected)
unfolding start
start-IsReady w c d off h =
    let c0 = record c { state = connecting } in
    elim (Outcome-cases (start_steps w c0).0) [
      | inl (x, e) ↦ start_steps-IsReady w c0 d (ground (arith, off, e, h))
      | inr (x, e) ↦ absurd (ground (arith, off, e, h))
    ]

pub start_again :
    (w : StartWorld) (c : Client) → is_connected c.state ≡ true → start w c ≡ (ok tt, c)
unfolding start
start_again w c on = if-true (is_connected c.state) _ _ on

state-settle_start :
    (r : Outcome (Unit {0}) × Client) (x : Thrown)
    → (settle_start r).0 ≡ throw x
    → (settle_start r).1.state ≡ failed
state-settle_start (ok _, d) x h = absurd (cc h)
state-settle_start (throw e, d) x h = refl

pub state-start :
    (w : StartWorld) (c : Client) (x : Thrown)
    → is_connected c.state ≡ false
    → (start w c).0 ≡ throw x
    → (start w c).1.state ≡ failed
unfolding start
state-start w c x off h =
    let settled = settle_start (start_steps w (record c { state = connecting })) in
    let same = if-false (is_connected c.state) (ok tt, c) settled off in
    ap (λ (p : Outcome (Unit {0}) × Client). p.1.state) same
    ∙ state-settle_start (start_steps w (record c { state = connecting })) x
        (sym (ap (λ (p : Outcome (Unit {0}) × Client). p.0) same) ∙ h)
