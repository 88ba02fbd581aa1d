-- ===== src/Client/Machine/Kept.antt =====
-- The invariant of a client, and what keeps it: the constructor, changes of single fields, and `start`.
use copilot_sdk_swift.Prelude.{
  String, ◌≡◌, ◌≢◌, ◌⊎◌, refl, sym, ap, ◌∙◌, true, false, Option, List, arith, inl, inr, Bool-cases,
}
use copilot_sdk_swift.Js.Value.{Value}
use copilot_sdk_swift.Js.JsMap
use copilot_sdk_swift.Js.Outcome.{Outcome, ok, Outcome-cases}
use copilot_sdk_swift.Session.State.{Session}
use copilot_sdk_swift.Client.State.{Client, connected, failed}
use copilot_sdk_swift.Client.Start.{StartWorld, start, is_connected}
use copilot_sdk_swift.Client.Start.Connected.{IsReady, start-IsReady, start_again, state-start}
use copilot_sdk_swift.Client.Options.{ClientOptions, construct}
use copilot_sdk_swift.Client.Options.Checked.{construct-new_client}
use copilot_sdk_swift.Client.Sessions.{ensure_started, without_session}
use copilot_sdk_swift.Client.Incoming.{with_session}
use copilot_sdk_swift.Client.Machine.Frames.{start-Frame}
use copilot_sdk_swift.Client.Machine.Registry.{IsRegistry, delete-IsRegistry, set-IsRegistry}

failed≢connected : failed ≢ connected
failed≢connected e = cc e

pub record Inv (c : Client) : Type 0 where
  pub ready : c.state ≡ connected → IsReady c
  pub registry : IsRegistry c.sessions
  pub child : c.is_child_process ≡ true → c.is_external_server ≡ true
  pub process : c.is_external_server ≡ true → c.cli_process ≡ false

pub construct-Inv : (o : ClientOptions) (c : Client) → construct o ≡ ok c → Inv c
construct-Inv o c h =
    let (a, _, same) = construct-new_client o c h in
    rw same (record {
      ready = λ e. absurd (cc e);
      registry = tt;
      child = λ e. ground (arith, e);
      process = λ e. refl;
    })

-- To be ready depends on two fields only.
pub same-IsReady :
    {c d : Client}
    → d.connection ≡ c.connection
    → d.negotiated_protocol_version ≡ c.negotiated_protocol_version
    → IsReady c
    → IsReady d
same-IsReady same version y = record {
  connection = same ∙ y.connection;
  version = y.version;
  negotiated = version ∙ y.negotiated;
  at_least = y.at_least;
  at_most = y.at_most;
}

-- The same client with other sessions.
pub with_sessions-Inv :
    (c : Client) (m : JsMap.JsMap Session) → Inv c → IsRegistry m → Inv (record c { sessions = m })
with_sessions-Inv c m v r = record {
  ready = λ e. same-IsReady refl refl (v.ready e);
  registry = r;
  child = v.child;
  process = v.process;
}

pub with_cache-Inv :
    (c : Client) (models : Option (List Value)) → Inv c → Inv (record c { models_cache = models })
with_cache-Inv c models v = record {
  ready = λ e. same-IsReady refl refl (v.ready e);
  registry = v.registry;
  child = v.child;
  process = v.process;
}

pub forced-Inv : (c : Client) → Inv c → Inv (record c { force_stopping = true })
forced-Inv c v = record {
  ready = λ e. same-IsReady refl refl (v.ready e);
  registry = v.registry;
  child = v.child;
  process = v.process;
}

pub with_session-Inv :
    (id : String) (s : Session) (c : Client) → Inv c → s.session_id ≡ id → Inv (with_session id s c)
with_session-Inv id s c v e = with_sessions-Inv c _ v (set-IsRegistry id s c.sessions e v.registry)

pub without_session-Inv : (id : String) (c : Client) → Inv c → Inv (without_session id c)
without_session-Inv id c v = with_sessions-Inv c _ v (delete-IsRegistry id c.sessions v.registry)

start-IsReady_kept :
    (w : StartWorld) (c : Client) → Inv c → (start w c).1.state ≡ connected → IsReady (start w c).1
start-IsReady_kept w c v h = elim (Bool-cases (is_connected c.state)) [
  | inl on ↦
      let same : (start w c).1 ≡ c =
        ap (λ (p : Outcome (Unit {0}) × Client). p.1) (start_again w c on) in
      rw same (v.ready (ap (λ (d : Client). d.state) (sym same) ∙ h))
  | inr off ↦ elim (Outcome-cases (start w c).0) [
    | inl (x, o) ↦
        (start-IsReady w c (start w c).1 off
          (ap (λ (y : Outcome (Unit {0})). (y, (start w c).1)) o)).0
    | inr (x, o) ↦ absurd (failed≢connected (sym (state-start w c x off o) ∙ h))
  ]
]

pub start-Inv : (w : StartWorld) (c : Client) → Inv c → Inv (start w c).1
start-Inv w c v =
    let f = start-Frame w c in
    record {
      ready = start-IsReady_kept w c v;
      registry = rw f.sessions v.registry;
      child = λ e. f.external ∙ v.child (sym f.child ∙ e);
      process = λ e. let x = sym f.external ∙ e in f.process x ∙ v.process x;
    }

pub ensure_started-cases :
    (w : StartWorld) (c : Client)
    → ((ensure_started w c).1 ≡ c) ⊎ ((ensure_started w c).1 ≡ (start w c).1)
unfolding ensure_started
ensure_started-cases w c = elim (Bool-cases c.connection) [
  | inl on ↦ inl (ground (arith, on))
  | inr off ↦ elim (Bool-cases c.auto_start) [
    | inl auto ↦ inr (ground (arith, off, auto))
    | inr manual ↦ inl (ground (arith, off, manual))
  ]
]

pub ensure_started-Inv : (w : StartWorld) (c : Client) → Inv c → Inv (ensure_started w c).1
ensure_started-Inv w c v = elim (ensure_started-cases w c) [
  | inl e ↦ rw e v
  | inr e ↦ rw e (start-Inv w c v)
]
