-- ===== src/Client/State.antt =====
-- The state of `CopilotClient` (nodejs/src/client.ts), and methods that change it and may throw.
-- A resource that the client holds (process, connection, socket, timer) is a flag: whether the field
-- is set.
use copilot_sdk_swift.Prelude.{◌≡◌, refl, ℕ, String, Bool, Option, List}
use copilot_sdk_swift.Js.Value.{Value}
use copilot_sdk_swift.Js.Outcome.{Thrown, Outcome, ok, throw}
use copilot_sdk_swift.Js.JsMap.{JsMap}
use copilot_sdk_swift.Js.JsSet.{JsSet}
use copilot_sdk_swift.Session.State.{Session}

-- `ConnectionState`
pub data ConnectionState : Type 0 where
  disconnected connecting connected failed : ConnectionState

pub record SessionFsConfig : Type 0 where
  pub initial_cwd : String
  pub session_state_path : String
  pub conventions : String

pub record Client : Type 0 where
  pub cli_start_timeout : Bool
  pub cli_process : Bool
  pub connection : Bool
  pub socket : Bool
  pub actual_port : Option ℕ
  pub actual_host : String
  pub state : ConnectionState
  pub sessions : JsMap Session
  pub stderr_buffer : String
  pub is_external_server : Bool
  pub force_stopping : Bool
  pub models_cache : Option (List Value)
  pub session_lifecycle_handlers : JsSet
  pub typed_lifecycle_handlers : JsMap JsSet
  pub process_exit_promise : Bool
  pub negotiated_protocol_version : Option ℕ
  pub session_fs_config : Option SessionFsConfig
  pub is_child_process : Bool
  pub use_stdio : Bool
  pub auto_start : Bool

-- A method: what it throws or returns, and the client afterwards.
abbrev pub Exec {ℓ} : Type ℓ → Type ℓ
Exec A = Client → Outcome A × Client

abbrev pub return {ℓ} : {A : Type ℓ} → A → Exec A
return a c = (ok a, c)

abbrev pub fail {ℓ} : {A : Type ℓ} → Thrown → Exec A
fail e c = (throw e, c)

abbrev pub from_outcome {ℓ} : {A : Type ℓ} → Outcome A → Exec A
from_outcome o c = (o, c)

abbrev pub modify : (Client → Client) → Exec (Unit {0})
modify f c = (ok tt, f c)

infixl 5 ◌>>=◌ ◌>>◌
abbrev pub ◌>>=◌ {ℓ κ} : {A : Type ℓ} {B : Type κ} → Exec A → (A → Exec B) → Exec B
◌>>=◌ m f c = let (o, c') = m c in elim o [ ok a ↦ f a c' | throw e ↦ (throw e, c') ]

abbrev pub ◌>>◌ {ℓ κ} : {A : Type ℓ} {B : Type κ} → Exec A → Exec B → Exec B
m >> k = m >>= λ _. k

-- The rest of a chain of calls, from how the first one ended.
abbrev pub rest_of {ℓ κ} :
    {A : Type ℓ} {B : Type κ} → (A → Exec B) → Outcome A × Client → Outcome B × Client
rest_of f (o, c) = elim o [ ok a ↦ f a c | throw e ↦ (throw e, c) ]

-- The parts of a chain of calls that succeeded.
pub rest_of-eq-ok {ℓ κ} :
    {A : Type ℓ} {B : Type κ} (f : A → Exec B) (o : Outcome A) (c : Client) {b : B} {d : Client}
    → rest_of f (o, c) ≡ (ok b, d)
    → (a : A) × (o ≡ ok a) × (f a c ≡ (ok b, d))
rest_of-eq-ok f (ok a) c h = (a, refl, h)
rest_of-eq-ok f (throw e) c h = absurd (cc h)
