-- ===== src/Tests/Questions.antt =====
-- Runs of the theorems about the queries of the client.
use copilot_sdk_swift.Prelude.{Option, some, List, [], ◌∷◌}
use copilot_sdk_swift.Js.Value.{Value, str}
use copilot_sdk_swift.Js.Outcome.{Outcome, ok}

abbrev own_models : Option (Outcome (List Value))
own_models = some (ok (str "m" ∷ []))
