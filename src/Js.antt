-- ===== src/Js.antt =====
-- The parts of JavaScript that the SDK computes with.
pub mod Value
pub mod Object
pub mod Stringify
pub mod Outcome
pub mod JsMap
pub mod JsSet
