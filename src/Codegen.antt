-- ===== src/Codegen.antt =====
-- scripts/codegen/utils.ts and typescript.ts: what the code generators do with a JSON schema. A schema is
-- a value; what objects inherit from Object.prototype is left out.
pub mod Titles
pub mod Sorted
pub mod Refs
pub mod Objects
pub mod Definitions
pub mod Methods
pub mod Normalize
pub mod Hoist
pub mod PostProcess
pub mod Names
pub mod TypeScript
