-- ===== src/Codegen/Objects/Circular.antt =====
-- `resolveObjectSchema` on an `allOf` that leads back to itself.
use copilot_sdk_swift.Prelude.{String, ◌≡◌, false, Option, none, some}
use copilot_sdk_swift.Js.Value.{Value, arr, obj, Items, cons, Fields, lookup}
use copilot_sdk_swift.Codegen.Refs.{DefinitionCollections, resolve_ref, ref_of}
use copilot_sdk_swift.Codegen.Objects.{is_object_schema_already}

module _ (d : Option DefinitionCollections) where
  -- What an `allOf` needs to lead back to its schema by its first part.
  pub record IsCircular (fs gs : Fields) (rest : Items) (r : String) : Type 0 where
    pub no_shape : is_object_schema_already (obj fs) ≡ false
    pub no_ref : ref_of (obj fs) ≡ none
    pub parts : lookup "allOf" fs ≡ arr (cons (obj gs) rest)
    pub back : ref_of (obj gs) ≡ some r
    pub resolved : resolve_ref r d ≡ obj fs
