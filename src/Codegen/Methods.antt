-- ===== src/Codegen/Methods.antt =====
-- `isRpcMethod`, `isNodeFullyExperimental` and the tests of schemas of utils.ts.
pub mod Experimental
use copilot_sdk_swift.Prelude.{
  String, Bool, true, false, not, ◌&&◌, List, [], ◌∷◌, ◌++◌, ◌==◌, if◌then◌else◌,
}
use copilot_sdk_swift.Js.Value.{
  Value, undefined, null, bool, num, str, arr, obj, func, Items, nil, cons, Fields, end, field,
  lookup, has, truthy,
}
use copilot_sdk_swift.Session.Ui.{get_field_or_undefined}
use copilot_sdk_swift.Codegen.Objects.{is_str}

unfoldable pub is_rpc_method : Value → Bool
unfolding has
is_rpc_method (obj fs) = has "rpcMethod" fs
is_rpc_method _ = false

-- The methods that `collect` finds at a value, in its fields, and in its items.
unfoldable mutual
  unfolding has

  pub methods_at : Value → List Value
  methods_at (obj fs) =
      let inside = methods_of fs in if has "rpcMethod" fs then obj fs ∷ [] else inside
  methods_at (arr xs) = methods_of_items xs
  methods_at undefined = []
  methods_at null = []
  methods_at (bool b) = []
  methods_at (num n) = []
  methods_at (str s) = []
  methods_at (func source) = []

  pub methods_of : Fields → List Value
  methods_of end = []
  methods_of (field k v fs) = methods_at v ++ methods_of fs

  pub methods_of_items : Items → List Value
  methods_of_items nil = []
  methods_of_items (cons v vs) = methods_at v ++ methods_of_items vs

abbrev pub is_experimental : Value → Bool
is_experimental m = is_str "experimental" (get_field_or_undefined "stability" m)

abbrev pub some_in : List Value → Bool
some_in [] = false
some_in (m ∷ ms) = true

unfoldable pub every : (Value → Bool) → List Value → Bool
every p [] = true
every p (m ∷ ms) = p m && every p ms

unfoldable pub is_node_fully_experimental : Fields → Bool
unfolding methods_of every lookup
is_node_fully_experimental node =
    let methods = methods_of node in some_in methods && every is_experimental methods

unfoldable pub get_rpc_schema_type_name : Value → String → String
unfolding lookup
get_rpc_schema_type_name schema fallback = elim (get_field_or_undefined "title" schema) [
  | str t ↦ t
  | _ ↦ fallback
]

unfoldable pub is_object_schema : Value → Bool
unfolding lookup
is_object_schema schema =
    is_str "object" (get_field_or_undefined "type" schema)
    && truthy (get_field_or_undefined "properties" schema)

unfoldable pub is_void_schema : Value → Bool
unfolding lookup
is_void_schema schema =
    if truthy schema then is_str "null" (get_field_or_undefined "type" schema) else true
