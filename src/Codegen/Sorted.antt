-- ===== src/Codegen/Sorted.antt =====
-- `sortJsonValue` and `stableStringify` of utils.ts. The comparison of keys, `localeCompare`, is a parameter.
pub mod Reordered
use copilot_sdk_swift.Prelude.{String, Bool, true, false, Option, ◌==◌, ◌||◌, if◌then◌else◌}
use copilot_sdk_swift.Js.Value.{
  Value, undefined, null, bool, num, str, arr, obj, func, Items, nil, cons, Fields, end, field,
}
use copilot_sdk_swift.Js.Stringify.{stringify}

-- The keys that the comparison of schemas passes over.
abbrev pub is_note : String → Bool
is_note k = k == "description" || k == "titleSource"

module _ (not_after : String → String → Bool) where
  -- `sort` is stable: an entry goes before the first that its key does not come after.
  unfoldable pub insert : String → Value → Fields → Fields
  insert k v end = field k v end
  insert k v (field j w fs) =
      let rest = insert k v fs in if not_after k j then field k v (field j w fs) else field j w rest

  unfoldable mutual
    unfolding insert

    pub sort_json_value : Value → Value
    sort_json_value undefined = undefined
    sort_json_value null = null
    sort_json_value (bool b) = bool b
    sort_json_value (num n) = num n
    sort_json_value (str s) = str s
    sort_json_value (arr xs) = arr (sort_items xs)
    sort_json_value (obj fs) = obj (sort_fields fs)
    sort_json_value (func source) = func source

    pub sort_items : Items → Items
    sort_items nil = nil
    sort_items (cons v vs) = cons (sort_json_value v) (sort_items vs)

    -- The entries that are no notes, in the order of their keys, with their children sorted.
    pub sort_fields : Fields → Fields
    sort_fields end = end
    sort_fields (field k v fs) =
        let rest = sort_fields fs in if is_note k then rest else insert k (sort_json_value v) rest

  unfoldable pub stable_stringify : Value → Option String
  unfolding sort_json_value stringify
  stable_stringify v = stringify (sort_json_value v)
