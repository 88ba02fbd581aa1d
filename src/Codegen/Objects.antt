-- ===== src/Codegen/Objects.antt =====
-- `resolveObjectSchema` of utils.ts.
-- Parts of a schema that are not of the shape that its type gives are passed over.
pub mod Circular
use copilot_sdk_swift.Prelude.{
  ℕ, zero, suc, String, Bool, true, false, not, ◌&&◌, ◌||◌, Option, none, some, List, [], ◌∷◌, ◌++◌,
  ◌==◌, if◌then◌else◌,
}
use copilot_sdk_swift.Js.Value.{
  Value, undefined, null, bool, str, arr, obj, Items, nil, cons, Fields, end, field, lookup, has,
  truthy, is_nullish,
}
use copilot_sdk_swift.Js.Object.{put, assign, has_entries}
use copilot_sdk_swift.Session.Ui.{get_field_or_undefined}
use copilot_sdk_swift.Codegen.Refs.{DefinitionCollections, is_seen, or_undefined, resolve_schema}

abbrev pub is_str : String → Value → Bool
is_str t (str s) = s == t
is_str t _ = false

-- `typeof v === "object"`
abbrev pub has_object_type : Value → Bool
has_object_type null = true
has_object_type (arr xs) = true
has_object_type (obj fs) = true
has_object_type _ = false

abbrev pub is_undefined : Value → Bool
is_undefined undefined = true
is_undefined _ = false

-- `merged`, `mergedProperties`, `mergedRequired` and `hasObjectShape`
pub record Merged : Type 0 where
  pub merged : Fields
  pub properties : Fields
  pub required : List String
  pub has_object_shape : Bool

unfoldable pub add_required : Items → List String → List String
unfolding is_seen
add_required nil names = names
add_required (cons (str n) items) names =
    add_required items (if is_seen n names then names else names ++ n ∷ [])
add_required (cons v items) names = add_required items names

abbrev merge_properties : Value → Merged → Merged
merge_properties (obj ps) m = record m {
  properties = assign m.properties ps;
  has_object_shape = true;
}
merge_properties _ m = m

abbrev merge_required : Value → Merged → Merged
merge_required (arr names) m = record m { required = add_required names m.required }
merge_required _ m = m

abbrev merge_additional : Value → Merged → Merged
merge_additional v m =
    if is_undefined v
    then m
    else record m { merged = put "additionalProperties" v m.merged; has_object_shape = true }

abbrev merge_description : Value → Merged → Merged
merge_description v m =
    if not (truthy (lookup "description" m.merged)) && truthy v
    then record m { merged = put "description" v m.merged }
    else m

-- One part of an `allOf`, resolved.
unfoldable pub merge_object : Value → Merged → Merged
unfolding assign put add_required lookup
merge_object (obj o) m = merge_description (lookup "description" o) (
    merge_additional (lookup "additionalProperties" o)
      (merge_required (lookup "required" o) (merge_properties (lookup "properties" o) m)))
merge_object _ m = m

-- The loop over an `allOf`, for a way to resolve its parts.
unfoldable pub merge_items : (Value → Option Value) → Items → Merged → Option Merged
unfolding merge_object
merge_items resolve nil m = some m
merge_items resolve (cons item items) m =
    elim (if has_object_type item then resolve item else some undefined) [
      | none ↦ none
      | some o ↦ merge_items resolve items (merge_object o m)
    ]

abbrev pub nothing_merged : Value → Merged
nothing_merged description = record {
  merged = field "type" (str "object") (field "description" description end);
  properties = end;
  required = [];
  has_object_shape = false;
}

unfoldable pub text_items : List String → Items
text_items [] = nil
text_items (n ∷ ns) = cons (str n) (text_items ns)

abbrev with_properties : Fields → Fields → Fields
with_properties properties fs =
    if has_entries properties then put "properties" (obj properties) fs else fs

abbrev with_required : List String → Fields → Fields
with_required [] fs = fs
with_required (n ∷ ns) fs = put "required" (arr (text_items (n ∷ ns))) fs

unfoldable pub finish_merge : Value → Merged → Value
unfolding put text_items
finish_merge resolved m =
    if m.has_object_shape
    then obj (with_required m.required (with_properties m.properties m.merged))
    else resolved

-- The branches of an `anyOf` or `oneOf` that are not null.
unfoldable pub live_branches : Items → List Value
unfolding lookup
live_branches nil = []
live_branches (cons (obj fs) items) =
    let rest = live_branches items in
    if is_str "null" (lookup "type" fs) then rest else obj fs ∷ rest
live_branches (cons (arr xs) items) = arr xs ∷ live_branches items
live_branches (cons v items) = live_branches items

abbrev pub branches_of : Value → List Value
branches_of (arr items) = live_branches items
branches_of _ = []

abbrev pub first_present : Value → Value → Value
first_present a b = if is_nullish a then b else a

abbrev pub is_object_schema_already : Value → Bool
is_object_schema_already v =
    truthy (get_field_or_undefined "properties" v)
    || truthy (get_field_or_undefined "additionalProperties" v)
    || is_str "object" (get_field_or_undefined "type" v)

-- What remains once the references are followed, for a way to resolve parts.
unfoldable pub object_of : (Value → Option Value) → Value → Option Value
unfolding merge_items finish_merge live_branches lookup
object_of resolve v =
    if not (truthy v)
    then some undefined
    else if is_object_schema_already v
    then some v
    else elim (get_field_or_undefined "allOf" v) [
      | arr items ↦
          elim (merge_items resolve items
            (nothing_merged (get_field_or_undefined "description" v))) [
              | none ↦ none
              | some m ↦ some (finish_merge v m)
            ]
      | _ ↦
          elim (branches_of
            (first_present (get_field_or_undefined "anyOf" v) (get_field_or_undefined "oneOf" v))) [
              | one ∷ [] ↦ resolve one
              | _ ↦ some v
            ]
    ]

-- The depth of the recursion is bounded by fuel; `none` when it runs out.
unfoldable pub resolve_object_schema : Option DefinitionCollections → ℕ → Value → Option Value
unfolding resolve_schema object_of
resolve_object_schema d zero schema = none
resolve_object_schema d (suc fuel) schema = elim (resolve_schema schema d) [
  | none ↦ none
  | some found ↦
      object_of (resolve_object_schema d fuel) (first_present found (or_undefined schema))
]
