-- ===== src/Codegen/Definitions.antt =====
-- `collectDefinitionCollections`, `collectDefinitions`, `withSharedDefinitions` and `hasSchemaPayload` of
-- utils.ts.
pub mod Kept
use copilot_sdk_swift.Prelude.{
  String, Bool, true, false, not, ◌&&◌, ◌||◌, Option, ◌==◌, if◌then◌else◌,
}
use copilot_sdk_swift.Js.Value.{
  Value, undefined, null, str, arr, obj, Items, nil, cons, Fields, end, field, lookup, truthy,
}
use copilot_sdk_swift.Js.Object.{put, assign, has_entries}
use copilot_sdk_swift.Session.Ui.{get_field_or_undefined}
use copilot_sdk_swift.Codegen.Refs.{DefinitionCollections}
use copilot_sdk_swift.Codegen.Objects.{is_str, is_undefined}

-- `{ ...(v ?? {}) }`
abbrev pub entries : Value → Fields
entries (obj fs) = fs
entries _ = end

unfoldable pub collect_definition_collections : Fields → DefinitionCollections
unfolding lookup
collect_definition_collections schema = record {
  definitions = obj (entries (lookup "definitions" schema));
  defs = obj (entries (lookup "$defs" schema));
}

unfoldable pub collect_definitions : Fields → Fields
unfolding collect_definition_collections assign
collect_definitions schema =
    let d = collect_definition_collections schema in assign (entries d.defs) (entries d.definitions)

abbrev pub or_entries : Fields → Fields → Fields
or_entries a b = if has_entries a then a else b

unfoldable pub with_shared_definitions : Fields → DefinitionCollections → Fields
unfolding put
with_shared_definitions schema d =
    let legacy = entries d.definitions in
    let draft = entries d.defs in
    put "$defs" (obj (or_entries draft legacy))
      (put "definitions" (obj (or_entries legacy draft)) schema)

abbrev some_items : Value → Bool
some_items (arr (cons v vs)) = true
some_items _ = false

-- A list of types is a payload unless it is empty or only "object"; one type is, unless it is "object".
abbrev type_payload : Value → Bool
type_payload (arr nil) = false
type_payload (arr (cons t nil)) = not (is_str "object" t)
type_payload (arr (cons t (cons u ts))) = true
type_payload t = not (is_undefined t) && not (is_str "object" t)

unfoldable pub has_schema_payload : Value → Bool
unfolding lookup
has_schema_payload v =
    let get = λ (k : String). get_field_or_undefined k v in
    if not (truthy v)
    then false
    else if truthy (get "properties")
    then has_entries (entries (get "properties"))
    else if truthy (get "additionalProperties") || truthy (get "items")
    then true
    else if truthy (get "anyOf") || truthy (get "oneOf") || truthy (get "allOf")
    then true
    else if some_items (get "enum") || not (is_undefined (get "const")) || truthy (get "$ref")
    then true
    else type_payload (get "type")
