-- ===== src/Codegen/PostProcess.antt =====
-- `postProcessSchema` of utils.ts, as one walk. The parts of a schema are processed before its `const` and
-- its definitions, which they do not share keys with.
pub mod Constants
pub mod Processed
use copilot_sdk_swift.Prelude.{String, Bool, true, false, not, ◌&&◌, ◌||◌, ◌==◌, if◌then◌else◌}
use copilot_sdk_swift.Js.Value.{
  Value, undefined, null, bool, num, str, arr, obj, func, Items, nil, cons, Fields, end, field,
  lookup, truthy,
}
use copilot_sdk_swift.Js.Object.{put, remove}
use copilot_sdk_swift.Codegen.Hoist.{Part, one, named, one_or_list, list, nothing}
use copilot_sdk_swift.Codegen.Definitions.{entries}

abbrev pub processed_part : String → Part
processed_part k =
    if k == "properties" || k == "definitions" || k == "$defs"
    then named
    else if k == "items"
    then one_or_list
    else if k == "additionalProperties"
    then one
    else if k == "anyOf" || k == "allOf" || k == "oneOf"
    then list
    else nothing

-- `"const" in processed && typeof processed.const === "boolean"`
unfoldable pub const_to_enum : Fields → Fields
unfolding lookup put remove
const_to_enum processed = elim (lookup "const" processed) [
  | bool b ↦ remove "const" (put "enum" (arr (cons (bool b) nil)) processed)
  | _ ↦ processed
]

-- Definitions in one namespace only are copied to the other.
unfoldable pub copy_definitions : Fields → Fields
unfolding lookup put
copy_definitions processed =
    let definitions = lookup "definitions" processed in
    let defs = lookup "$defs" processed in
    if truthy definitions && not (truthy defs)
    then put "$defs" (obj (entries definitions)) processed
    else if truthy defs && not (truthy definitions)
    then put "definitions" (obj (entries defs)) processed
    else processed

unfoldable mutual
  unfolding const_to_enum copy_definitions

  -- A value as such a part of a schema.
  pub post_process : Part → Value → Value
  post_process p undefined = undefined
  post_process p null = null
  post_process p (bool b) = bool b
  post_process p (num n) = num n
  post_process p (str s) = str s
  post_process p (func source) = func source
  post_process one (obj fs) = obj (copy_definitions (const_to_enum (post_process_parts fs)))
  post_process one_or_list (obj fs) = obj (copy_definitions (const_to_enum (post_process_parts fs)))
  post_process named (obj fs) = obj (post_process_entries fs)
  post_process list (obj fs) = obj fs
  post_process nothing (obj fs) = obj fs
  post_process one (arr xs) = arr xs
  post_process named (arr xs) = arr xs
  post_process nothing (arr xs) = arr xs
  post_process one_or_list (arr xs) = arr (post_process_items xs)
  post_process list (arr xs) = arr (post_process_items xs)

  pub post_process_parts : Fields → Fields
  post_process_parts end = end
  post_process_parts (field k v fs) =
      field k (post_process (processed_part k) v) (post_process_parts fs)

  pub post_process_entries : Fields → Fields
  post_process_entries end = end
  post_process_entries (field k v fs) = field k (post_process one v) (post_process_entries fs)

  pub post_process_items : Items → Items
  post_process_items nil = nil
  post_process_items (cons v vs) = cons (post_process one v) (post_process_items vs)

unfoldable pub post_process_schema : Value → Value
unfolding post_process
post_process_schema schema = post_process one schema
