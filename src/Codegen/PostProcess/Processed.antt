-- ===== src/Codegen/PostProcess/Processed.antt =====
-- What `postProcessSchema` leaves of boolean constants.
use copilot_sdk_swift.Prelude.{
  String, ◌≡◌, refl, ap, ◌∙◌, Bool, false, ◌==◌, arith, inl, inr, Bool-cases, if-false,
}
use copilot_sdk_swift.Js.Value.{
  Value, undefined, null, bool, num, str, arr, obj, func, Items, nil, cons, Fields, end, field,
  lookup, truthy,
}
use copilot_sdk_swift.Js.Object.{put, remove, lookup-put, lookup-remove}
use copilot_sdk_swift.Codegen.Hoist.{Part, one, named, one_or_list, list, nothing}
use copilot_sdk_swift.Codegen.Definitions.{entries}
use copilot_sdk_swift.Codegen.PostProcess.{
  processed_part, const_to_enum, copy_definitions, post_process, post_process_parts,
  post_process_entries, post_process_items, post_process_schema,
}
use copilot_sdk_swift.Codegen.PostProcess.Constants.{
  is_boolean, has_boolean, boolean_in_parts, boolean_in_entries, boolean_in_items,
  boolean_in_parts-put, boolean_in_parts-remove, boolean_in_parts-lookup,
}

-- Neither the `const` of a schema nor one in its parts is a boolean.
record IsFree (fs : Fields) : Type 0 where
  own : is_boolean (lookup "const" fs) ≡ false
  parts : boolean_in_parts fs ≡ false

const_to_enum-IsFree : (fs : Fields) → boolean_in_parts fs ≡ false → IsFree (const_to_enum fs)
unfolding const_to_enum has_boolean
const_to_enum-IsFree fs n = go (lookup "const" fs) refl
  where
    as_it_is : (v : Value) → lookup "const" fs ≡ v → is_boolean v ≡ false → IsFree fs
    as_it_is v e h = record { own = ap is_boolean e ∙ h; parts = n }

    changed : (b : Bool) → IsFree (remove "const" (put "enum" (arr (cons (bool b) nil)) fs))
    changed b =
        let enumerated = put "enum" (arr (cons (bool b) nil)) fs in
        record {
          own = ap is_boolean (lookup-remove "const" "const" enumerated);
          parts =
              boolean_in_parts-remove "const" enumerated
                (boolean_in_parts-put "enum" (arr (cons (bool b) nil)) fs refl n);
        }

    go : (v : Value) → lookup "const" fs ≡ v → IsFree (const_to_enum fs)
    go (bool b) e = rw (e, const_to_enum) (changed b)
    go undefined e = rw (e, const_to_enum) (as_it_is undefined e refl)
    go null e = rw (e, const_to_enum) (as_it_is null e refl)
    go (num m) e = rw (e, const_to_enum) (as_it_is (num m) e refl)
    go (str t) e = rw (e, const_to_enum) (as_it_is (str t) e refl)
    go (arr xs) e = rw (e, const_to_enum) (as_it_is (arr xs) e refl)
    go (obj gs) e = rw (e, const_to_enum) (as_it_is (obj gs) e refl)
    go (func c) e = rw (e, const_to_enum) (as_it_is (func c) e refl)

has_boolean-entries :
    (v : Value) → has_boolean named v ≡ false → has_boolean named (obj (entries v)) ≡ false
unfolding has_boolean
has_boolean-entries undefined h = refl
has_boolean-entries null h = refl
has_boolean-entries (bool b) h = refl
has_boolean-entries (num n) h = refl
has_boolean-entries (str s) h = refl
has_boolean-entries (arr xs) h = refl
has_boolean-entries (obj fs) h = h
has_boolean-entries (func s) h = refl

copied-IsFree :
    (k : String) (v : Value) (fs : Fields)
    → k == "const" ≡ false
    → has_boolean (processed_part k) v ≡ false
    → IsFree fs
    → IsFree (put k v fs)
copied-IsFree k v fs other h f = record {
  own =
      ap is_boolean
        (lookup-put k "const" v fs ∙ if-false (k == "const") v (lookup "const" fs) other)
      ∙ f.own;
  parts = boolean_in_parts-put k v fs h f.parts;
}

copy_definitions-IsFree : (fs : Fields) → IsFree fs → IsFree (copy_definitions fs)
unfolding copy_definitions
copy_definitions-IsFree fs f =
    let definitions = lookup "definitions" fs in
    let defs = lookup "$defs" fs in
    elim (Bool-cases (truthy definitions)) [
      | inl d ↦ elim (Bool-cases (truthy defs)) [
        | inl e ↦ rw (d, e) f
        | inr e ↦
            rw (d, e)
              (copied-IsFree "$defs" (obj (entries definitions)) fs refl
                (has_boolean-entries definitions (boolean_in_parts-lookup "definitions" fs f.parts))
                f)
      ]
      | inr d ↦ elim (Bool-cases (truthy defs)) [
        | inl e ↦
            rw (d, e)
              (copied-IsFree "definitions" (obj (entries defs)) fs refl
                (has_boolean-entries defs (boolean_in_parts-lookup "$defs" fs f.parts)) f)
        | inr e ↦ rw (d, e) f
      ]
    ]

processed-false :
    (fs : Fields)
    → boolean_in_parts fs ≡ false
    → has_boolean one (obj (copy_definitions (const_to_enum fs))) ≡ false
unfolding has_boolean
processed-false fs n =
    let f = copy_definitions-IsFree (const_to_enum fs) (const_to_enum-IsFree fs n) in
    ground (arith, f.own, f.parts)

mutual
  unfolding has_boolean post_process

  has_boolean-post_process : (p : Part) (v : Value) → has_boolean p (post_process p v) ≡ false
  has_boolean-post_process p undefined = refl
  has_boolean-post_process p null = refl
  has_boolean-post_process p (bool b) = refl
  has_boolean-post_process p (num n) = refl
  has_boolean-post_process p (str s) = refl
  has_boolean-post_process p (func s) = refl
  has_boolean-post_process one (obj fs) =
      processed-false (post_process_parts fs) (boolean_in_parts-post_process fs)
  has_boolean-post_process one_or_list (obj fs) =
      processed-false (post_process_parts fs) (boolean_in_parts-post_process fs)
  has_boolean-post_process named (obj fs) = boolean_in_entries-post_process fs
  has_boolean-post_process list (obj fs) = refl
  has_boolean-post_process nothing (obj fs) = refl
  has_boolean-post_process one (arr xs) = refl
  has_boolean-post_process named (arr xs) = refl
  has_boolean-post_process nothing (arr xs) = refl
  has_boolean-post_process one_or_list (arr xs) = boolean_in_items-post_process xs
  has_boolean-post_process list (arr xs) = boolean_in_items-post_process xs

  boolean_in_parts-post_process : (fs : Fields) → boolean_in_parts (post_process_parts fs) ≡ false
  boolean_in_parts-post_process end = refl
  boolean_in_parts-post_process (field k v fs) =
      rw (has_boolean-post_process (processed_part k) v) (boolean_in_parts-post_process fs)

  boolean_in_entries-post_process :
      (fs : Fields) → boolean_in_entries (post_process_entries fs) ≡ false
  boolean_in_entries-post_process end = refl
  boolean_in_entries-post_process (field k v fs) =
      rw (has_boolean-post_process one v) (boolean_in_entries-post_process fs)

  boolean_in_items-post_process : (xs : Items) → boolean_in_items (post_process_items xs) ≡ false
  boolean_in_items-post_process nil = refl
  boolean_in_items-post_process (cons v vs) =
      rw (has_boolean-post_process one v) (boolean_in_items-post_process vs)

-- No schema in what postProcessSchema returns has a boolean as its `const`: neither the schema itself nor
-- one that is reached in it by properties, definitions, $defs, items, additionalProperties, anyOf, allOf
-- and oneOf.
pub post_process_schema-no_boolean :
    (schema : Value) → has_boolean one (post_process_schema schema) ≡ false
unfolding post_process_schema
post_process_schema-no_boolean schema = has_boolean-post_process one schema
