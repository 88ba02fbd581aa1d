-- ===== src/Codegen/Definitions/Kept.antt =====
-- Sharing definitions keeps them, and what references mean.
use copilot_sdk_swift.Prelude.{
  String, ◌≡◌, refl, sym, ap, ◌∙◌, Bool, true, false, some, arith, inl, inr, Bool-cases,
  Option-cases, if◌then◌else◌, ◌⊎◌,
}
use copilot_sdk_swift.Js.Value.{
  Value, undefined, null, bool, num, str, arr, obj, func, Fields, end, field, lookup, is_nullish,
}
use copilot_sdk_swift.Js.Object.{put, lookup-put}
use copilot_sdk_swift.Session.Ui.{get_field_or_undefined}
use copilot_sdk_swift.Codegen.Refs.{
  DefinitionCollections, first_of, match_ref, object_or_undefined, resolve_ref, or_undefined,
}
use copilot_sdk_swift.Codegen.Definitions.{
  entries, collect_definition_collections, with_shared_definitions, or_entries,
}

-- Both namespaces, each with its own entries, or with those of the other where it has none.
abbrev pub shared : DefinitionCollections → DefinitionCollections
shared d = record {
  definitions = obj (or_entries (entries d.definitions) (entries d.defs));
  defs = obj (or_entries (entries d.defs) (entries d.definitions));
}

collect_definition_collections-shared :
    (schema : Fields) (d : DefinitionCollections)
    → collect_definition_collections (with_shared_definitions schema d) ≡ shared d
unfolding collect_definition_collections with_shared_definitions
collect_definition_collections-shared schema d =
    let legacy = obj (or_entries (entries d.definitions) (entries d.defs)) in
    let draft = obj (or_entries (entries d.defs) (entries d.definitions)) in
    let inner = put "definitions" legacy schema in
    let one : lookup "definitions" (put "$defs" draft inner) ≡ legacy =
      lookup-put "$defs" "definitions" draft inner
      ∙ lookup-put "definitions" "definitions" legacy schema in
    let two : lookup "$defs" (put "$defs" draft inner) ≡ draft =
      lookup-put "$defs" "$defs" draft inner in
    rw (one, two) refl

-- What is collected of a schema after the sharing of definitions, whatever the schema had before: where
-- both namespaces have entries, the namespaces as they were; where one has entries and the other is
-- missing or empty, these entries in both; where neither has any, two empty namespaces.
pub collect_definition_collections-with_shared_definitions :
    (schema fs gs : Fields) (i j : String) (v w without : Value)
    → (without ≡ undefined) ⊎ (without ≡ obj end)
    → (collect_definition_collections (
          with_shared_definitions schema
            (record { definitions = obj (field i v fs); defs = obj (field j w gs) }))
        ≡ record { definitions = obj (field i v fs); defs = obj (field j w gs) })
      × (collect_definition_collections (
            with_shared_definitions schema
              (record { definitions = obj (field i v fs); defs = without }))
          ≡ record { definitions = obj (field i v fs); defs = obj (field i v fs) })
      × (collect_definition_collections (
            with_shared_definitions schema
              (record { definitions = without; defs = obj (field j w gs) }))
          ≡ record { definitions = obj (field j w gs); defs = obj (field j w gs) })
      × (collect_definition_collections
            (with_shared_definitions schema (record { definitions = without; defs = without }))
          ≡ record { definitions = obj end; defs = obj end })
collect_definition_collections-with_shared_definitions schema fs gs i j v w without (inl e) = (
  collect_definition_collections-shared schema _,
  rw e (collect_definition_collections-shared schema _),
  rw e (collect_definition_collections-shared schema _),
  rw e (collect_definition_collections-shared schema _),
)
collect_definition_collections-with_shared_definitions schema fs gs i j v w without (inr e) = (
  collect_definition_collections-shared schema _,
  rw e (collect_definition_collections-shared schema _),
  rw e (collect_definition_collections-shared schema _),
  rw e (collect_definition_collections-shared schema _),
)

get-entries :
    (k : String) (v : Value)
    → get_field_or_undefined k (obj (entries v)) ≡ get_field_or_undefined k v
unfolding lookup
get-entries k undefined = refl
get-entries k null = refl
get-entries k (bool b) = refl
get-entries k (num n) = refl
get-entries k (str s) = refl
get-entries k (arr xs) = refl
get-entries k (obj fs) = refl
get-entries k (func s) = refl

if-same {ℓ} : {A : Type ℓ} (b : Bool) (x : A) → (if b then x else x) ≡ x
if-same true x = refl
if-same false x = refl

nullish_or_undefined :
    (v : Value) → or_undefined (if is_nullish v then undefined else v) ≡ or_undefined v
nullish_or_undefined v = elim (Bool-cases (is_nullish v)) [
  | inl b ↦ ground (arith, b)
  | inr b ↦ ground (arith, b)
]

-- What stands under a key, first here and then there, does not change if each fills in for the other.
first_of-shared :
    (k : String) (a b : Fields)
    → or_undefined (first_of k (obj (or_entries a b)) (obj (or_entries b a)))
      ≡ or_undefined (first_of k (obj a) (obj b))
unfolding lookup
first_of-shared k end end = refl
first_of-shared k end (field j v fs) =
    let l = lookup k (field j v fs) in ap or_undefined (if-same (is_nullish l) l)
first_of-shared k (field i u gs) end =
    let l = lookup k (field i u gs) in
    ap or_undefined (if-same (is_nullish l) l) ∙ sym (nullish_or_undefined l)
first_of-shared k (field i u gs) (field j v fs) = refl

or_undefined-object_or_undefined :
    (v : Value) → or_undefined (object_or_undefined v) ≡ object_or_undefined (or_undefined v)
or_undefined-object_or_undefined undefined = refl
or_undefined-object_or_undefined null = refl
or_undefined-object_or_undefined (bool b) = refl
or_undefined-object_or_undefined (num n) = refl
or_undefined-object_or_undefined (str s) = refl
or_undefined-object_or_undefined (arr xs) = refl
or_undefined-object_or_undefined (obj fs) = refl
or_undefined-object_or_undefined (func s) = refl

first_of-entries :
    (k : String) (v w : Value) → first_of k (obj (entries v)) (obj (entries w)) ≡ first_of k v w
first_of-entries k v w = rw (get-entries k v, get-entries k w) refl

same_target :
    (k : String) (v w : Value)
    → or_undefined (
        object_or_undefined (
          first_of k
            (obj (or_entries (entries v) (entries w)))
            (obj (or_entries (entries w) (entries v)))))
      ≡ or_undefined (object_or_undefined (first_of k v w))
same_target k v w =
    or_undefined-object_or_undefined (
      first_of k (obj (or_entries (entries v) (entries w)))
        (obj (or_entries (entries w) (entries v))))
    ∙ ap object_or_undefined
        (first_of-shared k (entries v) (entries w) ∙ ap or_undefined (first_of-entries k v w))
    ∙ sym (or_undefined-object_or_undefined (first_of k v w))

-- A reference means the same in the shared definitions as in the given ones, where null is as good as
-- nothing.
pub resolve_ref-with_shared_definitions :
    (ref : String) (schema : Fields) (d : DefinitionCollections)
    → or_undefined
        (resolve_ref ref (some (collect_definition_collections (with_shared_definitions schema d))))
      ≡ or_undefined (resolve_ref ref (some d))
unfolding resolve_ref
resolve_ref-with_shared_definitions ref schema d =
    ap (λ (c : DefinitionCollections). or_undefined (resolve_ref ref (some c)))
      (collect_definition_collections-shared schema d)
    ∙ elim (Option-cases (match_ref ref)) [
      | inl m ↦ rw (m, resolve_ref) refl
      | inr ((true, k), m) ↦ rw (m, resolve_ref) (same_target k d.defs d.definitions)
      | inr ((false, k), m) ↦ rw (m, resolve_ref) (same_target k d.definitions d.defs)
    ]
