-- ===== src/Codegen/TypeScript/Rewritten.antt =====
-- What `normalizeSchemaForTypeScript` makes of definitions and references.
use copilot_sdk_swift.Prelude.{
  String, ◌≡◌, refl, ap, ◌∙◌, Bool, true, false, ◌||◌, ◌==◌, some, is_some, arith, inl, inr,
  Bool-cases, Option-cases, ◌+++◌,
}
use copilot_sdk_swift.Js.Value.{
  Value, undefined, null, bool, num, str, arr, obj, func, Items, nil, cons, Fields, end, field,
  lookup, has,
}
use copilot_sdk_swift.Js.JsMap
use copilot_sdk_swift.Js.JsMap.{JsMap}
use copilot_sdk_swift.Js.Object.{put, remove, lookup-put}
use copilot_sdk_swift.Session.Ui.{get_field_or_undefined}
use copilot_sdk_swift.Client.Options.{chars}
use copilot_sdk_swift.Codegen.Refs.{behind}
use copilot_sdk_swift.Codegen.Refs.Chars.{chars-append, text-chars}
use copilot_sdk_swift.Codegen.Definitions.{entries}
use copilot_sdk_swift.Codegen.TypeScript.{
  alias_of, normalize_schema_for_type_script, rewrite, rewrite_items, rewrite_fields, rewrite_ref,
}
use copilot_sdk_swift.Codegen.TypeScript.Aliases.{distinct, HasAlias, add_aliases-Extends}

-- A reference to $defs.
abbrev is_draft_ref : Value → Bool
is_draft_ref (str ref) = is_some (behind (chars "#/$defs/") (chars ref))
is_draft_ref _ = false

-- Whether an object anywhere in a value has such a `$ref`.
unfoldable mutual
  unfolding lookup behind

  pub has_draft_ref : Value → Bool
  has_draft_ref undefined = false
  has_draft_ref null = false
  has_draft_ref (bool b) = false
  has_draft_ref (num n) = false
  has_draft_ref (str s) = false
  has_draft_ref (arr xs) = draft_ref_in_items xs
  has_draft_ref (obj fs) = is_draft_ref (lookup "$ref" fs) || draft_ref_in_fields fs
  has_draft_ref (func source) = false

  draft_ref_in_items : Items → Bool
  draft_ref_in_items nil = false
  draft_ref_in_items (cons v vs) = has_draft_ref v || draft_ref_in_items vs

  draft_ref_in_fields : Fields → Bool
  draft_ref_in_fields end = false
  draft_ref_in_fields (field k v fs) = has_draft_ref v || draft_ref_in_fields fs

draft_ref_in_fields-put :
    (k s : String) (fs : Fields)
    → draft_ref_in_fields fs ≡ false
    → draft_ref_in_fields (put k (str s) fs) ≡ false
unfolding put has_draft_ref
draft_ref_in_fields-put k s end n = refl
draft_ref_in_fields-put k s (field j w fs) n = elim (Bool-cases (j == k)) [
  | inl e ↦ rw e (ground (arith, n))
  | inr e ↦ rw e (ground (arith, n, draft_ref_in_fields-put k s fs))
]

legacy_ref : (k : String) → is_draft_ref (str ("#/definitions/" +++ k)) ≡ false
unfolding behind
legacy_ref k = ap (λ cs. is_some (behind (chars "#/$defs/") cs)) (chars-append "#/definitions/" k)

draft_key : (k : String) → behind (chars "#/$defs/") (chars ("#/$defs/" +++ k)) ≡ some (chars k)
unfolding behind
draft_key k = ap (behind (chars "#/$defs/")) (chars-append "#/$defs/" k)

module _ (aliases : JsMap String) where
  rewrite_ref-clean :
      (fs : Fields)
      → draft_ref_in_fields fs ≡ false
      → has_draft_ref (obj (rewrite_ref aliases fs)) ≡ false
  unfolding rewrite_ref has_draft_ref
  rewrite_ref-clean fs n = go (lookup "$ref" fs) refl
    where
      as_it_is :
          (v : Value)
          → lookup "$ref" fs ≡ v
          → is_draft_ref v ≡ false
          → has_draft_ref (obj fs) ≡ false
      as_it_is v e h = let own = ap is_draft_ref e ∙ h in ground (arith, own, n)

      changed :
          (t : String) → has_draft_ref (obj (put "$ref" (str ("#/definitions/" +++ t)) fs)) ≡ false
      changed t =
          let s = str ("#/definitions/" +++ t) in
          let own : is_draft_ref (lookup "$ref" (put "$ref" s fs)) ≡ false =
            ap is_draft_ref (lookup-put "$ref" "$ref" s fs) ∙ legacy_ref t in
          ground (arith, own, draft_ref_in_fields-put "$ref" ("#/definitions/" +++ t) fs n)

      go : (v : Value) → lookup "$ref" fs ≡ v → has_draft_ref (obj (rewrite_ref aliases fs)) ≡ false
      go (str ref) e = elim (Option-cases (behind (chars "#/$defs/") (chars ref))) [
        | inl b ↦ rw (e, rewrite_ref, b) (as_it_is (str ref) e (ap is_some b))
        | inr (name, b) ↦ rw (e, rewrite_ref, b) (changed _)
      ]
      go undefined e = rw (e, rewrite_ref) (as_it_is undefined e refl)
      go null e = rw (e, rewrite_ref) (as_it_is null e refl)
      go (bool b) e = rw (e, rewrite_ref) (as_it_is (bool b) e refl)
      go (num m) e = rw (e, rewrite_ref) (as_it_is (num m) e refl)
      go (arr xs) e = rw (e, rewrite_ref) (as_it_is (arr xs) e refl)
      go (obj gs) e = rw (e, rewrite_ref) (as_it_is (obj gs) e refl)
      go (func c) e = rw (e, rewrite_ref) (as_it_is (func c) e refl)

  mutual
    unfolding rewrite has_draft_ref

    rewrite-clean : (v : Value) → has_draft_ref (rewrite aliases v) ≡ false
    rewrite-clean undefined = refl
    rewrite-clean null = refl
    rewrite-clean (bool b) = refl
    rewrite-clean (num n) = refl
    rewrite-clean (str s) = refl
    rewrite-clean (arr xs) = rewrite_items-clean xs
    rewrite-clean (obj fs) = rewrite_ref-clean (rewrite_fields aliases fs) (rewrite_fields-clean fs)
    rewrite-clean (func s) = refl

    rewrite_items-clean : (xs : Items) → draft_ref_in_items (rewrite_items aliases xs) ≡ false
    rewrite_items-clean nil = refl
    rewrite_items-clean (cons v vs) = rw (rewrite-clean v) (rewrite_items-clean vs)

    rewrite_fields-clean : (fs : Fields) → draft_ref_in_fields (rewrite_fields aliases fs) ≡ false
    rewrite_fields-clean end = refl
    rewrite_fields-clean (field k v fs) = rw (rewrite-clean v) (rewrite_fields-clean fs)

  lookup-rewrite_fields :
      (k : String) (fs : Fields)
      → lookup k (rewrite_fields aliases fs) ≡ rewrite aliases (lookup k fs)
  unfolding lookup rewrite
  lookup-rewrite_fields k end = refl
  lookup-rewrite_fields k (field j v fs) = elim (Bool-cases (j == k)) [
    | inl e ↦ rw e refl
    | inr e ↦ rw e (lookup-rewrite_fields k fs)
  ]

  -- A reference to an entry of $defs becomes one to the definition that stands under its alias.
  rewrite-aliased :
      (k a : String) (fs : Fields)
      → lookup "$ref" fs ≡ str ("#/$defs/" +++ k)
      → JsMap.get k aliases ≡ some a
      → get_field_or_undefined "$ref" (rewrite aliases (obj fs)) ≡ str ("#/definitions/" +++ a)
  unfolding rewrite rewrite_ref
  rewrite-aliased k a fs r g =
      let gs = rewrite_fields aliases fs in
      let found : lookup "$ref" gs ≡ str ("#/$defs/" +++ k) =
        lookup-rewrite_fields "$ref" fs ∙ ap (rewrite aliases) r in
      rw (found, rewrite_ref, draft_key k, text-chars k, g, alias_of)
        (lookup-put "$ref" "$ref" (str ("#/definitions/" +++ a)) gs)

-- normalizeSchemaForTypeScript ends for every schema whose $defs have different keys: its search for free
-- names does. Nothing in what it returns refers to $defs. It is the rewriting of the schema without $defs
-- and with definitions: each that the schema had stands under its name, each of $defs stands under an alias
-- that none of those had, and a reference to one of $defs becomes one to its alias.
pub normalize_schema_for_type_script-ends :
    (root : Fields)
    → distinct (entries (lookup "$defs" root)) ≡ true
    → (result : Value) × (definitions : Fields) × (aliases : JsMap String)
      × (normalize_schema_for_type_script root ≡ some result)
      × (has_draft_ref result ≡ false)
      × (result ≡ rewrite aliases (obj (remove "$defs" (put "definitions" (obj definitions) root))))
      × ((k : String)
          → has k (entries (lookup "definitions" root)) ≡ true
          → lookup k definitions ≡ lookup k (entries (lookup "definitions" root)))
      × ((k : String)
          → has k (entries (lookup "$defs" root)) ≡ true
          → HasAlias k
              (entries (lookup "$defs" root))
              (entries (lookup "definitions" root))
              definitions
              aliases)
      × ((k a : String) (fs : Fields)
          → lookup "$ref" fs ≡ str ("#/$defs/" +++ k)
          → JsMap.get k aliases ≡ some a
          → get_field_or_undefined "$ref" (rewrite aliases (obj fs)) ≡ str ("#/definitions/" +++ a))
unfolding normalize_schema_for_type_script
normalize_schema_for_type_script-ends root d =
    let (definitions, aliases, added, ext, named) =
      add_aliases-Extends (entries (lookup "$defs" root)) (entries (lookup "definitions" root))
        JsMap.empty in
    let out = obj (remove "$defs" (put "definitions" (obj definitions) root)) in
    (
      rewrite aliases out,
      definitions,
      aliases,
      rw (added, normalize_schema_for_type_script) refl,
      rewrite-clean aliases out,
      refl,
      λ k h. (ext.kept k h).1,
      named.named d,
      rewrite-aliased aliases,
    )
