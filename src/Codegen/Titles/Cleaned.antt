-- ===== src/Codegen/Titles/Cleaned.antt =====
-- What cloning and stripping leave of a schema.
use copilot_sdk_swift.Prelude.{
  String, ◌≡◌, refl, ap, ◌∙◌, Bool, false, ◌==◌, ◌&&◌, ◌||◌, not, if◌then◌else◌, arith, inl, inr,
  Bool-cases, eq_iff,
}
use copilot_sdk_swift.Js.Value.{
  Value, undefined, null, bool, num, str, arr, obj, func, Items, nil, cons, Fields, end, field,
  lookup,
}
use copilot_sdk_swift.Session.Tasks.{is_text}
use copilot_sdk_swift.Session.Ui.{get_field_or_undefined}
use copilot_sdk_swift.Codegen.Titles.{
  clone_schema_for_codegen, clone_items, clone_fields, strip_non_annotation_titles, strip_fields,
  keep_title, occurs, occurs_items, occurs_fields,
}

mutual
  unfolding clone_schema_for_codegen occurs

  occurs-clone : (v : Value) → occurs "titleSource" (clone_schema_for_codegen v) ≡ false
  occurs-clone undefined = refl
  occurs-clone null = refl
  occurs-clone (bool b) = refl
  occurs-clone (num n) = refl
  occurs-clone (str s) = refl
  occurs-clone (arr xs) = occurs-clone_items xs
  occurs-clone (obj fs) = occurs-clone_fields fs
  occurs-clone (func s) = refl

  occurs-clone_items : (xs : Items) → occurs_items "titleSource" (clone_items xs) ≡ false
  occurs-clone_items nil = refl
  occurs-clone_items (cons v vs) = ground (arith, occurs-clone v, occurs-clone_items vs)

  occurs-clone_fields : (fs : Fields) → occurs_fields "titleSource" (clone_fields fs) ≡ false
  occurs-clone_fields end = refl
  occurs-clone_fields (field k v fs) = ground (arith, occurs-clone v, occurs-clone_fields fs)

mutual
  unfolding clone_schema_for_codegen occurs

  clone-same : (v : Value) → occurs "titleSource" v ≡ false → clone_schema_for_codegen v ≡ v
  clone-same undefined h = refl
  clone-same null h = refl
  clone-same (bool b) h = refl
  clone-same (num n) h = refl
  clone-same (str s) h = refl
  clone-same (arr xs) h = ap arr (clone_items-same xs h)
  clone-same (obj fs) h = ap obj (clone_fields-same fs h)
  clone-same (func s) h = refl

  clone_items-same : (xs : Items) → occurs_items "titleSource" xs ≡ false → clone_items xs ≡ xs
  clone_items-same nil h = refl
  clone_items-same (cons v vs) h = ground (arith, clone-same v, clone_items-same vs, h)

  clone_fields-same : (fs : Fields) → occurs_fields "titleSource" fs ≡ false → clone_fields fs ≡ fs
  clone_fields-same end h = refl
  clone_fields-same (field k v fs) h = ground (arith, clone-same v, clone_fields-same fs, h)

-- No "titleSource" is left anywhere in a clone, and a value without one is its own clone.
pub clone_schema_for_codegen-cleans :
    (v : Value)
    → (occurs "titleSource" (clone_schema_for_codegen v) ≡ false)
      × (occurs "titleSource" v ≡ false → clone_schema_for_codegen v ≡ v)
clone_schema_for_codegen-cleans v = (occurs-clone v, clone-same v)

abbrev pub dropped : String → Bool → Bool
dropped k keep = k == "titleSource" || (k == "title" && not keep)

lookup-strip_fields :
    (k : String) (keep : Bool) (fs : Fields)
    → lookup k (strip_fields keep fs)
      ≡ (if dropped k keep then undefined else strip_non_annotation_titles (lookup k fs))
unfolding lookup strip_non_annotation_titles
lookup-strip_fields k keep end = ground arith
lookup-strip_fields k keep (field j v fs) = elim (Bool-cases (j == k)) [
  | inr e ↦ ground (arith, e, lookup-strip_fields k keep fs)
  | inl e ↦
      let same = (eq_iff j k).0 e in
      elim (Bool-cases (dropped k keep)) [
        | inl d ↦ ground (arith, e, same, d, lookup-strip_fields k keep fs)
        | inr d ↦ ground (arith, e, same, d)
      ]
]

-- A stripped object has a title exactly if it had an annotated one, which is then its own, no title source,
-- and for each other key what stripping makes of the value.
pub strip_non_annotation_titles-keys :
    (k : String) (fs : Fields)
    → get_field_or_undefined k (strip_non_annotation_titles (obj fs))
      ≡ (if dropped k (keep_title fs) then undefined else strip_non_annotation_titles (lookup k fs))
unfolding strip_non_annotation_titles
strip_non_annotation_titles-keys k fs = lookup-strip_fields k (keep_title fs) fs

-- Where the properties of an object schema have one named "title", stripping loses it: the properties of
-- the stripped schema have none, unless the values of "title" and "titleSource" there are texts.
pub strip_non_annotation_titles_loses_property :
    (fs props : Fields)
    → lookup "properties" fs ≡ obj props
    → is_text (lookup "title" props) ≡ false
    → get_field_or_undefined "title"
        (get_field_or_undefined "properties" (strip_non_annotation_titles (obj fs)))
      ≡ undefined
unfolding strip_non_annotation_titles
strip_non_annotation_titles_loses_property fs props h t =
    ap (get_field_or_undefined "title")
      (lookup-strip_fields "properties" (keep_title fs) fs ∙ ap strip_non_annotation_titles h)
    ∙ lookup-strip_fields "title" (keep_title props) props
    ∙ ground (arith, t)
