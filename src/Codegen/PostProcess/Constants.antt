-- ===== src/Codegen/PostProcess/Constants.antt =====
-- Where a schema has boolean constants, and how the writes to an object change that.
use copilot_sdk_swift.Prelude.{
  among, if◌then◌else◌, [], ◌∷◌, String, ◌≡◌, refl, sym, ap, ◌∙◌, Bool, true, false, ◌||◌, ◌==◌,
  arith, inl, inr, Bool-cases, eq_iff,
}
use copilot_sdk_swift.Js.Value.{
  Value, undefined, null, bool, num, str, arr, obj, func, Items, nil, cons, Fields, end, field,
  lookup,
}
use copilot_sdk_swift.Js.Object.{put, remove}
use copilot_sdk_swift.Codegen.Hoist.{Part, one, named, one_or_list, list, nothing}
use copilot_sdk_swift.Codegen.PostProcess.{processed_part}

abbrev pub is_boolean : Value → Bool
is_boolean (bool b) = true
is_boolean _ = false

-- The keywords of a schema whose values are searched.
abbrev keyword_part : String → Part
keyword_part k =
    if among k ("properties" ∷ "definitions" ∷ "$defs" ∷ [])
    then named
    else if among k ("items" ∷ [])
    then one_or_list
    else if among k ("additionalProperties" ∷ [])
    then one
    else if among k ("anyOf" ∷ "allOf" ∷ "oneOf" ∷ [])
    then list
    else nothing

-- Whether a schema there, or one inside of it, has a boolean as its `const`.
unfoldable mutual
  unfolding lookup

  pub has_boolean : Part → Value → Bool
  has_boolean p undefined = false
  has_boolean p null = false
  has_boolean p (bool b) = false
  has_boolean p (num n) = false
  has_boolean p (str s) = false
  has_boolean p (func source) = false
  has_boolean one (obj fs) = is_boolean (lookup "const" fs) || boolean_in_parts fs
  has_boolean one_or_list (obj fs) = is_boolean (lookup "const" fs) || boolean_in_parts fs
  has_boolean named (obj fs) = boolean_in_entries fs
  has_boolean list (obj fs) = false
  has_boolean nothing (obj fs) = false
  has_boolean one (arr xs) = false
  has_boolean named (arr xs) = false
  has_boolean nothing (arr xs) = false
  has_boolean one_or_list (arr xs) = boolean_in_items xs
  has_boolean list (arr xs) = boolean_in_items xs

  pub boolean_in_parts : Fields → Bool
  boolean_in_parts end = false
  boolean_in_parts (field k v fs) = has_boolean (keyword_part k) v || boolean_in_parts fs

  pub boolean_in_entries : Fields → Bool
  boolean_in_entries end = false
  boolean_in_entries (field k v fs) = has_boolean one v || boolean_in_entries fs

  pub boolean_in_items : Items → Bool
  boolean_in_items nil = false
  boolean_in_items (cons v vs) = has_boolean one v || boolean_in_items vs

-- These are the parts that are processed.
keyword_part-processed_part : (k : String) → keyword_part k ≡ processed_part k
keyword_part-processed_part k = refl

pub boolean_in_parts-field :
    (k : String) (v : Value) (fs : Fields)
    → boolean_in_parts (field k v fs) ≡ has_boolean (processed_part k) v || boolean_in_parts fs
unfolding has_boolean
boolean_in_parts-field k v fs =
    ap (λ p. has_boolean p v || boolean_in_parts fs) (keyword_part-processed_part k)

pub boolean_in_parts-put :
    (k : String) (v : Value) (fs : Fields)
    → has_boolean (processed_part k) v ≡ false
    → boolean_in_parts fs ≡ false
    → boolean_in_parts (put k v fs) ≡ false
unfolding put has_boolean
boolean_in_parts-put k v end h n = ground (arith, h)
boolean_in_parts-put k v (field j w fs) h n = elim (Bool-cases (j == k)) [
  | inl e ↦
      let here = ap (λ (i : String). has_boolean (processed_part i) v) ((eq_iff j k).0 e) ∙ h in
      rw e (ground (arith, here, n))
  | inr e ↦ rw e (ground (arith, h, n, boolean_in_parts-put k v fs))
]

pub boolean_in_parts-remove :
    (k : String) (fs : Fields)
    → boolean_in_parts fs ≡ false
    → boolean_in_parts (remove k fs) ≡ false
unfolding remove has_boolean
boolean_in_parts-remove k end n = refl
boolean_in_parts-remove k (field j w fs) n = elim (Bool-cases (j == k)) [
  | inl e ↦ rw e (ground (arith, n, boolean_in_parts-remove k fs))
  | inr e ↦ rw e (ground (arith, n, boolean_in_parts-remove k fs))
]

pub boolean_in_parts-lookup :
    (k : String) (fs : Fields)
    → boolean_in_parts fs ≡ false
    → has_boolean (processed_part k) (lookup k fs) ≡ false
unfolding lookup has_boolean
boolean_in_parts-lookup k end n = refl
boolean_in_parts-lookup k (field j v fs) n = elim (Bool-cases (j == k)) [
  | inl e ↦
      let here : has_boolean (processed_part j) v ≡ false = ground (arith, n) in
      rw e (sym (ap (λ (i : String). has_boolean (processed_part i) v) ((eq_iff j k).0 e)) ∙ here)
  | inr e ↦ rw e (boolean_in_parts-lookup k fs (ground (arith, n)))
]
