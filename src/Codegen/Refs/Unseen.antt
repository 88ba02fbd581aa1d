-- ===== src/Codegen/Refs/Unseen.antt =====
-- The references in definitions, and how many of them the loop of `resolveSchema` has not seen yet.
use copilot_sdk_swift.Prelude.{
  ℕ, suc, ◌+◌, ◌≤◌, ◌<◌, String, ◌≡◌, refl, sym, ap, ◌∙◌, true, false, ◌||◌, Option, none, some,
  List, [], ◌∷◌, ◌++◌, ◌==◌, if◌then◌else◌, arith, inl, inr, Bool-cases, Option-cases, eq_iff,
  eq_refl, length, length-append, if-true, if-false,
}
use copilot_sdk_swift.Js.Value.{
  Value, undefined, null, bool, num, str, arr, func, obj, Fields, end, field, lookup, is_nullish,
}
use copilot_sdk_swift.Session.Ui.{get_field_or_undefined}
use copilot_sdk_swift.Codegen.Refs.{
  object_or_undefined, first_of, match_ref, DefinitionCollections, resolve_ref, ref_of, is_seen,
  count, count_of, ref_fuel,
}

-- The references that stand in definitions.
unfoldable pub refs_in : Fields → List String
refs_in end = []
refs_in (field k v fs) = elim (ref_of v) [ none ↦ refs_in fs | some r ↦ r ∷ refs_in fs ]

unfoldable pub refs_in_value : Value → List String
unfolding refs_in
refs_in_value (obj fs) = refs_in fs
refs_in_value _ = []

-- How many of some references are not seen yet.
unfoldable pub unseen : List String → List String → ℕ
unseen [] seen = 0
unseen (r ∷ rs) seen = (if is_seen r seen then 0 else 1) + unseen rs seen

pub unseen-more : (rs seen : List String) (r : String) → unseen rs (r ∷ seen) ≤ unseen rs seen
unfolding unseen is_seen
unseen-more [] seen r = omega arith
unseen-more (s ∷ rs) seen r = elim (Bool-cases (is_seen s seen)) [
  | inl b ↦ ground (arith, b, unseen-more rs seen r)
  | inr b ↦ elim (Bool-cases (r == s)) [
    | inl e ↦ ground (arith, b, e, unseen-more rs seen r)
    | inr e ↦ ground (arith, b, e, unseen-more rs seen r)
  ]
]

pub unseen-fewer :
    (rs seen : List String) (r : String)
    → is_seen r rs ≡ true
    → is_seen r seen ≡ false
    → unseen rs (r ∷ seen) < unseen rs seen
unfolding unseen is_seen
unseen-fewer [] seen r h n = absurd (cc h)
unseen-fewer (s ∷ rs) seen r h n = elim (Bool-cases (s == r)) [
  | inl e ↦ let same = (eq_iff s r).0 e in ground (arith, same, n, eq_refl r, unseen-more rs seen r)
  | inr e ↦ elim (Bool-cases (is_seen s seen)) [
    | inl b ↦ ground (arith, h, e, b, n, unseen-fewer rs seen r)
    | inr b ↦ elim (Bool-cases (r == s)) [
      | inl x ↦ ground (arith, b, x, unseen-more rs seen r)
      | inr x ↦ ground (arith, h, e, b, x, n, unseen-fewer rs seen r)
    ]
  ]
]

pub length-unseen : (rs seen : List String) → unseen rs seen ≤ length rs
unfolding unseen
length-unseen [] seen = omega arith
length-unseen (r ∷ rs) seen = elim (Bool-cases (is_seen r seen)) [
  | inl b ↦ ground (arith, b, length-unseen rs seen)
  | inr b ↦ ground (arith, b, length-unseen rs seen)
]

pub is_seen-append :
    (r : String) (xs ys : List String) → is_seen r (xs ++ ys) ≡ (is_seen r xs || is_seen r ys)
unfolding is_seen
is_seen-append r [] ys = refl
is_seen-append r (x ∷ xs) ys = ground (arith, is_seen-append r xs ys)

length-refs_in : (fs : Fields) → length (refs_in fs) ≤ count fs
unfolding refs_in count
length-refs_in end = omega arith
length-refs_in (field k v fs) = elim (Option-cases (ref_of v)) [
  | inl e ↦ ground (arith, e, length-refs_in fs)
  | inr (r, e) ↦ ground (arith, e, length-refs_in fs)
]

pub length-refs_in_value : (v : Value) → length (refs_in_value v) ≤ count_of v
unfolding refs_in_value
length-refs_in_value undefined = omega arith
length-refs_in_value null = omega arith
length-refs_in_value (bool b) = omega arith
length-refs_in_value (num n) = omega arith
length-refs_in_value (str s) = omega arith
length-refs_in_value (arr xs) = omega arith
length-refs_in_value (obj fs) = length-refs_in fs
length-refs_in_value (func s) = omega arith

pub ref_of-lookup :
    (k : String) (fs : Fields) (r : String)
    → ref_of (lookup k fs) ≡ some r
    → is_seen r (refs_in fs) ≡ true
unfolding lookup refs_in is_seen ref_of
ref_of-lookup k end r h = absurd (cc h)
ref_of-lookup k (field j v fs) r h = elim (Bool-cases (j == k)) [
  | inl e ↦ let here : ref_of v ≡ some r = ground (arith, e, h) in ground (arith, here, eq_refl r)
  | inr e ↦ elim (Option-cases (ref_of v)) [
    | inl n ↦ ground (arith, n, e, h, ref_of-lookup k fs r)
    | inr (s, m) ↦ ground (arith, m, e, h, ref_of-lookup k fs r)
  ]
]

pub ref_of-object_or_undefined :
    (v : Value) (r : String) → ref_of (object_or_undefined v) ≡ some r → ref_of v ≡ some r
unfolding ref_of
ref_of-object_or_undefined undefined r h = h
ref_of-object_or_undefined null r h = h
ref_of-object_or_undefined (bool b) r h = h
ref_of-object_or_undefined (num n) r h = h
ref_of-object_or_undefined (str s) r h = h
ref_of-object_or_undefined (arr xs) r h = h
ref_of-object_or_undefined (obj fs) r h = h
ref_of-object_or_undefined (func s) r h = h

ref_of-get :
    (k : String) (v : Value) (r : String)
    → ref_of (get_field_or_undefined k v) ≡ some r
    → is_seen r (refs_in_value v) ≡ true
unfolding refs_in_value ref_of
ref_of-get k undefined r h = absurd (cc h)
ref_of-get k null r h = absurd (cc h)
ref_of-get k (bool b) r h = absurd (cc h)
ref_of-get k (num n) r h = absurd (cc h)
ref_of-get k (str s) r h = absurd (cc h)
ref_of-get k (arr xs) r h = absurd (cc h)
ref_of-get k (obj fs) r h = ref_of-lookup k fs r h
ref_of-get k (func s) r h = absurd (cc h)

ref_of-first_of :
    (k : String) (v w : Value) (r : String)
    → ref_of (first_of k v w) ≡ some r
    → (is_seen r (refs_in_value v) || is_seen r (refs_in_value w)) ≡ true
ref_of-first_of k v w r h = elim (Bool-cases (is_nullish (get_field_or_undefined k v))) [
  | inl b ↦ ground (arith, ref_of-get k w r (ap ref_of (sym (if-true _ _ _ b)) ∙ h))
  | inr b ↦ ground (arith, ref_of-get k v r (ap ref_of (sym (if-false _ _ _ b)) ∙ h))
]

abbrev pub known_refs : Option DefinitionCollections → List String
known_refs none = []
known_refs (some d) = refs_in_value d.definitions ++ refs_in_value d.defs

-- A resolved reference leads to a value whose own reference stands in the definitions.
pub ref_of-resolve_ref :
    (ref : String) (d : Option DefinitionCollections) (r : String)
    → ref_of (resolve_ref ref d) ≡ some r
    → is_seen r (known_refs d) ≡ true
unfolding resolve_ref ref_of
ref_of-resolve_ref ref none r h = absurd (cc h)
ref_of-resolve_ref ref (some d) r h =
    is_seen-append r (refs_in_value d.definitions) (refs_in_value d.defs)
    ∙ elim (Option-cases (match_ref ref)) [
      | inl m ↦ absurd (ground (arith, m, h))
      | inr ((true, k), m) ↦
          let to : Value = first_of k d.defs d.definitions in
          let same : resolve_ref ref (some d) ≡ object_or_undefined to = rw (m, resolve_ref) refl in
          let found =
            ref_of-first_of k d.defs d.definitions r
              (ref_of-object_or_undefined to r (ap ref_of (sym same) ∙ h)) in
          ground (arith, found)
      | inr ((false, k), m) ↦
          let to : Value = first_of k d.definitions d.defs in
          let same : resolve_ref ref (some d) ≡ object_or_undefined to = rw (m, resolve_ref) refl in
          let found =
            ref_of-first_of k d.definitions d.defs r
              (ref_of-object_or_undefined to r (ap ref_of (sym same) ∙ h)) in
          ground (arith, found)
    ]

pub length-known_refs :
    (d : Option DefinitionCollections) → suc (suc (length (known_refs d))) ≤ ref_fuel d
unfolding ref_fuel
length-known_refs none = omega arith
length-known_refs (some d) = omega (
  arith,
  length-append (refs_in_value d.definitions) (refs_in_value d.defs),
  length-refs_in_value d.definitions,
  length-refs_in_value d.defs,
)
