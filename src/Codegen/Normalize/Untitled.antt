-- ===== src/Codegen/Normalize/Untitled.antt =====
-- What normalizing removes, and what it keeps.
use copilot_sdk_swift.Prelude.{
  ℕ, suc, String, ◌≡◌, refl, sym, ap, ◌∙◌, true, false, ◌==◌, if◌then◌else◌, arith, inl, inr,
  Bool-cases, eq_iff,
}
use copilot_sdk_swift.Js.Value.{
  Value, undefined, null, bool, num, str, arr, obj, func, Items, nil, cons, Fields, end, field, has,
  decimal,
}
use copilot_sdk_swift.Codegen.Methods.{is_rpc_method}
use copilot_sdk_swift.Codegen.Normalize.{
  Place, schema, schemas, schema_or_list, schema_list, data_only, node, method, whole_api, child,
  element, drops, is_title, normalize, normalize_entries, normalize_items, normalize_fields,
  normalize_api_schema,
}
use copilot_sdk_swift.Codegen.Normalize.Indices.{decimal_no_method}
use copilot_sdk_swift.Codegen.Normalize.Places.{
  inner, inside, bears_title, titled, titled_items, titled_fields, inner-child, bears_title-drops,
}

drops-is_title : (p : Place) (k : String) → drops p k ≡ true → is_title k ≡ true
drops-is_title schema k h = h
drops-is_title schemas k h = absurd (cc h)
drops-is_title schema_or_list k h = h
drops-is_title schema_list k h = absurd (cc h)
drops-is_title data_only k h = absurd (cc h)
drops-is_title node k h = absurd (cc h)
drops-is_title method k h = absurd (cc h)
drops-is_title whole_api k h = absurd (cc h)

is_title-other : (k n : String) → is_title k ≡ true → is_title n ≡ false → k == n ≡ false
is_title-other k n h m = elim (Bool-cases (k == n)) [
  | inl e ↦ absurd (cc (sym h ∙ ap (λ (j : String). is_title j) ((eq_iff k n).0 e) ∙ m))
  | inr e ↦ e
]

-- A method stays a method.
has-normalize_fields :
    (p : Place) (fs : Fields) → has "rpcMethod" (normalize_fields p fs) ≡ has "rpcMethod" fs
unfolding has normalize
has-normalize_fields p end = refl
has-normalize_fields p (field k v fs) = elim (Bool-cases (drops p k)) [
  | inl b ↦ ground (
    arith,
    b,
    is_title-other k "rpcMethod" (drops-is_title p k b) refl,
    has-normalize_fields p fs,
  )
  | inr b ↦ rw b (ground (arith, has-normalize_fields p fs))
]

has-normalize_entries :
    (p : Place) (i : ℕ) (xs : Items) → has "rpcMethod" (normalize_entries p i xs) ≡ false
unfolding has normalize
has-normalize_entries p i nil = refl
has-normalize_entries p i (cons v vs) =
    ground (arith, decimal_no_method i, has-normalize_entries p (suc i) vs)

is_rpc_method-normalize : (p : Place) (v : Value) → is_rpc_method (normalize p v) ≡ is_rpc_method v
unfolding is_rpc_method normalize
is_rpc_method-normalize p undefined = refl
is_rpc_method-normalize p null = refl
is_rpc_method-normalize p (bool b) = refl
is_rpc_method-normalize p (num n) = refl
is_rpc_method-normalize p (str s) = refl
is_rpc_method-normalize schemas (arr xs) = has-normalize_entries schemas 0 xs
is_rpc_method-normalize node (arr xs) = has-normalize_entries node 0 xs
is_rpc_method-normalize schema (arr xs) = refl
is_rpc_method-normalize schema_or_list (arr xs) = refl
is_rpc_method-normalize schema_list (arr xs) = refl
is_rpc_method-normalize data_only (arr xs) = refl
is_rpc_method-normalize method (arr xs) = refl
is_rpc_method-normalize whole_api (arr xs) = refl
is_rpc_method-normalize p (obj fs) = has-normalize_fields p fs
is_rpc_method-normalize p (func s) = refl

child-normalize : (p q : Place) (k : String) (v : Value) → child p k (normalize q v) ≡ child p k v
child-normalize schema q k v = refl
child-normalize schemas q k v = refl
child-normalize schema_or_list q k v = refl
child-normalize schema_list q k v = refl
child-normalize data_only q k v = refl
child-normalize node q k v = ap (λ b. if b then method else node) (is_rpc_method-normalize q v)
child-normalize method q k v = refl
child-normalize whole_api q k v = refl

-- A value where it was put is clean if its own place is.
titled-inner :
    (p : Place) (k : String) (v : Value)
    → titled (child p k v) (normalize (child p k v) v) ≡ false
    → titled (inner p k (normalize (child p k v) v)) (normalize (child p k v) v) ≡ false
titled-inner p k v h =
    let w = normalize (child p k v) v in
    ap (λ q. titled q w) (inner-child p k w ∙ child-normalize p (child p k v) k v) ∙ h

mutual
  unfolding normalize titled

  titled-normalize : (p : Place) (v : Value) → titled p (normalize p v) ≡ false
  titled-normalize p undefined = refl
  titled-normalize p null = refl
  titled-normalize p (bool b) = refl
  titled-normalize p (num n) = refl
  titled-normalize p (str s) = refl
  titled-normalize schemas (arr xs) = titled-normalize_entries schemas (λ k. refl) 0 xs
  titled-normalize node (arr xs) = titled-normalize_entries node (λ k. refl) 0 xs
  titled-normalize schema (arr xs) = titled-normalize_items schema (λ v. refl) xs
  titled-normalize schema_or_list (arr xs) = titled-normalize_items schema_or_list (λ v. refl) xs
  titled-normalize schema_list (arr xs) = titled-normalize_items schema_list (λ v. refl) xs
  titled-normalize data_only (arr xs) = titled-normalize_items data_only (λ v. refl) xs
  titled-normalize method (arr xs) = titled-normalize_items method (λ v. refl) xs
  titled-normalize whole_api (arr xs) = titled-normalize_items whole_api (λ v. refl) xs
  titled-normalize p (obj fs) = titled-normalize_fields p fs
  titled-normalize p (func s) = refl

  titled-normalize_items :
      (p : Place)
      → ((v : Value) → inside p v ≡ element p)
      → (xs : Items) → titled_items p (normalize_items p xs) ≡ false
  titled-normalize_items p same nil = refl
  titled-normalize_items p same (cons v vs) =
      rw (same (normalize (element p) v), titled-normalize (element p) v)
        (titled-normalize_items p same vs)

  titled-normalize_entries :
      (p : Place)
      → ((k : String) → bears_title p k ≡ false)
      → (i : ℕ) (xs : Items) → titled_fields p (normalize_entries p i xs) ≡ false
  titled-normalize_entries p untitled i nil = refl
  titled-normalize_entries p untitled i (cons v vs) =
      let k = decimal i in
      rw (untitled k, titled-inner p k v (titled-normalize (child p k v) v))
        (titled-normalize_entries p untitled (suc i) vs)

  titled-normalize_fields :
      (p : Place) (fs : Fields) → titled_fields p (normalize_fields p fs) ≡ false
  titled-normalize_fields p end = refl
  titled-normalize_fields p (field k v fs) =
      let rest = titled-normalize_fields p fs in
      let deep = titled-inner p k v (titled-normalize (child p k v) v) in
      elim (Bool-cases (drops p k)) [
        | inl b ↦ rw b rest
        | inr b ↦ rw (b, bears_title-drops p k, b, deep) rest
      ]

mutual
  unfolding normalize

  normalize_twice : (p : Place) (v : Value) → normalize p (normalize p v) ≡ normalize p v
  normalize_twice p undefined = refl
  normalize_twice p null = refl
  normalize_twice p (bool b) = refl
  normalize_twice p (num n) = refl
  normalize_twice p (str s) = refl
  normalize_twice schemas (arr xs) = ap obj (normalize_entries_twice schemas (λ k. refl) 0 xs)
  normalize_twice node (arr xs) = ap obj (normalize_entries_twice node (λ k. refl) 0 xs)
  normalize_twice schema (arr xs) = ap arr (normalize_items_twice schema xs)
  normalize_twice schema_or_list (arr xs) = ap arr (normalize_items_twice schema_or_list xs)
  normalize_twice schema_list (arr xs) = ap arr (normalize_items_twice schema_list xs)
  normalize_twice data_only (arr xs) = ap arr (normalize_items_twice data_only xs)
  normalize_twice method (arr xs) = ap arr (normalize_items_twice method xs)
  normalize_twice whole_api (arr xs) = ap arr (normalize_items_twice whole_api xs)
  normalize_twice p (obj fs) = ap obj (normalize_fields_twice p fs)
  normalize_twice p (func s) = refl

  normalize_items_twice :
      (p : Place) (xs : Items) → normalize_items p (normalize_items p xs) ≡ normalize_items p xs
  normalize_items_twice p nil = refl
  normalize_items_twice p (cons v vs) =
      rw (normalize_twice (element p) v, normalize_items_twice p vs) refl

  normalize_entries_twice :
      (p : Place)
      → ((k : String) → drops p k ≡ false)
      → (i : ℕ) (xs : Items)
      → normalize_fields p (normalize_entries p i xs) ≡ normalize_entries p i xs
  normalize_entries_twice p kept i nil = refl
  normalize_entries_twice p kept i (cons v vs) =
      let k = decimal i in
      let q = child p k v in
      rw
        (
          kept k,
          child-normalize p q k v,
          normalize_twice q v,
          normalize_entries_twice p kept (suc i) vs,
        )
        refl

  normalize_fields_twice :
      (p : Place) (fs : Fields) → normalize_fields p (normalize_fields p fs) ≡ normalize_fields p fs
  normalize_fields_twice p end = refl
  normalize_fields_twice p (field k v fs) =
      let q = child p k v in
      elim (Bool-cases (drops p k)) [
        | inl b ↦ rw b (normalize_fields_twice p fs)
        | inr b ↦
            rw b (
              rw (b, child-normalize p q k v, normalize_twice q v, normalize_fields_twice p fs)
                refl)
      ]

-- A normalized API has no title and no title source in its definitions, in the parameters and results of
-- its methods, and in what these hold under properties, patternProperties, definitions, $defs, items,
-- anyOf, allOf, oneOf, additionalProperties, propertyNames, contains, not, if, then and else; and
-- normalizing it again changes nothing.
pub normalize_api_schema-cleans :
    (api : Value)
    → (titled whole_api (normalize_api_schema api) ≡ false)
      × (normalize_api_schema (normalize_api_schema api) ≡ normalize_api_schema api)
unfolding normalize_api_schema
normalize_api_schema-cleans api = (titled-normalize whole_api api, normalize_twice whole_api api)
