-- ===== src/Codegen/Sorted/Reordered.antt =====
-- `stableStringify` forgets the order of keys and the notes.
use copilot_sdk_swift.Prelude.{
  String, ◌≡◌, refl, ap, ◌∙◌, Bool, true, not, arith, inl, inr, Bool-cases,
}
use copilot_sdk_swift.Js.Value.{Value, arr, obj, Items, nil, cons, Fields, end, field}
use copilot_sdk_swift.Js.Stringify.{stringify}
use copilot_sdk_swift.Codegen.Sorted.{
  is_note, insert, sort_json_value, sort_items, sort_fields, stable_stringify,
}

-- The comparison of keys is transitive.
abbrev pub IsTransitive : (String → String → Bool) → Type 0
IsTransitive not_after =
    (a b c : String) → not_after a b ≡ true → not_after b c ≡ true → not_after a c ≡ true

-- Two keys that the comparison tells apart.
abbrev pub Apart : (not_after : String → String → Bool) (a b : String) → Type 0
Apart not_after a b = not_after a b ≡ not (not_after b a)

-- Values that differ in the order of keys that can be told apart, and in notes.
mutual
  pub data Reordered (not_after : String → String → Bool) : Value → Value → Type 0 where
    same : (v : Value) → Reordered not_after v v
    items : {xs ys : Items} → ReorderedItems not_after xs ys → Reordered not_after (arr xs) (arr ys)
    fields :
        {fs gs : Fields} → ReorderedFields not_after fs gs → Reordered not_after (obj fs) (obj gs)

  pub data ReorderedItems (not_after : String → String → Bool) : Items → Items → Type 0 where
    no_items : ReorderedItems not_after nil nil
    item :
        {v w : Value} {xs ys : Items}
        → Reordered not_after v w
        → ReorderedItems not_after xs ys
        → ReorderedItems not_after (cons v xs) (cons w ys)

  pub data ReorderedFields (not_after : String → String → Bool) : Fields → Fields → Type 0 where
    no_fields : ReorderedFields not_after end end
    keep :
        {v w : Value} {fs gs : Fields} (k : String)
        → Reordered not_after v w
        → ReorderedFields not_after fs gs
        → ReorderedFields not_after (field k v fs) (field k w gs)
    swap :
        (j k : String) (v w : Value) (fs : Fields)
        → Apart not_after j k
        → ReorderedFields not_after (field j v (field k w fs)) (field k w (field j v fs))
    omit :
        (k : String) (v : Value) (fs : Fields)
        → is_note k ≡ true
        → ReorderedFields not_after (field k v fs) fs
    chain :
        {fs gs hs : Fields}
        → ReorderedFields not_after fs gs
        → ReorderedFields not_after gs hs
        → ReorderedFields not_after fs hs

module _ (not_after : String → String → Bool) (trans : IsTransitive not_after) where
  insert-insert :
      (j k : String) (v w : Value) (fs : Fields)
      → Apart not_after j k
      → insert not_after j v (insert not_after k w fs)
        ≡ insert not_after k w (insert not_after j v fs)
  unfolding insert
  insert-insert j k v w end a = elim (Bool-cases (not_after k j)) [
    | inl b ↦ ground (arith, a, b)
    | inr b ↦ ground (arith, a, b)
  ]
  insert-insert j k v w (field i u fs) a =
      let through_k = trans j k i in
      let through_j = trans k j i in
      let rest = insert-insert j k v w fs a in
      elim (Bool-cases (not_after j i)) [
        | inl x ↦ elim (Bool-cases (not_after k i)) [
          | inl y ↦ elim (Bool-cases (not_after k j)) [
            | inl b ↦ ground (arith, a, b, x, y)
            | inr b ↦ ground (arith, a, b, x, y)
          ]
          | inr y ↦ elim (Bool-cases (not_after k j)) [
            | inl b ↦ absurd (ground (arith, through_j, b, x, y))
            | inr b ↦ ground (arith, a, b, x, y)
          ]
        ]
        | inr x ↦ elim (Bool-cases (not_after k i)) [
          | inl y ↦ elim (Bool-cases (not_after k j)) [
            | inl b ↦ ground (arith, a, b, x, y)
            | inr b ↦ absurd (ground (arith, a, through_k, b, x, y))
          ]
          | inr y ↦ ground (arith, x, y, rest)
        ]
      ]

  mutual
    unfolding sort_json_value

    sort-Reordered :
        {v w : Value}
        → Reordered not_after v w
        → sort_json_value not_after v ≡ sort_json_value not_after w
    sort-Reordered (same v) = refl
    sort-Reordered (items r) = ap arr (sort-ReorderedItems r)
    sort-Reordered (fields r) = ap obj (sort-ReorderedFields r)

    sort-ReorderedItems :
        {xs ys : Items}
        → ReorderedItems not_after xs ys
        → sort_items not_after xs ≡ sort_items not_after ys
    sort-ReorderedItems no_items = refl
    sort-ReorderedItems (item r rs) = rw (sort-Reordered r, sort-ReorderedItems rs) refl

    sort-ReorderedFields :
        {fs gs : Fields}
        → ReorderedFields not_after fs gs
        → sort_fields not_after fs ≡ sort_fields not_after gs
    sort-ReorderedFields no_fields = refl
    sort-ReorderedFields (keep k r rs) = rw (sort-Reordered r, sort-ReorderedFields rs) refl
    sort-ReorderedFields (swap j k v w fs a) =
        let swapped =
          insert-insert j k (sort_json_value not_after v) (sort_json_value not_after w)
            (sort_fields not_after fs) a in
        elim (Bool-cases (is_note j)) [
          | inl x ↦ elim (Bool-cases (is_note k)) [
            | inl y ↦ ground (arith, x, y)
            | inr y ↦ ground (arith, x, y)
          ]
          | inr x ↦ elim (Bool-cases (is_note k)) [
            | inl y ↦ ground (arith, x, y)
            | inr y ↦ ground (arith, x, y, swapped)
          ]
        ]
    sort-ReorderedFields (omit k v fs h) = ground (arith, h)
    sort-ReorderedFields (chain r s) = sort-ReorderedFields r ∙ sort-ReorderedFields s

  -- Schemas that differ only in the order of keys that the comparison tells apart, and in descriptions and
  -- title sources, at any depth, have the same stable text.
  pub stable_stringify-Reordered :
      (v w : Value)
      → Reordered not_after v w
      → stable_stringify not_after v ≡ stable_stringify not_after w
  unfolding stable_stringify
  stable_stringify-Reordered v w r = ap stringify (sort-Reordered r)
