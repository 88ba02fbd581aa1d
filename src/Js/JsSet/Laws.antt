-- ===== src/Js/JsSet/Laws.antt =====
-- Membership after `add` and `delete`, and the iteration of a set of callbacks.
use copilot_sdk_swift.Prelude.{
  ℕ, zero, suc, ◌+◌, ◌≤◌, ◌<◌, ◌≡◌, refl, true, false, ◌||◌, Option, none, some, List, [], ◌∷◌,
  ◌++◌, arith, same_num, if◌then◌else◌, get_elem?, drop, length, Bool-cases, inl, inr, ◌⊎◌, ◌∙◌,
}
use copilot_sdk_swift.Js.JsSet.{JsSet, has, add, delete, members, for_each, visit_all}

has-append : (j h : ℕ) (s : JsSet) → has j (s ++ some h ∷ []) ≡ (has j s || same_num h j)
unfolding has
has-append j h [] = ground arith
has-append j h (slot ∷ s) = ground (arith, has-append j h s)

same_num→eq : (a b : ℕ) → same_num a b ≡ true → a ≡ b
same_num→eq a b h = ground arith

pub has-add : (j h : ℕ) (s : JsSet) → has j (add h s) ≡ (has j s || same_num h j)
unfolding add
has-add j h s = elim (Bool-cases (has h s)) [
  | inl old ↦ elim (Bool-cases (same_num h j)) [
    | inl e ↦ rw (old, e) (rw (← same_num→eq h j e) (ground (arith, old)))
    | inr e ↦ rw (old, e) (ground arith)
  ]
  | inr new ↦ rw new (has-append j h s)
]

pub has-delete :
    (j h : ℕ) (s : JsSet) → has j (delete h s) ≡ (if same_num h j then false else has j s)
unfolding has delete
has-delete j h [] = ground arith
has-delete j h (slot ∷ s) = ground (arith, has-delete j h s)

pub length-delete : (h : ℕ) (s : JsSet) → length (delete h s) ≡ length s
unfolding delete
length-delete h [] = refl
length-delete h (slot ∷ s) = omega (arith, length-delete h s)

pub members-append : (s : JsSet) (h : ℕ) → members (s ++ some h ∷ []) ≡ members s ++ h ∷ []
unfolding members
members-append [] h = refl
members-append (none ∷ s) h = members-append s h
members-append (some j ∷ s) h = rw (members-append s h)

get_elem?-none {ℓ} : {A : Type ℓ} (xs : List A) (i : ℕ) → get_elem? xs i ≡ none → length xs ≤ i
get_elem?-none [] i h = omega arith
get_elem?-none (x ∷ xs) zero h = cc
get_elem?-none (x ∷ xs) (suc i) h = omega (arith, get_elem?-none xs i h)

get_elem?-lt {ℓ} :
    {A : Type ℓ} (xs : List A) (i : ℕ) {x : A} → get_elem? xs i ≡ some x → i < length xs
get_elem?-lt [] i h = cc
get_elem?-lt (x ∷ xs) zero h = omega arith
get_elem?-lt (x ∷ xs) (suc i) h = omega (arith, get_elem?-lt xs i h)

members-drop :
    (s : JsSet) (i : ℕ)
    → members (drop i s) ≡ (elim (get_elem? s i) [
      | none ↦ []
      | some none ↦ members (drop (suc i) s)
      | some (some h) ↦ h ∷ members (drop (suc i) s)
    ])
unfolding members
members-drop [] zero = refl
members-drop [] (suc i) = refl
members-drop (none ∷ s) zero = refl
members-drop (some h ∷ s) zero = refl
members-drop (slot ∷ s) (suc i) = members-drop s i

slot-cases :
    (o : Option (Option ℕ)) → (o ≡ none) ⊎ (o ≡ some none) ⊎ ((h : ℕ) × (o ≡ some (some h)))
slot-cases none = inl refl
slot-cases (some none) = inr (inl refl)
slot-cases (some (some h)) = inr (inr (h, refl))

module _ {ℓ κ} {S : Type ℓ} (slots : S → JsSet) (visit : ℕ → S → S) (P : S → Type κ) where
  -- The loop ends, with what the visits keep, when that bounds the number of slots.
  pub for_each_total :
      (bound : ℕ)
      → ((s : S) → P s → length (slots s) ≤ bound)
      → ((h : ℕ) (s : S) → P s → P (visit h s))
      → (fuel i : ℕ) (s : S) → P s
      → i ≤ bound
      → bound < fuel + i
      → (r : S) × (for_each slots visit fuel i s ≡ some r) × P r
  unfolding for_each
  for_each_total bound fits keep zero i s inv here enough = absurd (omega arith)
  for_each_total bound fits keep (suc fuel) i s inv here enough =
      let room = fits s inv in
      elim (slot-cases (get_elem? (slots s) i)) [
        | inl e ↦ (s, rw (e, for_each), inv)
        | inr (inl e) ↦
            let below = get_elem?-lt (slots s) i e in
            let (r, p, q) =
              for_each_total bound fits keep fuel (suc i) s inv (omega arith) (omega arith) in
            (r, rw (e, for_each) p, q)
        | inr (inr (h, e)) ↦
            let below = get_elem?-lt (slots s) i e in
            let (r, p, q) =
              for_each_total bound fits keep fuel (suc i) (visit h s) (keep h s inv) (omega arith)
                (omega arith) in
            (r, rw (e, for_each) p, q)
      ]

module _ {ℓ κ} {S : Type ℓ} (slots : S → JsSet) (visit : ℕ → S → S) (P : S → Type κ)
    (keep : (h : ℕ) (s : S) → P s → P (visit h s)) where
  -- A loop that ends has what the visits keep.
  pub for_each-keeps : (fuel i : ℕ) (s r : S) → P s → for_each slots visit fuel i s ≡ some r → P r
  unfolding for_each
  for_each-keeps zero i s r inv h = absurd (cc h)
  for_each-keeps (suc fuel) i s r inv h = elim (slot-cases (get_elem? (slots s) i)) [
    | inl e ↦ let same : s ≡ r = ground (arith, e, h) in rw (← same) inv
    | inr (inl e) ↦ for_each-keeps fuel (suc i) s r inv (ground (arith, e, h))
    | inr (inr (j, e)) ↦
        for_each-keeps fuel (suc i) (visit j s) r (keep j s inv) (ground (arith, e, h))
  ]

module _ {ℓ} {S : Type ℓ} (slots : S → JsSet) (visit : ℕ → S → S) where
  -- A loop whose visits leave the set alone makes one visit of each callback that is in it.
  pub for_each-members :
      ((h : ℕ) (s : S) → slots (visit h s) ≡ slots s)
      → (fuel i : ℕ) (s : S) → i ≤ length (slots s)
      → length (slots s) < fuel + i
      → for_each slots visit fuel i s ≡ some (visit_all slots visit (members (drop i (slots s))) s)
  unfolding for_each visit_all
  for_each-members keep zero i s here enough = absurd (omega arith)
  for_each-members keep (suc fuel) i s here enough = elim (slot-cases (get_elem? (slots s) i)) [
    | inl e ↦ rw (members-drop (slots s) i, e) (rw (e, for_each))
    | inr (inl e) ↦
        let below = get_elem?-lt (slots s) i e in
        rw (members-drop (slots s) i, e)
          (rw (e, for_each) (for_each-members keep fuel (suc i) s (omega arith) (omega arith)))
    | inr (inr (h, e)) ↦
        let below = get_elem?-lt (slots s) i e in
        let same = keep h s in
        rw (members-drop (slots s) i, e)
          (rw (e, for_each)
            (for_each-members keep fuel (suc i) (visit h s) (rw same (omega arith))
                (rw same (omega arith))
              ∙ rw same))
  ]
