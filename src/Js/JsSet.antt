-- ===== src/Js/JsSet.antt =====
-- `Set` of callbacks, each callback being known by a number. As in ECMAScript the entries stand in
-- the order of insertion, `delete` leaves an empty slot, and `for ... of` walks the slots by index
-- and sees what the body adds and deletes.
pub mod Laws
use copilot_sdk_swift.Prelude.{
  ℕ, zero, suc, ◌+◌, Bool, true, false, ◌||◌, Option, none, some, List, [], ◌∷◌, ◌++◌, same_num,
  if◌then◌else◌, get_elem?,
}

abbrev pub JsSet : Type 0
JsSet = List (Option ℕ)

abbrev pub empty : JsSet
empty = []

abbrev pub holds : ℕ → Option ℕ → Bool
holds h none = false
holds h (some j) = same_num j h

unfoldable pub has : ℕ → JsSet → Bool
has h [] = false
has h (slot ∷ s) = holds h slot || has h s

unfoldable pub add : ℕ → JsSet → JsSet
unfolding has
add h s = if has h s then s else s ++ some h ∷ []

unfoldable pub delete : ℕ → JsSet → JsSet
delete h [] = []
delete h (slot ∷ s) = (if holds h slot then none else slot) ∷ delete h s

-- The callbacks of a set, in the order of insertion.
unfoldable pub members : JsSet → List ℕ
members [] = []
members (none ∷ s) = members s
members (some h ∷ s) = h ∷ members s

module _ {ℓ} {S : Type ℓ} (slots : S → JsSet) (visit : ℕ → S → S) where
  -- The loop from slot `i` on; `none` when the fuel runs out.
  unfoldable pub for_each : ℕ → ℕ → S → Option S
  for_each zero i s = none
  for_each (suc fuel) i s = elim (get_elem? (slots s) i) [
    | none ↦ some s
    | some none ↦ for_each fuel (suc i) s
    | some (some h) ↦ for_each fuel (suc i) (visit h s)
  ]

  -- One visit of each callback of a list.
  unfoldable pub visit_all : List ℕ → S → S
  visit_all [] s = s
  visit_all (h ∷ hs) s = visit_all hs (visit h s)
