-- ===== src/Codegen/Hoist.antt =====
-- `hoistTitledSchemas` and `visitSchema` of utils.ts. The visits of the parts of a schema are prepared in
-- the order of its keys and made in the order of the source.
pub mod Shared
pub mod Titled
use copilot_sdk_swift.Prelude.{
  String, Bool, true, false, ◌||◌, Option, none, some, List, [], ◌∷◌, ◌==◌, ◌+++◌, if◌then◌else◌,
}
use copilot_sdk_swift.Js.Value.{
  Value, undefined, null, bool, num, str, arr, obj, func, Items, nil, cons, Fields, end, field,
  lookup, truthy,
}
use copilot_sdk_swift.Js.Object.{put}
use copilot_sdk_swift.Js.Outcome.{Thrown, error, Outcome, ok, throw}
use copilot_sdk_swift.Codegen.Sorted.{stable_stringify}

-- A computation on the shared definitions, which may throw.
abbrev pub Visit {ℓ} : Type ℓ → Type ℓ
Visit A = Fields → Outcome (A × Fields)

abbrev pub done {ℓ} : {A : Type ℓ} → A → Visit A
done a shared = ok (a, shared)

abbrev pub continue_with {ℓ κ} :
    {A : Type ℓ} {B : Type κ} → (A → Visit B) → Outcome (A × Fields) → Outcome (B × Fields)
continue_with f (ok (a, shared)) = f a shared
continue_with f (throw e) = throw e

infixl 5 ◌>>=◌
abbrev pub ◌>>=◌ {ℓ κ} : {A : Type ℓ} {B : Type κ} → Visit A → (A → Visit B) → Visit B
(m >>= f) shared = continue_with f (m shared)

-- What is visited: a schema, named schemas, a schema or a list of schemas, a list of schemas, nothing.
pub data Part : Type 0 where
  one named one_or_list list nothing : Part

abbrev pub part_at : String → Part
part_at k =
    if k == "properties"
    then named
    else if k == "items"
    then one_or_list
    else if k == "additionalProperties"
    then one
    else if k == "anyOf" || k == "allOf" || k == "oneOf"
    then list
    else nothing

-- The prepared visits of the parts, by key.
abbrev pub PreparedParts : Type 0
PreparedParts = List (String × Visit Value)

unfoldable pub find_part : String → PreparedParts → Option (Visit Value)
find_part k [] = none
find_part k ((j, visit) ∷ parts) = if j == k then some visit else find_part k parts

abbrev pub part_order : List String
part_order = "properties" ∷ "items" ∷ "additionalProperties" ∷ "anyOf" ∷ "allOf" ∷ "oneOf" ∷ []

-- A text that `stableStringify` may not give.
abbrev pub same_text : Option String → Option String → Bool
same_text none none = true
same_text (some a) (some b) = a == b
same_text _ _ = false

abbrev pub conflict : String → Thrown
conflict title =
    error ("Conflicting titled schemas for \"" +++ title +++ "\" while preparing quicktype inputs.")

abbrev pub reference : String → Fields → Value
reference title result = obj (
    field "$ref" (str ("#/definitions/" +++ title))
      (field "description" (lookup "description" result) end))

module _ (not_after : String → String → Bool) (root : String) where
  -- A schema with a title of its own is shared under the title and replaced by a reference.
  unfoldable pub share : String → Fields → Visit Value
  unfolding stable_stringify lookup put
  share title result shared =
      let existing = lookup title shared in
      if truthy existing
      then (if same_text (stable_stringify not_after existing)
            (stable_stringify not_after (obj result))
          then ok (reference title result, shared)
          else throw (conflict title))
      else ok (reference title result, put title (obj result) shared)

  unfoldable pub hoist : Fields → Visit Value
  unfolding share
  hoist result = elim (lookup "title" result) [
    | str title ↦ if title == root then done (obj result) else share title result
    | _ ↦ done (obj result)
  ]

  -- One part, whose result takes its place.
  unfoldable pub visit_part : PreparedParts → String → Fields → Visit Fields
  unfolding find_part put
  visit_part parts k result = elim (find_part k parts) [
    | none ↦ done result
    | some visit ↦ visit >>= λ v. done (put k v result)
  ]

  unfoldable pub visit_parts : PreparedParts → List String → Fields → Visit Fields
  unfolding visit_part
  visit_parts parts [] result = done result
  visit_parts parts (k ∷ ks) result = visit_part parts k result >>= visit_parts parts ks

  unfoldable mutual
    unfolding visit_parts hoist

    -- The visit of a value as such a part.
    pub visit : Part → Value → Visit Value
    visit p undefined = done undefined
    visit p null = done null
    visit p (bool b) = done (bool b)
    visit p (num n) = done (num n)
    visit p (str s) = done (str s)
    visit p (func source) = done (func source)
    visit one (obj fs) = visit_parts (parts_of fs) part_order fs >>= hoist
    visit one_or_list (obj fs) = visit_parts (parts_of fs) part_order fs >>= hoist
    visit named (obj fs) = visit_entries fs >>= λ gs. done (obj gs)
    visit list (obj fs) = done (obj fs)
    visit nothing (obj fs) = done (obj fs)
    visit one (arr xs) = done (arr xs)
    visit one_or_list (arr xs) = visit_items xs >>= λ ys. done (arr ys)
    visit named (arr xs) = done (arr xs)
    visit list (arr xs) = visit_items xs >>= λ ys. done (arr ys)
    visit nothing (arr xs) = done (arr xs)

    pub parts_of : Fields → PreparedParts
    parts_of end = []
    parts_of (field k v fs) = (k, visit (part_at k) v) ∷ parts_of fs

    pub visit_entries : Fields → Visit Fields
    visit_entries end = done end
    visit_entries (field k v fs) =
        visit one v >>= λ w. visit_entries fs >>= λ gs. done (field k w gs)

    pub visit_items : Items → Visit Items
    visit_items nil = done nil
    visit_items (cons v vs) = visit one v >>= λ w. visit_items vs >>= λ ws. done (cons w ws)

-- The roots with the references in them, and the shared definitions.
unfoldable pub hoist_roots : (String → String → Bool) → Fields → Visit Fields
unfolding visit
hoist_roots not_after end = done end
hoist_roots not_after (field name definition roots) = visit not_after name one definition >>= λ v.
    hoist_roots not_after roots >>= λ vs. done (field name v vs)

unfoldable pub hoist_titled_schemas : (String → String → Bool) → Fields → Outcome (Fields × Fields)
unfolding hoist_roots
hoist_titled_schemas not_after roots = hoist_roots not_after roots end
