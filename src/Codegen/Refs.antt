-- ===== src/Codegen/Refs.antt =====
-- `resolveRef`, `resolveSchema` and `resolveObjectSchema` of utils.ts. A reference to `undefined` or to a
-- value that is no text is none, as the types have it.
pub mod Unseen
pub mod Resolved
pub mod Chars
use Prim.Native.Char.{Char, code}
use copilot_sdk_swift.Prelude.{
  ℕ, zero, suc, ◌+◌, String, Bool, true, false, not, ◌&&◌, ◌||◌, Option, none, some, List, [], ◌∷◌,
  ◌++◌, ◌==◌, same_num, if◌then◌else◌,
}
use copilot_sdk_swift.Js.Value.{
  Value, undefined, null, str, arr, obj, Items, nil, cons, Fields, end, field, lookup, truthy,
  is_nullish,
}
use copilot_sdk_swift.Session.Ui.{get_field_or_undefined}
use copilot_sdk_swift.Client.Options.{chars, text}

-- `DefinitionCollections`; each part may be `undefined`.
pub record DefinitionCollections : Type 0 where
  pub definitions : Value
  pub defs : Value

-- The rest of a text behind a prefix.
unfoldable pub behind : List Char → List Char → Option (List Char)
behind [] cs = some cs
behind (p ∷ ps) [] = none
behind (p ∷ ps) (c ∷ cs) =
    let rest = behind ps cs in if same_num (code p) (code c) then rest else none

-- The characters that `.` does not match: line feed, carriage return, and the two separators.
abbrev is_line_end : Char → Bool
is_line_end c =
    same_num (code c) 10 || same_num (code c) 13 || same_num (code c) 8232 || same_num (code c) 8233

unfoldable pub has_line_end : List Char → Bool
has_line_end [] = false
has_line_end (c ∷ cs) = is_line_end c || has_line_end cs

-- What `(.+)$` takes.
abbrev key_of : List Char → Option String
key_of [] = none
key_of (c ∷ cs) = if has_line_end (c ∷ cs) then none else some (text (c ∷ cs))

abbrev named : Bool → Option (List Char) → Option (Bool × String)
named b none = none
named b (some cs) = elim (key_of cs) [ none ↦ none | some k ↦ some (b, k) ]

abbrev pub match_chars : List Char → Option (Bool × String)
match_chars cs = elim (named false (behind (chars "#/definitions/") cs)) [
  | some m ↦ some m
  | none ↦ named true (behind (chars "#/$defs/") cs)
]

-- `ref.match(/^#\/(definitions|\$defs)\/(.+)$/)`: whether the namespace is "$defs", and the key.
unfoldable pub match_ref : String → Option (Bool × String)
unfolding behind has_line_end
match_ref ref = match_chars (chars ref)

-- `primary?.[key] ?? fallback?.[key]`
abbrev pub first_of : String → Value → Value → Value
first_of k primary fallback =
    let v = get_field_or_undefined k primary in
    if is_nullish v then get_field_or_undefined k fallback else v

-- `typeof def === "object" ? def : undefined`
abbrev pub object_or_undefined : Value → Value
object_or_undefined null = null
object_or_undefined (arr xs) = arr xs
object_or_undefined (obj fs) = obj fs
object_or_undefined _ = undefined

unfoldable pub resolve_ref : String → Option DefinitionCollections → Value
unfolding match_ref
resolve_ref ref none = undefined
resolve_ref ref (some d) = elim (match_ref ref) [
  | none ↦ undefined
  | some (true, k) ↦ object_or_undefined (first_of k d.defs d.definitions)
  | some (false, k) ↦ object_or_undefined (first_of k d.definitions d.defs)
]

-- The `$ref` of a schema, if it counts as true.
unfoldable pub ref_of : Value → Option String
unfolding lookup
ref_of (obj fs) = elim (lookup "$ref" fs) [ str r ↦ if r == "" then none else some r | _ ↦ none ]
ref_of _ = none

unfoldable pub is_seen : String → List String → Bool
is_seen r [] = false
is_seen r (s ∷ seen) = s == r || is_seen r seen

-- The loop of `resolveSchema`; `none` when the fuel runs out.
unfoldable pub follow : Option DefinitionCollections → ℕ → Value → List String → Option Value
unfolding resolve_ref ref_of is_seen
follow d zero current seen = none
follow d (suc fuel) current seen = elim (ref_of current) [
  | none ↦ some current
  | some r ↦
      let resolved = resolve_ref r d in
      let rest = follow d fuel resolved (r ∷ seen) in
      if is_seen r seen then some current else if truthy resolved then rest else some current
]

unfoldable pub count : Fields → ℕ
count end = 0
count (field k v fs) = suc (count fs)

abbrev pub count_of : Value → ℕ
count_of (obj fs) = count fs
count_of _ = 0

-- Two more rounds than there are definitions.
unfoldable pub ref_fuel : Option DefinitionCollections → ℕ
unfolding count
ref_fuel none = 2
ref_fuel (some d) = suc (suc (count_of d.definitions + count_of d.defs))

-- `schema ?? undefined`
abbrev pub or_undefined : Value → Value
or_undefined v = if is_nullish v then undefined else v

unfoldable pub resolve_schema : Value → Option DefinitionCollections → Option Value
unfolding follow ref_fuel
resolve_schema schema d = follow d (ref_fuel d) (or_undefined schema) []
