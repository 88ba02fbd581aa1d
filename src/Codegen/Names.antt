-- ===== src/Codegen/Names.antt =====
-- `refTypeName` of utils.ts: the name of the type that is generated for a reference.
pub mod Apart
use Prim.Native.Char.{Char, code}
use copilot_sdk_swift.Prelude.{
  String, Bool, true, false, not, ◌||◌, Option, none, some, List, [], ◌∷◌, same_num, ◌+++◌,
  if◌then◌else◌,
}
use copilot_sdk_swift.Js.Value.{Value}
use copilot_sdk_swift.Session.Ui.{get_field_or_undefined}
use copilot_sdk_swift.Client.Options.{chars, text}
use copilot_sdk_swift.Codegen.Sorted.{stable_stringify}
use copilot_sdk_swift.Codegen.Refs.{DefinitionCollections, match_ref}
use copilot_sdk_swift.Codegen.Objects.{is_undefined}
use copilot_sdk_swift.Codegen.Hoist.{same_text}

-- The rest behind the last slash, if there is one.
unfoldable pub behind_slash : List Char → Option (List Char)
behind_slash [] = none
behind_slash (c ∷ cs) = elim (behind_slash cs) [
  | some rest ↦ some rest
  | none ↦ if same_num (code c) 47 then some cs else none
]

abbrev pub last_part : String → Option (List Char) → String
last_part ref none = ref
last_part ref (some rest) = text rest

-- `ref.split("/").pop()`
unfoldable pub base_name : String → String
unfolding behind_slash
base_name ref = last_part ref (behind_slash (chars ref))

-- A definition that only one namespace has, or that both have alike, needs no other name.
unfoldable pub is_ambiguous : (String → String → Bool) → Value → Value → Bool
unfolding stable_stringify
is_ambiguous not_after legacy draft =
    if is_undefined legacy || is_undefined draft
    then false
    else not (same_text (stable_stringify not_after legacy) (stable_stringify not_after draft))

unfoldable pub ref_type_name :
    (String → String → Bool) → String → Option DefinitionCollections → String
unfolding base_name is_ambiguous match_ref
ref_type_name not_after ref none = base_name ref
ref_type_name not_after ref (some d) = elim (match_ref ref) [
  | some (true, k) ↦
      if is_ambiguous not_after (get_field_or_undefined k d.definitions)
        (get_field_or_undefined k d.defs)
      then "Draft" +++ base_name ref
      else base_name ref
  | _ ↦ base_name ref
]
