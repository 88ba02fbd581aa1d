-- ===== src/Codegen/TypeScript.antt =====
-- `normalizeSchemaForTypeScript` of scripts/codegen/typescript.ts.
pub mod Aliases
pub mod Rewritten
use Prim.Native.Char.{Char}
use copilot_sdk_swift.Prelude.{
  ℕ, zero, suc, String, Bool, true, false, Option, none, some, List, [], ◌∷◌, ◌+++◌, if◌then◌else◌,
}
use copilot_sdk_swift.Js.Value.{
  Value, undefined, null, bool, num, str, arr, obj, func, Items, nil, cons, Fields, end, field,
  lookup, has,
}
use copilot_sdk_swift.Js.JsMap
use copilot_sdk_swift.Js.JsMap.{JsMap}
use copilot_sdk_swift.Js.Object.{put, remove}
use copilot_sdk_swift.Client.Options.{chars, text}
use copilot_sdk_swift.Codegen.Refs.{behind, count}
use copilot_sdk_swift.Codegen.Definitions.{entries}

-- The first of the names key, $defs_key, $defs_$defs_key and so on that is not taken; `none` when the
-- fuel runs out.
unfoldable pub free_alias : ℕ → String → Fields → Option String
unfolding has
free_alias zero alias definitions = none
free_alias (suc fuel) alias definitions =
    let longer = free_alias fuel ("$defs_" +++ alias) definitions in
    if has alias definitions then longer else some alias

-- The loop over the entries of `$defs`: the definitions with them, and their names there.
unfoldable pub add_aliases : Fields → Fields → JsMap String → Option (Fields × JsMap String)
unfolding free_alias put count
add_aliases end definitions aliases = some (definitions, aliases)
add_aliases (field key v fs) definitions aliases =
    elim (free_alias (suc (count definitions)) key definitions) [
      | none ↦ none
      | some alias ↦ add_aliases fs (put alias v definitions) (JsMap.set key alias aliases)
    ]

abbrev pub alias_of : String → JsMap String → String
alias_of name aliases = elim (JsMap.get name aliases) [ none ↦ name | some alias ↦ alias ]

module _ (aliases : JsMap String) where
  unfoldable pub rewrite_ref : Fields → Fields
  unfolding lookup put behind
  rewrite_ref rewritten = elim (lookup "$ref" rewritten) [
    | str ref ↦ elim (behind (chars "#/$defs/") (chars ref)) [
      | none ↦ rewritten
      | some name ↦ put "$ref" (str ("#/definitions/" +++ alias_of (text name) aliases)) rewritten
    ]
    | _ ↦ rewritten
  ]

  unfoldable mutual
    unfolding rewrite_ref

    pub rewrite : Value → Value
    rewrite undefined = undefined
    rewrite null = null
    rewrite (bool b) = bool b
    rewrite (num n) = num n
    rewrite (str s) = str s
    rewrite (arr xs) = arr (rewrite_items xs)
    rewrite (obj fs) = obj (rewrite_ref (rewrite_fields fs))
    rewrite (func source) = func source

    pub rewrite_items : Items → Items
    rewrite_items nil = nil
    rewrite_items (cons v vs) = cons (rewrite v) (rewrite_items vs)

    pub rewrite_fields : Fields → Fields
    rewrite_fields end = end
    rewrite_fields (field k v fs) = field k (rewrite v) (rewrite_fields fs)

unfoldable pub normalize_schema_for_type_script : Fields → Option Value
unfolding add_aliases rewrite remove
normalize_schema_for_type_script root =
    elim (add_aliases (entries (lookup "$defs" root)) (entries (lookup "definitions" root))
      JsMap.empty) [
        | none ↦ none
        | some (definitions, aliases) ↦
            some (rewrite aliases (obj (remove "$defs" (put "definitions" (obj definitions) root))))
      ]
