-- ===== src/Tests/Schemas.antt =====
-- Runs of the theorems about schemas.
use copilot_sdk_swift.Prelude.{
  inl, ◌+++◌, String, ◌≡◌, ◌↔◌, refl, Bool, true, false, some, length, leb, arith,
}
use copilot_sdk_swift.Js.Value.{
  Value, undefined, obj, has, arr, str, bool, field, end, Fields, cons, nil, lookup,
}
use copilot_sdk_swift.Session.Ui.{get_field_or_undefined}
use copilot_sdk_swift.Client.Options.{chars}
use copilot_sdk_swift.Codegen.Titles.{strip_non_annotation_titles}
use copilot_sdk_swift.Codegen.Titles.Cleaned.{strip_non_annotation_titles_loses_property}
use copilot_sdk_swift.Codegen.Sorted.{stable_stringify}
use copilot_sdk_swift.Codegen.Sorted.Reordered.{
  IsTransitive, fields, swap, stable_stringify-Reordered,
}
use copilot_sdk_swift.Codegen.Refs.{
  has_line_end, DefinitionCollections, resolve_ref, resolve_schema,
}
use copilot_sdk_swift.Codegen.Refs.Resolved.{Leads, IsLast, resolve_schema-ends}
use copilot_sdk_swift.Codegen.Definitions.{collect_definition_collections, with_shared_definitions}
use copilot_sdk_swift.Codegen.Definitions.Kept.{
  collect_definition_collections-with_shared_definitions, resolve_ref-with_shared_definitions,
}
use copilot_sdk_swift.Codegen.Normalize.{whole_api, normalize_api_schema}
use copilot_sdk_swift.Codegen.Normalize.Places.{titled}
use copilot_sdk_swift.Codegen.Normalize.Untitled.{normalize_api_schema-cleans}
use copilot_sdk_swift.Codegen.Hoist.{hoist_titled_schemas, share}
use copilot_sdk_swift.Codegen.Hoist.Shared.{IsTitled}
use copilot_sdk_swift.Codegen.Hoist.Titled.{hoist_titled_schemas-IsTitled}
use copilot_sdk_swift.Js.JsMap.{JsMap}
use copilot_sdk_swift.Js.Object.{put, remove}
use copilot_sdk_swift.Codegen.Definitions.{entries}
use copilot_sdk_swift.Codegen.TypeScript.{normalize_schema_for_type_script, rewrite}
use copilot_sdk_swift.Codegen.TypeScript.Aliases.{HasAlias}
use copilot_sdk_swift.Js.JsMap
use copilot_sdk_swift.Codegen.TypeScript.Rewritten.{
  has_draft_ref, normalize_schema_for_type_script-ends,
}
use copilot_sdk_swift.Codegen.Hoist.{one}
use copilot_sdk_swift.Codegen.PostProcess.{post_process_schema}
use copilot_sdk_swift.Codegen.PostProcess.Constants.{has_boolean}
use copilot_sdk_swift.Codegen.PostProcess.Processed.{post_process_schema-no_boolean}
use copilot_sdk_swift.Codegen.Names.{ref_type_name}
use copilot_sdk_swift.Codegen.Names.Apart.{IsAlike, ref_type_name-is_ambiguous}
use copilot_sdk_swift.Codegen.Methods.{is_node_fully_experimental, is_experimental}
use copilot_sdk_swift.Codegen.Methods.Experimental.{IsMethodOf, is_node_fully_experimental_iff}

-- The data of an event with a property named "title".
abbrev title_properties : Fields
title_properties = field "title" (obj (field "type" (str "string") end)) end

abbrev title_changed : Fields
title_changed = field "title" (str "TitleChangedData") (
    field "titleSource" (str "name")
      (field "type" (str "object") (field "properties" (obj title_properties) end)))

strip_non_annotation_titles_loses_property_example :
    get_field_or_undefined "title"
      (get_field_or_undefined "properties" (strip_non_annotation_titles (obj title_changed)))
    ≡ undefined
unfolding lookup
strip_non_annotation_titles_loses_property_example =
    strip_non_annotation_titles_loses_property title_changed title_properties refl refl

-- Keys in the order of their lengths.
abbrev no_longer : String → String → Bool
no_longer a b = leb (length (chars a)) (length (chars b))

no_longer-IsTransitive : IsTransitive no_longer
no_longer-IsTransitive a b c h k = ground (arith, h, k)

abbrev described : Value
described = obj (
    field "type" (str "x")
      (field "description" (str "d") (field "$ref" (str "y") (field "items" (bool true) end))))

abbrev reordered : Value
reordered = obj (field "items" (bool true) end)

stable_stringify-Reordered_example :
    stable_stringify no_longer (obj (field "type" (str "x") (field "items" (bool true) end)))
    ≡ stable_stringify no_longer (obj (field "items" (bool true) (field "type" (str "x") end)))
stable_stringify-Reordered_example =
    stable_stringify-Reordered no_longer no_longer-IsTransitive _ _
      (fields (swap "type" "items" (str "x") (bool true) end refl))

-- Two definitions that refer to one another.
abbrev ping_pong : DefinitionCollections
ping_pong = record {
  definitions = obj (field "A" (obj (field "$ref" (str "#/$defs/B") end)) end);
  defs = obj (field "B" (obj (field "$ref" (str "#/definitions/A") end)) end);
}

abbrev to_a : Value
to_a = obj (field "$ref" (str "#/definitions/A") end)

resolve_schema-ends_example :
    (w : Value) × (resolve_schema to_a (some ping_pong) ≡ some w)
    × Leads (some ping_pong) to_a w
    × IsLast (some ping_pong) w
resolve_schema-ends_example = resolve_schema-ends (some ping_pong) to_a

collect_definition_collections-with_shared_definitions_example :
    (collect_definition_collections (with_shared_definitions title_changed ping_pong) ≡ ping_pong)
    × (collect_definition_collections (
          with_shared_definitions title_changed
            (record { definitions = ping_pong.definitions; defs = undefined }))
        ≡ record { definitions = ping_pong.definitions; defs = ping_pong.definitions })
    × (collect_definition_collections (
          with_shared_definitions title_changed
            (record { definitions = undefined; defs = ping_pong.defs }))
        ≡ record { definitions = ping_pong.defs; defs = ping_pong.defs })
    × (collect_definition_collections (
          with_shared_definitions title_changed
            (record { definitions = undefined; defs = undefined }))
        ≡ record { definitions = obj end; defs = obj end })
collect_definition_collections-with_shared_definitions_example =
    collect_definition_collections-with_shared_definitions title_changed end end "A" "B"
      (obj (field "$ref" (str "#/$defs/B") end)) (obj (field "$ref" (str "#/definitions/A") end))
      undefined (inl refl)

abbrev only_defs : DefinitionCollections
only_defs = record { definitions = undefined; defs = ping_pong.defs }

resolve_ref-with_shared_definitions_example :
    resolve_ref "#/definitions/B"
      (some (collect_definition_collections (with_shared_definitions end only_defs)))
    ≡ to_a
unfolding resolve_ref collect_definition_collections lookup with_shared_definitions
resolve_ref-with_shared_definitions_example =
    resolve_ref-with_shared_definitions "#/definitions/B" end only_defs

abbrev self_part : Fields
self_part = field "$ref" (str "#/definitions/A") end

abbrev self_parts : Fields
self_parts = field "allOf" (arr (cons (obj self_part) nil)) end

abbrev self_definitions : DefinitionCollections
self_definitions = record { definitions = obj (field "A" (obj self_parts) end); defs = undefined }

abbrev api : Fields
api =
    field "models"
      (obj (
        field "list"
          (obj (field "rpcMethod" (str "models.list") (field "stability" (str "experimental") end)))
          end))
      end

is_node_fully_experimental_iff_example : (is_node_fully_experimental api ≡ true) ↔ (
    ((m : Value) × IsMethodOf m api) × ((m : Value) → IsMethodOf m api → is_experimental m ≡ true))
is_node_fully_experimental_iff_example = is_node_fully_experimental_iff api

normalize_api_schema-cleans_example :
    (titled whole_api (normalize_api_schema (obj (field "server" (obj api) end))) ≡ false)
    × (normalize_api_schema (normalize_api_schema (obj (field "server" (obj api) end)))
        ≡ normalize_api_schema (obj (field "server" (obj api) end)))
normalize_api_schema-cleans_example =
    normalize_api_schema-cleans (obj (field "server" (obj api) end))

-- A root whose property has a title of its own.
abbrev roots : Fields
roots =
    field "Root"
      (obj (field "properties" (obj (field "a" (obj (field "title" (str "Part") end)) end)) end))
      end

abbrev hoisted : Fields × Fields
hoisted = (
  field "Root"
      (obj (
        field "properties"
          (obj (
            field "a"
              (obj (field "$ref" (str "#/definitions/Part") (field "description" undefined end)))
              end))
          end))
      end,
  field "Part" (obj (field "title" (str "Part") end)) end,
)

hoist_titled_schemas-IsTitled_example : IsTitled hoisted.1
unfolding hoist_titled_schemas share
hoist_titled_schemas-IsTitled_example =
    hoist_titled_schemas-IsTitled no_longer roots hoisted.0 hoisted.1 refl

abbrev flag_schema : Value
flag_schema = obj (
    field "properties" (obj (field "on" (obj (field "const" (bool true) end)) end))
      (field "$defs" (obj (field "Off" (obj (field "const" (bool false) end)) end)) end))

post_process_schema-no_boolean_example : has_boolean one (post_process_schema flag_schema) ≡ false
post_process_schema-no_boolean_example = post_process_schema-no_boolean flag_schema

-- One key with two meanings.
abbrev two_meanings : DefinitionCollections
two_meanings = record {
  definitions = obj (field "Model" (obj (field "type" (str "string") end)) end);
  defs = obj (field "Model" (obj (field "type" (str "object") end)) end);
}

ref_type_name-is_ambiguous_example :
    ((ref_type_name no_longer "#/definitions/Model" (some two_meanings)
        ≡ ref_type_name no_longer "#/$defs/Model" (some two_meanings))
      ↔ IsAlike no_longer
          (get_field_or_undefined "Model" two_meanings.definitions)
          (get_field_or_undefined "Model" two_meanings.defs))
    × (¬ IsAlike no_longer
          (get_field_or_undefined "Model" two_meanings.definitions)
          (get_field_or_undefined "Model" two_meanings.defs)
        → ref_type_name no_longer "#/$defs/Model" (some two_meanings)
          ≡ "Draft" +++ ref_type_name no_longer "#/definitions/Model" (some two_meanings))
unfolding has_line_end
ref_type_name-is_ambiguous_example =
    ref_type_name-is_ambiguous no_longer two_meanings "Model" refl refl

-- A schema with both namespaces.
abbrev meanings : Fields
meanings = field "definitions" two_meanings.definitions (field "$defs" two_meanings.defs end)

normalize_schema_for_type_script-ends_example :
    (result : Value) × (definitions : Fields) × (aliases : JsMap String)
    × (normalize_schema_for_type_script meanings ≡ some result)
    × (has_draft_ref result ≡ false)
    × (result
        ≡ rewrite aliases (obj (remove "$defs" (put "definitions" (obj definitions) meanings))))
    × ((k : String)
        → has k (entries (lookup "definitions" meanings)) ≡ true
        → lookup k definitions ≡ lookup k (entries (lookup "definitions" meanings)))
    × ((k : String)
        → has k (entries (lookup "$defs" meanings)) ≡ true
        → HasAlias k
            (entries (lookup "$defs" meanings))
            (entries (lookup "definitions" meanings))
            definitions
            aliases)
    × ((k a : String) (fs : Fields)
        → lookup "$ref" fs ≡ str ("#/$defs/" +++ k)
        → JsMap.get k aliases ≡ some a
        → get_field_or_undefined "$ref" (rewrite aliases (obj fs)) ≡ str ("#/definitions/" +++ a))
unfolding lookup has
normalize_schema_for_type_script-ends_example = normalize_schema_for_type_script-ends meanings refl
