-- ===== src/Codegen/Normalize/Places.antt =====
-- Where a schema of JSON Schema, and an API, hold schemas, written out keyword by keyword, and that the
-- walk of module Normalize goes to these places.
use copilot_sdk_swift.Prelude.{among, String, ◌≡◌, refl, Bool, false, ◌||◌, [], ◌∷◌, if◌then◌else◌}
use copilot_sdk_swift.Js.Value.{
  Value, undefined, null, bool, num, str, arr, obj, func, Items, nil, cons, Fields, end, field,
}
use copilot_sdk_swift.Codegen.Methods.{is_rpc_method}
use copilot_sdk_swift.Codegen.Normalize.{
  Place, schema, schemas, schema_or_list, schema_list, data_only, node, method, whole_api, child,
  drops,
}

-- The keywords of a schema whose values are visited.
abbrev keyword_place : String → Place
keyword_place k =
    if among k ("properties" ∷ "patternProperties" ∷ "definitions" ∷ "$defs" ∷ [])
    then schemas
    else if among k ("items" ∷ [])
    then schema_or_list
    else if among k ("anyOf" ∷ "allOf" ∷ "oneOf" ∷ [])
    then schema_list
    else if among k (
        "additionalProperties" ∷ "propertyNames" ∷ "contains" ∷ "not" ∷ "if" ∷ "then" ∷ "else" ∷ [])
    then schema
    else data_only

abbrev api_place : String → Place
api_place k =
    if among k ("definitions" ∷ "$defs" ∷ [])
    then schemas
    else if among k ("server" ∷ "session" ∷ "clientSession" ∷ [])
    then node
    else data_only

abbrev method_place : String → Place
method_place k = if among k ("params" ∷ "result" ∷ []) then schema else data_only

abbrev node_place : Value → Place
node_place v = if is_rpc_method v then method else node

-- Where the value of a key stands.
abbrev pub inner : Place → String → Value → Place
inner schema k v = keyword_place k
inner schemas k v = schema
inner schema_or_list k v = keyword_place k
inner schema_list k v = data_only
inner data_only k v = data_only
inner node k v = node_place v
inner method k v = method_place k
inner whole_api k v = api_place k

-- Where an item of an array stands.
abbrev pub inside : Place → Value → Place
inside schema v = data_only
inside schemas v = schema
inside schema_or_list v = schema
inside schema_list v = schema
inside data_only v = data_only
inside node v = node_place v
inside method v = data_only
inside whole_api v = data_only

-- The keys that a schema is to be rid of.
abbrev pub bears_title : Place → String → Bool
bears_title schema k = among k ("title" ∷ "titleSource" ∷ [])
bears_title schema_or_list k = among k ("title" ∷ "titleSource" ∷ [])
bears_title schemas k = false
bears_title schema_list k = false
bears_title data_only k = false
bears_title node k = false
bears_title method k = false
bears_title whole_api k = false

-- Whether a schema at a place, or one inside of it, has a title or a title source.
unfoldable mutual
  unfolding is_rpc_method

  pub titled : Place → Value → Bool
  titled p undefined = false
  titled p null = false
  titled p (bool b) = false
  titled p (num n) = false
  titled p (str s) = false
  titled p (arr xs) = titled_items p xs
  titled p (obj fs) = titled_fields p fs
  titled p (func source) = false

  pub titled_items : Place → Items → Bool
  titled_items p nil = false
  titled_items p (cons v vs) = titled (inside p v) v || titled_items p vs

  pub titled_fields : Place → Fields → Bool
  titled_fields p end = false
  titled_fields p (field k v fs) = bears_title p k || (titled (inner p k v) v || titled_fields p fs)

-- The walk goes to these places.
keyword_place-child : (k : String) (v : Value) → keyword_place k ≡ child schema k v
keyword_place-child k v = refl

api_place-child : (k : String) (v : Value) → api_place k ≡ child whole_api k v
api_place-child k v = refl

method_place-child : (k : String) (v : Value) → method_place k ≡ child method k v
method_place-child k v = refl

pub inner-child : (p : Place) (k : String) (v : Value) → inner p k v ≡ child p k v
inner-child schema k v = keyword_place-child k v
inner-child schemas k v = refl
inner-child schema_or_list k v = keyword_place-child k v
inner-child schema_list k v = refl
inner-child data_only k v = refl
inner-child node k v = refl
inner-child method k v = method_place-child k v
inner-child whole_api k v = api_place-child k v

title_keys : (k : String) → among k ("title" ∷ "titleSource" ∷ []) ≡ drops schema k
title_keys k = refl

pub bears_title-drops : (p : Place) (k : String) → bears_title p k ≡ drops p k
bears_title-drops schema k = title_keys k
bears_title-drops schemas k = refl
bears_title-drops schema_or_list k = title_keys k
bears_title-drops schema_list k = refl
bears_title-drops data_only k = refl
bears_title-drops node k = refl
bears_title-drops method k = refl
bears_title-drops whole_api k = refl
