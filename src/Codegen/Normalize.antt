-- ===== src/Codegen/Normalize.antt =====
-- `normalizeSchemaTitles`, `normalizeApiNode` and `normalizeApiSchema` of utils.ts, as one walk: what stands
-- under a key is a schema, some schemas, a node of the API, a method, or data that stays as it is.
pub mod Places
pub mod Indices
pub mod Untitled
use copilot_sdk_swift.Prelude.{ℕ, suc, String, Bool, true, false, ◌==◌, ◌&&◌, ◌||◌, if◌then◌else◌}
use copilot_sdk_swift.Js.Value.{
  Value, undefined, null, bool, num, str, arr, obj, func, Items, nil, cons, Fields, end, field,
  decimal,
}
use copilot_sdk_swift.Codegen.Methods.{is_rpc_method}

pub data Place : Type 0 where
  -- a schema; an object of named schemas; a schema or a list of them; a list of schemas; other data
  schema schemas schema_or_list schema_list data_only : Place
  -- a node of the API, a method there, and the API as a whole
  node method whole_api : Place

abbrev holds_schemas : String → Bool
holds_schemas k =
    k == "properties" || k == "patternProperties" || k == "definitions" || k == "$defs"

abbrev holds_list : String → Bool
holds_list k = k == "anyOf" || k == "allOf" || k == "oneOf"

abbrev holds_schema : String → Bool
holds_schema k =
    k == "additionalProperties"
    || k == "propertyNames"
    || k == "contains"
    || k == "not"
    || k == "if"
    || k == "then"
    || k == "else"

abbrev pub place_in_schema : String → Place
place_in_schema k =
    if holds_schemas k
    then schemas
    else if k == "items"
    then schema_or_list
    else if holds_list k
    then schema_list
    else if holds_schema k
    then schema
    else data_only

abbrev place_in_api : String → Place
place_in_api k =
    if k == "definitions" || k == "$defs"
    then schemas
    else if k == "server" || k == "session" || k == "clientSession"
    then node
    else data_only

-- Where the value of a key stands, for an object at a place.
abbrev pub child : Place → String → Value → Place
child schema k v = place_in_schema k
child schemas k v = schema
child schema_or_list k v = place_in_schema k
child schema_list k v = data_only
child data_only k v = data_only
child node k v = if is_rpc_method v then method else node
child method k v = if k == "params" || k == "result" then schema else data_only
child whole_api k v = place_in_api k

abbrev pub element : Place → Place
element schema_or_list = schema
element schema_list = schema
element _ = data_only

abbrev pub is_title : String → Bool
is_title k = k == "title" || k == "titleSource"

-- The keys that are deleted.
abbrev pub drops : Place → String → Bool
drops schema k = is_title k
drops schema_or_list k = is_title k
drops _ k = false

unfoldable mutual
  unfolding is_rpc_method decimal

  pub normalize : Place → Value → Value
  normalize p undefined = undefined
  normalize p null = null
  normalize p (bool b) = bool b
  normalize p (num n) = num n
  normalize p (str s) = str s
  normalize schemas (arr xs) = obj (normalize_entries schemas 0 xs)
  normalize node (arr xs) = obj (normalize_entries node 0 xs)
  normalize schema (arr xs) = arr (normalize_items schema xs)
  normalize schema_or_list (arr xs) = arr (normalize_items schema_or_list xs)
  normalize schema_list (arr xs) = arr (normalize_items schema_list xs)
  normalize data_only (arr xs) = arr (normalize_items data_only xs)
  normalize method (arr xs) = arr (normalize_items method xs)
  normalize whole_api (arr xs) = arr (normalize_items whole_api xs)
  normalize p (obj fs) = obj (normalize_fields p fs)
  normalize p (func source) = func source

  -- The entries of an array, under their indices: `Object.entries` makes an object of it.
  pub normalize_entries : Place → ℕ → Items → Fields
  normalize_entries p i nil = end
  normalize_entries p i (cons v vs) =
      field (decimal i) (normalize (child p (decimal i) v) v) (normalize_entries p (suc i) vs)

  pub normalize_items : Place → Items → Items
  normalize_items p nil = nil
  normalize_items p (cons v vs) = cons (normalize (element p) v) (normalize_items p vs)

  pub normalize_fields : Place → Fields → Fields
  normalize_fields p end = end
  normalize_fields p (field k v fs) =
      let rest = normalize_fields p fs in
      if drops p k then rest else field k (normalize (child p k v) v) rest

unfoldable pub normalize_schema_titles : Value → Value
unfolding normalize
normalize_schema_titles s = normalize schema s

unfoldable pub normalize_api_node : Value → Value
unfolding normalize
normalize_api_node n = normalize node n

unfoldable pub normalize_api_schema : Value → Value
unfolding normalize
normalize_api_schema api = normalize whole_api api
