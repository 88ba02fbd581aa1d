-- ===== src/Codegen/Titles.antt =====
-- `cloneSchemaForCodegen` and `stripNonAnnotationTitles` of utils.ts.
pub mod Cleaned
use copilot_sdk_swift.Prelude.{String, Bool, true, false, ◌==◌, ◌&&◌, ◌||◌, not, if◌then◌else◌}
use copilot_sdk_swift.Js.Value.{
  Value, undefined, null, bool, num, str, arr, obj, func, Items, nil, cons, Fields, end, field,
  lookup,
}
use copilot_sdk_swift.Session.Tasks.{is_text}

unfoldable mutual
  pub clone_schema_for_codegen : Value → Value
  clone_schema_for_codegen undefined = undefined
  clone_schema_for_codegen null = null
  clone_schema_for_codegen (bool b) = bool b
  clone_schema_for_codegen (num n) = num n
  clone_schema_for_codegen (str s) = str s
  clone_schema_for_codegen (arr xs) = arr (clone_items xs)
  clone_schema_for_codegen (obj fs) = obj (clone_fields fs)
  clone_schema_for_codegen (func source) = func source

  pub clone_items : Items → Items
  clone_items nil = nil
  clone_items (cons v vs) = cons (clone_schema_for_codegen v) (clone_items vs)

  pub clone_fields : Fields → Fields
  clone_fields end = end
  clone_fields (field k v fs) =
      let rest = clone_fields fs in
      if k == "titleSource" then rest else field k (clone_schema_for_codegen v) rest

abbrev pub is_annotation : Value → Bool
is_annotation (str s) = s == "annotation"
is_annotation _ = false

abbrev pub keep_title : Fields → Bool
keep_title source = is_text (lookup "title" source) && is_annotation (lookup "titleSource" source)

unfoldable mutual
  unfolding lookup

  pub strip_non_annotation_titles : Value → Value
  strip_non_annotation_titles undefined = undefined
  strip_non_annotation_titles null = null
  strip_non_annotation_titles (bool b) = bool b
  strip_non_annotation_titles (num n) = num n
  strip_non_annotation_titles (str s) = str s
  strip_non_annotation_titles (arr xs) = arr (strip_items xs)
  strip_non_annotation_titles (obj fs) = obj (strip_fields (keep_title fs) fs)
  strip_non_annotation_titles (func source) = func source

  pub strip_items : Items → Items
  strip_items nil = nil
  strip_items (cons v vs) = cons (strip_non_annotation_titles v) (strip_items vs)

  -- The loop over the entries of an object, whose title is kept or not.
  pub strip_fields : (keep : Bool) → Fields → Fields
  strip_fields keep end = end
  strip_fields keep (field k v fs) =
      let rest = strip_fields keep fs in
      if k == "titleSource" || (k == "title" && not keep)
      then rest
      else field k (strip_non_annotation_titles v) rest

-- Whether a key stands anywhere in a value.
unfoldable mutual
  pub occurs : String → Value → Bool
  occurs k undefined = false
  occurs k null = false
  occurs k (bool b) = false
  occurs k (num n) = false
  occurs k (str s) = false
  occurs k (arr xs) = occurs_items k xs
  occurs k (obj fs) = occurs_fields k fs
  occurs k (func source) = false

  pub occurs_items : String → Items → Bool
  occurs_items k nil = false
  occurs_items k (cons v vs) = occurs k v || occurs_items k vs

  pub occurs_fields : String → Fields → Bool
  occurs_fields k end = false
  occurs_fields k (field j v fs) = j == k || (occurs k v || occurs_fields k fs)
