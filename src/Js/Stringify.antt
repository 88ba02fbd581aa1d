-- ===== src/Js/Stringify.antt =====
-- `JSON.stringify` on plain data.
use Prim.Native.Char.{Char, code}
use copilot_sdk_swift.Prelude.{
  ◌/◌, ◌%◌, String, true, false, Option, none, some, ltb, same_num, if◌then◌else◌, ◌+++◌,
}
use copilot_sdk_swift.Js.Value.{
  Value, undefined, null, bool, num, str, arr, obj, func, Items, nil, cons, Fields, end, field,
  decimal, digit_text,
}

-- One character of a quoted text.
escape : Char → String
escape c =
    let n = code c in
    if same_num n b'"'
    then "\\\""
    else if same_num n 92
    then "\\\\"
    else if same_num n 8
    then "\\b"
    else if same_num n 12
    then "\\f"
    else if same_num n 10
    then "\\n"
    else if same_num n 13
    then "\\r"
    else if same_num n 9
    then "\\t"
    else if ltb n 32
    then "\\u00" +++ digit_text (n / 16) +++ digit_text (n % 16)
    else String.◌∷◌ c String.[]

escape_all : String → String
unfolding escape digit_text
escape_all String.[] = ""
escape_all (String.◌∷◌ c s) = escape c +++ escape_all s

quote : String → String
unfolding escape_all
quote s = "\"" +++ escape_all s +++ "\""

abbrev or_null : Option String → String
or_null none = "null"
or_null (some t) = t

-- A field of an object, in front of the ones that follow it; one with no text is left out.
abbrev add_field : String → Option String → Option String → Option String
add_field k none rest = rest
add_field k (some t) none = some (k +++ ":" +++ t)
add_field k (some t) (some rest) = some (k +++ ":" +++ t +++ "," +++ rest)

abbrev braces : Option String → String
braces none = "{}"
braces (some t) = "{" +++ t +++ "}"

abbrev brackets : Option String → String
brackets none = "[]"
brackets (some t) = "[" +++ t +++ "]"

abbrev add_item : Option String → Option String → Option String
add_item t none = some (or_null t)
add_item t (some rest) = some (or_null t +++ "," +++ rest)

-- `none` is the `undefined` that it returns for `undefined` and for a function.
unfoldable mutual
  unfolding quote decimal

  pub stringify : Value → Option String
  stringify undefined = none
  stringify null = some "null"
  stringify (bool true) = some "true"
  stringify (bool false) = some "false"
  stringify (num n) = some (decimal n)
  stringify (str s) = some (quote s)
  stringify (arr xs) = some (brackets (stringify_items xs))
  stringify (obj fs) = some (braces (stringify_fields fs))
  stringify (func source) = none

  pub stringify_items : Items → Option String
  stringify_items nil = none
  stringify_items (cons v vs) = add_item (stringify v) (stringify_items vs)

  pub stringify_fields : Fields → Option String
  stringify_fields end = none
  stringify_fields (field k v fs) = add_field (quote k) (stringify v) (stringify_fields fs)
