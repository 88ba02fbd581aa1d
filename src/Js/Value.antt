-- ===== src/Js/Value.antt =====
-- Values of the dynamic language (`unknown` in the sources): plain data, and functions by their
-- source text. Numbers are the naturals, the only ones that the modelled code makes or tests.
use copilot_sdk_swift.Prelude.{
  ℕ, zero, suc, ◌/◌, ◌%◌, String, Bool, true, false, ◌==◌, ltb, same_num, if◌then◌else◌, ◌+++◌,
}

mutual
  pub data Value : Type 0 where
    undefined null : Value
    bool : Bool → Value
    num : ℕ → Value
    str : String → Value
    arr : Items → Value
    obj : Fields → Value
    func : String → Value

  pub data Items : Type 0 where
    nil : Items
    cons : Value → Items → Items

  pub data Fields : Type 0 where
    end : Fields
    field : String → Value → Fields → Fields

-- `o[key]`: `undefined` where the object has no such field; the last write of a key stands first.
unfoldable pub lookup : String → Fields → Value
lookup k end = undefined
lookup k (field j v fs) = if j == k then v else lookup k fs

-- `key in o`
unfoldable pub has : String → Fields → Bool
has k end = false
has k (field j v fs) = if j == k then true else has k fs

-- `v == null`
abbrev pub is_nullish : Value → Bool
is_nullish undefined = true
is_nullish null = true
is_nullish _ = false

-- Whether a value counts as true in a condition.
abbrev pub truthy : Value → Bool
truthy undefined = false
truthy null = false
truthy (bool b) = b
truthy (num n) = if same_num n 0 then false else true
truthy (str s) = if s == "" then false else true
truthy _ = true

unfoldable pub digit_text : ℕ → String
digit_text n =
    if same_num n 0
    then "0"
    else if same_num n 1
    then "1"
    else if same_num n 2
    then "2"
    else if same_num n 3
    then "3"
    else if same_num n 4
    then "4"
    else if same_num n 5
    then "5"
    else if same_num n 6
    then "6"
    else if same_num n 7
    then "7"
    else if same_num n 8
    then "8"
    else if same_num n 9
    then "9"
    else if same_num n 10
    then "a"
    else if same_num n 11
    then "b"
    else if same_num n 12
    then "c"
    else if same_num n 13
    then "d"
    else if same_num n 14
    then "e"
    else "f"

unfoldable pub decimal_from : ℕ → ℕ → String
decimal_from zero n = ""
decimal_from (suc fuel) n =
    let longer = decimal_from fuel (n / 10) +++ digit_text (n % 10) in
    if ltb n 10 then digit_text n else longer

-- `n.toString()`; a number has at most as many digits as its value and one more.
unfoldable pub decimal : ℕ → String
unfolding decimal_from digit_text
decimal n = decimal_from (suc n) n

-- `String(v)`; the parts of an array are joined by commas, a nullish part is empty.
unfoldable mutual
  unfolding decimal

  pub to_text : Value → String
  to_text undefined = "undefined"
  to_text null = "null"
  to_text (bool true) = "true"
  to_text (bool false) = "false"
  to_text (num n) = decimal n
  to_text (str s) = s
  to_text (arr xs) = join_items xs
  to_text (obj fs) = "[object Object]"
  to_text (func source) = source

  pub join_items : Items → String
  join_items nil = ""
  join_items (cons v nil) = part_text v
  join_items (cons v (cons w ws)) = part_text v +++ "," +++ join_items (cons w ws)

  pub part_text : Value → String
  part_text undefined = ""
  part_text null = ""
  part_text (bool true) = "true"
  part_text (bool false) = "false"
  part_text (num n) = decimal n
  part_text (str s) = s
  part_text (arr xs) = join_items xs
  part_text (obj fs) = "[object Object]"
  part_text (func source) = source
