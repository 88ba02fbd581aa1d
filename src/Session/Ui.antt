-- ===== src/Session/Ui.antt =====
-- The dialogs of `session.ui` in session.ts: `_elicitation`, `_confirm`, `_select` and `_input`.
pub mod Answers
use copilot_sdk_swift.Prelude.{
  ℕ, String, Bool, true, false, Option, none, some, List, [], ◌∷◌, ◌==◌, if◌then◌else◌,
}
use copilot_sdk_swift.Js.Value.{
  Value, undefined, null, bool, num, str, arr, obj, func, Items, nil, cons, Fields, end, field,
  lookup, is_nullish,
}
use copilot_sdk_swift.Js.Outcome.{Thrown, error}
use copilot_sdk_swift.Rpc.{Request, Peer, Async, pure, lift, raise, ◌>>=◌, ◌>>◌, send_request}
use copilot_sdk_swift.Session.State.{Session}
use copilot_sdk_swift.Session.Tasks.{get_field}

-- `InputOptions`
pub record InputOptions : Type 0 where
  pub title : Option String
  pub description : Option String
  pub min_length : Option ℕ
  pub max_length : Option ℕ
  pub format : Option String
  pub default : Option String

-- `this._capabilities.ui?.elicitation`, as a condition
unfoldable pub can_elicit : Session → Bool
can_elicit s = elim s.capabilities.ui [
  | none ↦ false
  | some ui ↦ elim ui.elicitation [ none ↦ false | some b ↦ b ]
]

abbrev pub not_supported : Thrown
not_supported =
    error
      "Elicitation is not supported by the host. Check session.capabilities.ui?.elicitation before calling UI methods."

unfoldable pub assert_elicitation : Session → Async (Unit {0})
unfolding can_elicit
assert_elicitation s = if can_elicit s then pure tt else raise not_supported

abbrev pub elicitation_request : Session → String → Value → Request
elicitation_request s message schema = record {
  method = "session.ui.elicitation";
  params =
      field "sessionId" (str s.session_id)
        (field "message" (str message) (field "requestedSchema" schema end));
}

-- The schema of a form with one required field.
abbrev pub form : String → Value → Value
form name shape = obj (
    field "type" (str "object") (
      field "properties" (obj (field name shape end))
        (field "required" (arr (cons (str name) nil)) end)))

-- `v?.[key]`
abbrev pub get_field_or_undefined : String → Value → Value
get_field_or_undefined key (obj fs) = lookup key fs
get_field_or_undefined key _ = undefined

abbrev pub is_accept : Value → Bool
is_accept (str a) = a == "accept"
is_accept _ = false

abbrev pub is_true : Value → Bool
is_true (bool b) = b
is_true _ = false

abbrev texts : List String → Items
texts [] = nil
texts (t ∷ ts) = cons (str t) (texts ts)

abbrev non_null : Value → Option Value
non_null v = if is_nullish v then none else some v

-- The value of the form's field if the dialog was accepted and the field is there.
unfoldable pub accepted : String → Value → Async (Option Value)
accepted name result = do
  action ← lift (get_field "action" result)
  if is_accept action
      then (do
        content ← lift (get_field "content" result)
        pure (non_null (get_field_or_undefined name content)))
      else pure none

-- A text option that is set and not empty; the others below need only be set.
abbrev with_text : String → Option String → Fields → Fields
with_text key none fs = fs
with_text key (some t) fs = if t == "" then fs else field key (str t) fs

abbrev with_num : String → Option ℕ → Fields → Fields
with_num key none fs = fs
with_num key (some n) fs = field key (num n) fs

abbrev with_default : Option String → Fields → Fields
with_default none fs = fs
with_default (some t) fs = field "default" (str t) fs

unfoldable pub input_shape : Option InputOptions → Value
input_shape none = obj (field "type" (str "string") end)
input_shape (some o) = obj (
    field "type" (str "string") (
      with_text "title" o.title (
        with_text "description" o.description (
          with_num "minLength" o.min_length (
            with_num "maxLength" o.max_length
              (with_text "format" o.format (with_default o.default end)))))))

abbrev pub confirm_shape : Value
confirm_shape = obj (field "type" (str "boolean") (field "default" (bool true) end))

abbrev pub select_shape : List String → Value
select_shape options = obj (field "type" (str "string") (field "enum" (arr (texts options)) end))

-- Whether the dialog was accepted with its `confirmed` set to `true`.
unfoldable pub confirmed : Value → Async Bool
confirmed result = do
  action ← lift (get_field "action" result)
  if is_accept action
      then (do
        content ← lift (get_field "content" result)
        pure (is_true (get_field_or_undefined "confirmed" content)))
      else pure false

module _ (peer : Peer) (s : Session) where
  unfoldable pub elicitation : String → Value → Async Value
  unfolding assert_elicitation send_request
  elicitation message schema = do
    assert_elicitation s
    send_request peer (elicitation_request s message schema)

  unfoldable pub confirm : String → Async Bool
  unfolding assert_elicitation send_request
  confirm message = do
    assert_elicitation s
    result ← send_request peer (elicitation_request s message (form "confirmed" confirm_shape))
    confirmed result

  unfoldable pub select : String → List String → Async (Option Value)
  unfolding assert_elicitation send_request accepted
  select message options = do
    assert_elicitation s
    result ←
        send_request peer (elicitation_request s message (form "selection" (select_shape options)))
    accepted "selection" result

  unfoldable pub input : String → Option InputOptions → Async (Option Value)
  unfolding assert_elicitation send_request accepted input_shape
  input message options = do
    assert_elicitation s
    result ← send_request peer (elicitation_request s message (form "value" (input_shape options)))
    accepted "value" result
