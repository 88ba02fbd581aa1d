-- ===== src/Client/Queries.antt =====
-- The methods of client.ts that ask the CLI one thing: `ping`, `getStatus`, `getAuthStatus`,
-- `getLastSessionId`, `deleteSession`, `listSessions`, `getSessionMetadata`, `getForegroundSessionId`,
-- `setForegroundSessionId`, and `listModels` with its cache. Dates stay the texts that they are read from.
pub mod Answered
use copilot_sdk_swift.Prelude.{
  String, Bool, Option, none, some, List, [], ◌∷◌, ◌++◌, ◌==◌, if◌then◌else◌, ◌+++◌,
}
use copilot_sdk_swift.Js.Value.{
  Value, undefined, null, str, arr, obj, Items, nil, cons, Fields, end, field, lookup, truthy,
  to_text,
}
use copilot_sdk_swift.Js.Outcome.{Thrown, error, Outcome, ok, throw, ◌>>=◌, map_ok}
use copilot_sdk_swift.Js.JsMap
use copilot_sdk_swift.Rpc.{Request, Peer}
use copilot_sdk_swift.Session.Tasks.{get_field}
use copilot_sdk_swift.Client.State.{Client}

abbrev pub not_connected : Thrown
not_connected = error "Client not connected"

-- How a method ends, and the requests.
abbrev pub Asked {ℓ} : Type ℓ → Type ℓ
Asked A = Outcome A × List Request

-- The guard, the request, and what is made of the answer.
abbrev pub ask {ℓ} :
    {A : Type ℓ} → Peer → Client → Request → (Value → Outcome A) → List Request → Asked A
ask peer c r read sent =
    if c.connection then (peer sent r >>= read, sent ++ r ∷ []) else (throw not_connected, sent)

abbrev pub plain : String → Request
plain method = record { method = method; params = end }

abbrev pub about : String → String → Request
about method id = record { method = method; params = field "sessionId" (str id) end }

-- `error || otherwise`, in the text of an error
abbrev text_or : Value → String → String
text_or v otherwise = if truthy v then to_text v else otherwise

-- `toSessionMetadata`
unfoldable pub to_session_metadata : Value → Outcome Value
to_session_metadata raw = do
  id ← get_field "sessionId" raw
  started ← get_field "startTime" raw
  modified ← get_field "modifiedTime" raw
  summary ← get_field "summary" raw
  is_remote ← get_field "isRemote" raw
  context ← get_field "context" raw
  ok (
      obj (
        field "sessionId" id (
          field "startTime" started (
            field "modifiedTime" modified (
              field "summary" summary
                (field "isRemote" is_remote (field "context" context end)))))))

unfoldable pub all_metadata : Items → Outcome (List Value)
unfolding to_session_metadata
all_metadata nil = ok []
all_metadata (cons v vs) =
    let rest = all_metadata vs in to_session_metadata v >>= λ m. rest >>= λ ms. ok (m ∷ ms)

abbrev not_an_array : Thrown
not_an_array = error "sessions.map is not a function"

abbrev metadata_of : Value → Outcome (List Value)
metadata_of (arr vs) = all_metadata vs
metadata_of _ = throw not_an_array

-- One session, or `undefined`.
abbrev metadata_or_undefined : Value → Outcome Value
metadata_or_undefined v = if truthy v then to_session_metadata v else ok undefined

abbrev foreground_error : Value → Value → Outcome (Unit {0})
foreground_error success message =
    if truthy success
    then ok tt
    else throw (error (text_or message "Failed to set foreground session"))

abbrev deletion_error : String → Value → Value → Outcome (Unit {0})
deletion_error id success message =
    if truthy success
    then ok tt
    else throw
        (error ("Failed to delete session " +++ id +++ ": " +++ text_or message "Unknown error"))

abbrev pub read_deletion : String → Value → Outcome (Unit {0})
read_deletion id response = do
  success ← get_field "success" response
  message ← get_field "error" response
  deletion_error id success message

abbrev pub delete_request : String → Request
delete_request id = about "session.delete" id

module _ (peer : Peer) (c : Client) where
  unfoldable pub ping : Value → List Request → Asked Value
  ping message = ask peer c (record { method = "ping"; params = field "message" message end }) ok

  unfoldable pub get_status : List Request → Asked Value
  get_status = ask peer c (plain "status.get") ok

  unfoldable pub get_auth_status : List Request → Asked Value
  get_auth_status = ask peer c (plain "auth.getStatus") ok

  unfoldable pub get_last_session_id : List Request → Asked Value
  get_last_session_id = ask peer c (plain "session.getLastId") (get_field "sessionId")

  unfoldable pub list_sessions : Value → List Request → Asked (List Value)
  unfolding all_metadata
  list_sessions filter =
      ask peer c (record { method = "session.list"; params = field "filter" filter end })
        (λ response. get_field "sessions" response >>= metadata_of)

  unfoldable pub get_session_metadata : String → List Request → Asked Value
  unfolding to_session_metadata
  get_session_metadata id =
      ask peer c (about "session.getMetadata" id)
        (λ response. get_field "session" response >>= metadata_or_undefined)

  unfoldable pub get_foreground_session_id : List Request → Asked Value
  get_foreground_session_id = ask peer c (plain "session.getForeground") (get_field "sessionId")

  unfoldable pub set_foreground_session_id : String → List Request → Asked (Unit {0})
  unfolding to_text
  set_foreground_session_id id = ask peer c (about "session.setForeground" id) (λ response. do
    success ← get_field "success" response
    message ← get_field "error" response
    foreground_error success message)

  -- The answer is taken apart as a whole; only after a success is the session taken off the client.
  unfoldable pub delete_session : String → List Request → Outcome (Unit {0}) × Client × List Request
  unfolding to_text
  delete_session id sent =
      let (o, sent') = ask peer c (delete_request id) (read_deletion id) sent in
      elim o [
        | ok _ ↦ (ok tt, record c { sessions = JsMap.delete id c.sessions }, sent')
        | throw e ↦ (throw e, c, sent')
      ]

abbrev listed : Items → List Value
listed nil = []
listed (cons v vs) = v ∷ listed vs

-- `[...models]`
abbrev as_list : Value → Outcome (List Value)
as_list (arr vs) = ok (listed vs)
as_list _ = throw (error "models is not iterable")

-- How the models are found if there are none in the cache: by the handler of the options, which may
-- fail, or by a request.
abbrev pub fetch_models :
    Peer → Option (Outcome (List Value)) → Client → List Request → Asked (List Value)
fetch_models peer none c sent =
    ask peer c (plain "models.list") (λ response. get_field "models" response >>= as_list) sent
fetch_models peer (some o) c sent = (o, sent)

-- `listModels` between taking the lock and releasing it: calls take turns.
unfoldable pub list_models :
    Peer
    → Option (Outcome (List Value))
    → Client
    → List Request
    → Outcome (List Value) × Client × List Request
list_models peer on_list_models c sent = elim c.models_cache [
  | some models ↦ (ok models, c, sent)
  | none ↦
      let (o, sent') = fetch_models peer on_list_models c sent in
      elim o [
        | ok models ↦ (ok models, record c { models_cache = some models }, sent')
        | throw e ↦ (throw e, c, sent')
      ]
]
