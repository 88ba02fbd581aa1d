-- ===== src/Client/Queries/Answered.antt =====
-- What the client keeps of the answers to its queries.
use copilot_sdk_swift.Prelude.{
  String, ◌≡◌, refl, true, Option, none, some, List, [], ◌∷◌, ◌++◌, ◌==◌, if◌then◌else◌, arith, ap,
  ◌⊎◌, Option-cases, Bool-cases, inl, inr,
}
use copilot_sdk_swift.Js.Value.{Value}
use copilot_sdk_swift.Js.Outcome.{Thrown, Outcome, ok, throw, Outcome-cases, ◌>>=◌}
use copilot_sdk_swift.Js.JsMap
use copilot_sdk_swift.Js.JsMap.{get-delete}
use copilot_sdk_swift.Rpc.{Request, Peer}
use copilot_sdk_swift.Client.State.{Client}
use copilot_sdk_swift.Client.Queries.{
  not_connected, delete_request, delete_session, fetch_models, list_models, ask, Asked,
  read_deletion,
}

module _ (peer : Peer) (handler : Option (Outcome (List Value))) (c : Client)
    (sent : List Request) where
  pub list_models-hit :
      (models : List Value)
      → c.models_cache ≡ some models
      → list_models peer handler c sent ≡ (ok models, c, sent)
  unfolding list_models
  list_models-hit models m = ground (arith, m)

  pub list_models-filled :
      (models : List Value)
      → c.models_cache ≡ none
      → (fetch_models peer handler c sent).0 ≡ ok models
      → list_models peer handler c sent
        ≡ (ok models, record c { models_cache = some models }, (fetch_models peer handler c sent).1)
  unfolding list_models
  list_models-filled models m o = ground (arith, m, o)

  pub list_models-failed :
      (e : Thrown)
      → c.models_cache ≡ none
      → (fetch_models peer handler c sent).0 ≡ throw e
      → list_models peer handler c sent ≡ (throw e, c, (fetch_models peer handler c sent).1)
  unfolding list_models
  list_models-failed e m o = ground (arith, m, o)

-- A call of `listModels` that returns is answered from the cache from then on: with the same models,
-- without a request, whatever the CLI and the handler would say now. One that throws leaves the client
-- as it is.
pub list_models_cached :
    (peer later : Peer) (handler handler' : Option (Outcome (List Value))) (c : Client)
    (sent sent' : List Request)
    → ((models : List Value) × ((list_models peer handler c sent).0 ≡ ok models)
        × (list_models later handler' (list_models peer handler c sent).1 sent'
            ≡ (ok models, (list_models peer handler c sent).1, sent')))
      ⊎ ((e : Thrown) × ((list_models peer handler c sent).0 ≡ throw e)
          × ((list_models peer handler c sent).1 ≡ c))
list_models_cached peer later handler handler' c sent sent' = elim (Option-cases c.models_cache) [
  | inr (models, m) ↦
      let e = list_models-hit peer handler c sent models m in
      inl (models, rw e refl, rw e (list_models-hit later handler' c sent' models m))
  | inl m ↦ elim (Outcome-cases (fetch_models peer handler c sent).0) [
    | inl (models, o) ↦
        let e = list_models-filled peer handler c sent models m o in
        inl (
          models,
          rw e refl,
          rw e (
              list_models-hit later handler' (record c { models_cache = some models }) sent' models
                refl),
        )
    | inr (x, o) ↦
        let e = list_models-failed peer handler c sent x m o in inr (x, rw e refl, rw e refl)
  ]
]

module _ (peer : Peer) (c : Client) (id : String) (sent : List Request) where
  pub delete_session-deleted :
      (sent' : List Request)
      → ask peer c (delete_request id) (read_deletion id) sent ≡ (ok tt, sent')
      → delete_session peer c id sent
        ≡ (ok tt, record c { sessions = JsMap.delete id c.sessions }, sent')
  unfolding delete_session
  delete_session-deleted sent' h = ap taken h
    where
      taken : Asked (Unit {0}) → Outcome (Unit {0}) × Client × List Request
      taken (o, s) = elim o [
        | ok _ ↦ (ok tt, record c { sessions = JsMap.delete id c.sessions }, s)
        | throw e ↦ (throw e, c, s)
      ]

  pub delete_session-failed :
      (e : Thrown) (sent' : List Request)
      → ask peer c (delete_request id) (read_deletion id) sent ≡ (throw e, sent')
      → delete_session peer c id sent ≡ (throw e, c, sent')
  unfolding delete_session
  delete_session-failed e sent' h = ap taken h
    where
      taken : Asked (Unit {0}) → Outcome (Unit {0}) × Client × List Request
      taken (o, s) = elim o [
        | ok _ ↦ (ok tt, record c { sessions = JsMap.delete id c.sessions }, s)
        | throw e ↦ (throw e, c, s)
      ]

-- `deleteSession` takes exactly the session that it is given off the client, if it returns, and changes
-- nothing if it throws; without a connection it sends nothing.
pub delete_session_cases :
    (peer : Peer) (c : Client) (id : String) (sent : List Request) (j : String)
    → (((delete_session peer c id sent).0 ≡ ok tt)
        × (c.connection ≡ true)
        × (JsMap.get j (delete_session peer c id sent).1.sessions
            ≡ (if id == j then none else JsMap.get j c.sessions))
        × ((delete_session peer c id sent).2 ≡ sent ++ delete_request id ∷ []))
      ⊎ ((e : Thrown) × ((delete_session peer c id sent).0 ≡ throw e)
          × ((delete_session peer c id sent).1 ≡ c)
          × ((delete_session peer c id sent).2
              ≡ (if c.connection then sent ++ delete_request id ∷ [] else sent)))
delete_session_cases peer c id sent j = elim (Bool-cases c.connection) [
  | inr off ↦
      let e = delete_session-failed peer c id sent not_connected sent (ground (arith, off)) in
      inr (not_connected, rw e refl, rw e refl, rw e (ground (arith, off)))
  | inl on ↦ elim (Outcome-cases (peer sent (delete_request id) >>= read_deletion id)) [
    | inl (x, o) ↦
        let e =
          delete_session-deleted peer c id sent (sent ++ delete_request id ∷ [])
            (ground (arith, on, o)) in
        inl (rw e refl, on, rw e (get-delete id j c.sessions), rw e refl)
    | inr (x, o) ↦
        let e =
          delete_session-failed peer c id sent x (sent ++ delete_request id ∷ [])
            (ground (arith, on, o)) in
        inr (x, rw e refl, rw e refl, rw e (ground (arith, on)))
  ]
]
