-- ===== src/Session/Subscribe/Laws.antt =====
-- Who is subscribed after `on` and after unsubscribing, and which handler a name leads to.
use copilot_sdk_swift.Prelude.{
  ℕ, String, ◌≡◌, refl, ◌&&◌, ◌||◌, not, Option, none, some, List, [], ◌∷◌, arith, ◌==◌, ◌∙◌,
  eq_iff, same_num, if◌then◌else◌, Option-cases, inl, inr,
}
use copilot_sdk_swift.Js.JsMap
use copilot_sdk_swift.Js.JsMap.{JsMap, map_laws, get-empty}
use copilot_sdk_swift.Js.JsSet
use copilot_sdk_swift.Js.JsSet.{JsSet}
use copilot_sdk_swift.Js.JsSet.Laws.{has-add, has-delete}
use copilot_sdk_swift.Session.State.{Session, ToolHandler}
use copilot_sdk_swift.Session.Subscribe.{
  on_typed, on_any, off_typed, off_any, set_or_empty, typed_slots, register_tools, get_tool_handler,
  set_all,
}

typed_slots-on_typed :
    (t u : String) (h : ℕ) (s : Session)
    → typed_slots u (on_typed t h s)
      ≡ (if t == u then JsSet.add h (typed_slots u s) else typed_slots u s)
unfolding typed_slots on_typed JsMap.has
typed_slots-on_typed t u h s = elim (Option-cases (JsMap.get t s.typed_event_handlers)) [
  | inl e ↦
      rw (e, typed_slots) (simp map_laws (unfold set_or_empty in ground (arith, e, eq_iff t u)))
  | inr (hs, e) ↦
      rw (e, typed_slots)
        (simp (map_laws, e) (unfold set_or_empty in ground (arith, e, eq_iff t u)))
]

pub typed_slots-off_typed :
    (t u : String) (h : ℕ) (s : Session)
    → typed_slots u (off_typed t h s)
      ≡ (if t == u then JsSet.delete h (typed_slots u s) else typed_slots u s)
unfolding typed_slots off_typed JsSet.delete
typed_slots-off_typed t u h s = elim (Option-cases (JsMap.get t s.typed_event_handlers)) [
  | inl e ↦ rw (e, off_typed) (unfold set_or_empty in ground (arith, e, eq_iff t u))
  | inr (hs, e) ↦
      rw (e, off_typed) (simp map_laws (unfold set_or_empty in ground (arith, e, eq_iff t u)))
]

-- A listener is subscribed to an event type after `on` exactly if it was before, or is the one that
-- `on` was given for this type.
pub has-on_typed :
    (t u : String) (h j : ℕ) (s : Session)
    → JsSet.has j (typed_slots u (on_typed t h s))
      ≡ (JsSet.has j (typed_slots u s) || ((t == u) && same_num h j))
has-on_typed t u h j s = rw typed_slots-on_typed (ground (arith, has-add j h (typed_slots u s)))

-- A listener is subscribed to an event type after an unsubscription exactly if it was before and is
-- not the one that was taken off this type.
pub has-off_typed :
    (t u : String) (h j : ℕ) (s : Session)
    → JsSet.has j (typed_slots u (off_typed t h s))
      ≡ (JsSet.has j (typed_slots u s) && not ((t == u) && same_num h j))
has-off_typed t u h j s =
    rw typed_slots-off_typed (ground (arith, has-delete j h (typed_slots u s)))

-- The same for the listeners of all events, `on` and unsubscription together.
pub has-on_any-off_any :
    (h j : ℕ) (s : Session)
    → (JsSet.has j (on_any h s).event_handlers ≡ (JsSet.has j s.event_handlers || same_num h j))
      × (JsSet.has j (off_any h s).event_handlers
          ≡ (JsSet.has j s.event_handlers && not (same_num h j)))
unfolding on_any off_any
has-on_any-off_any h j s =
    (has-add j h s.event_handlers, ground (arith, has-delete j h s.event_handlers))

-- Unsubscribing undoes a subscription to the type and leaves all others, but a listener that was
-- subscribed twice is gone after the first unsubscription.
pub off_typed-on_typed :
    (t u : String) (h j : ℕ) (s : Session)
    → JsSet.has j (typed_slots u (off_typed t h (on_typed t h s)))
      ≡ (JsSet.has j (typed_slots u s) && not ((t == u) && same_num h j))
off_typed-on_typed t u h j s = rw has-off_typed (ground (arith, has-on_typed t u h j s))

-- The last entry for a key in a list.
unfoldable pub last_entry {ℓ} : {V : Type ℓ} → String → List (String × V) → Option V
last_entry k [] = none
last_entry k ((j, v) ∷ rest) = elim (last_entry k rest) [
  | none ↦ if j == k then some v else none
  | some w ↦ some w
]

abbrev pub or_else {ℓ} : {V : Type ℓ} → Option V → Option V → Option V
or_else none y = y
or_else (some x) y = some x

pub or_else-none {ℓ} : {V : Type ℓ} (x : Option V) → or_else x none ≡ x
or_else-none none = refl
or_else-none (some x) = refl

get-set_all {ℓ} :
    {V : Type ℓ} (k : String) (l : List (String × V)) (m : JsMap V)
    → JsMap.get k (set_all l m) ≡ or_else (last_entry k l) (JsMap.get k m)
unfolding last_entry
get-set_all k [] m = refl
get-set_all k ((j, v) ∷ rest) m =
    get-set_all k rest (JsMap.set j v m) ∙ (simp map_laws (ground arith))

-- After `registerTools` a name leads to the handler of the last tool of that name, and nothing of
-- what was registered before is left.
pub get_tool_handler-register_tools :
    (name : String) (tools : List (String × ToolHandler)) (s : Session)
    → get_tool_handler name (register_tools (some tools) s) ≡ last_entry name tools
unfolding get_tool_handler register_tools
get_tool_handler-register_tools name tools s =
    get-set_all name tools JsMap.empty ∙ rw get-empty (or_else-none _)
