-- ===== src/Client/SystemMessage.antt =====
-- `extractTransformCallbacks` of client.ts.
use copilot_sdk_swift.Prelude.{
  String, Bool, false, Option, none, some, List, [], ◌∷◌, ◌==◌, if◌then◌else◌,
}
use copilot_sdk_swift.Js.Value.{Value, undefined, str, obj, func, Fields, end, field}
use copilot_sdk_swift.Js.JsMap
use copilot_sdk_swift.Js.JsMap.{JsMap}
use copilot_sdk_swift.Session.State.{SectionTransformFn}

-- The override of a section: a function (with its source text) or a named action, each with a content.
pub data SectionOverride : Type 0 where
  transform : (source : String) → SectionTransformFn → (content : Value) → SectionOverride
  named : (action content : Value) → SectionOverride
  missing : SectionOverride

pub record SystemMessage : Type 0 where
  pub mode : Value
  pub content : Value
  pub sections : Option (List (String × SectionOverride))

pub record Extracted : Type 0 where
  pub wire_payload : Value
  pub transform_callbacks : Option (JsMap SectionTransformFn)

abbrev override_value : SectionOverride → Value
override_value (transform source f content) =
    obj (field "action" (func source) (field "content" content end))
override_value (named action content) = obj (field "action" action (field "content" content end))
override_value missing = undefined

abbrev section_fields : List (String × SectionOverride) → Fields
section_fields [] = end
section_fields ((id, o) ∷ rest) = field id (override_value o) (section_fields rest)

abbrev sections_value : Option (List (String × SectionOverride)) → Value
sections_value none = undefined
sections_value (some l) = obj (section_fields l)

abbrev with_sections : SystemMessage → Value → Value
with_sections m sections =
    obj (field "mode" m.mode (field "content" m.content (field "sections" sections end)))

abbrev pub unchanged : SystemMessage → Extracted
unchanged m = record {
  wire_payload = with_sections m (sections_value m.sections);
  transform_callbacks = none;
}

abbrev pub empty_extraction : Extracted
empty_extraction = record { wire_payload = undefined; transform_callbacks = none }

abbrev pub is_customize : Value → Bool
is_customize (str m) = m == "customize"
is_customize _ = false

-- The loop over the entries: the callbacks, after those of the entries before.
unfoldable pub callbacks_of :
    List (String × SectionOverride) → JsMap SectionTransformFn → JsMap SectionTransformFn
callbacks_of [] m = m
callbacks_of ((id, transform source f content) ∷ rest) m = callbacks_of rest (JsMap.set id f m)
callbacks_of ((id, named action content) ∷ rest) m = callbacks_of rest m
callbacks_of ((id, missing) ∷ rest) m = callbacks_of rest m

-- The same loop: what is sent of each section.
unfoldable pub wire_sections : List (String × SectionOverride) → Fields
wire_sections [] = end
wire_sections ((id, transform source f content) ∷ rest) =
    field id (obj (field "action" (str "transform") end)) (wire_sections rest)
wire_sections ((id, named action content) ∷ rest) =
    field id (obj (field "action" action (field "content" content end))) (wire_sections rest)
wire_sections ((id, missing) ∷ rest) = wire_sections rest

abbrev split :
    SystemMessage → List (String × SectionOverride) → JsMap SectionTransformFn → Extracted
split m l [] = unchanged m
split m l (c ∷ cs) = record {
  wire_payload = with_sections m (obj (wire_sections l));
  transform_callbacks = some (c ∷ cs);
}

unfoldable pub extract_transform_callbacks : SystemMessage → Extracted
unfolding wire_sections
extract_transform_callbacks m = elim m.sections [
  | none ↦ unchanged m
  | some l ↦ if is_customize m.mode then split m l (callbacks_of l JsMap.empty) else unchanged m
]
