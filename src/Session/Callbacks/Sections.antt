-- ===== src/Session/Callbacks/Sections.antt =====
-- The sections of a transformed system message.
use copilot_sdk_swift.Prelude.{String, ◌≡◌, refl, Option, [], ◌∷◌, arith, ◌∙◌, eq_iff}
use mathlib.Core.Option
use copilot_sdk_swift.Js.JsMap
use copilot_sdk_swift.Js.JsMap.{JsMap, map_laws, get-empty}
use copilot_sdk_swift.Session.State.{Session, SectionTransformFn}
use copilot_sdk_swift.Session.Subscribe.Laws.{last_entry, or_else, or_else-none}
use copilot_sdk_swift.Session.Callbacks.{
  transform_section, find_callback, transform_sections, handle_system_message_transform,
}

get-transform_sections :
    (callbacks : Option (JsMap SectionTransformFn)) (k : String) (result sections : JsMap String)
    → JsMap.get k (transform_sections callbacks result sections)
      ≡ or_else
          (Option.map (transform_section (find_callback k callbacks)) (last_entry k sections))
          (JsMap.get k result)
unfolding transform_sections last_entry
get-transform_sections callbacks k result [] = refl
get-transform_sections callbacks k result ((id, content) ∷ rest) =
    get-transform_sections callbacks k
      (JsMap.set id (transform_section (find_callback id callbacks) content) result) rest
    ∙ simp map_laws (ground (arith, eq_iff id k))

-- After a transform each section has what its callback made of its content, its content as it was if
-- it has no callback or the callback fails, and no section is lost or added.
pub get-handle_system_message_transform :
    (k : String) (sections : JsMap String) (s : Session)
    → JsMap.get k (handle_system_message_transform sections s)
      ≡ Option.map
          (transform_section (find_callback k s.transform_callbacks))
          (last_entry k sections)
unfolding handle_system_message_transform
get-handle_system_message_transform k sections s =
    get-transform_sections s.transform_callbacks k JsMap.empty sections
    ∙ rw get-empty (or_else-none _)
