-- ===== src/Codegen/Refs/Chars.antt =====
-- The characters of texts that are put together, for the references of module Refs.
use Prim.Native.Char.{Char}
use copilot_sdk_swift.Prelude.{String, ◌≡◌, refl, ap, ◌∙◌, List, ◌∷◌, ◌++◌, ◌+++◌}
use package.text.Mathlib.TextLemmas.{nil-append, cons-append}
use copilot_sdk_swift.Client.Options.{chars, text}

-- The characters of a text.
pub chars-append : (s t : String) → chars (s +++ t) ≡ chars s ++ chars t
chars-append String.[] t = ap (λ (u : String). chars u) (nil-append t)
chars-append (String.◌∷◌ c s) t =
    ap (λ (u : String). chars u) (cons-append c s t)
    ∙ ap (λ (cs : List Char). c ∷ cs) (chars-append s t)

pub text-chars : (s : String) → text (chars s) ≡ s
text-chars String.[] = refl
text-chars (String.◌∷◌ c s) = ap (λ (u : String). String.◌∷◌ c u) (text-chars s)
