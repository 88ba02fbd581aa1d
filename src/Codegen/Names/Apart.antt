-- ===== src/Codegen/Names/Apart.antt =====
-- When references to the two namespaces of definitions get different names.
use Prim.Native.Char.{Char}
use copilot_sdk_swift.Prelude.{
  String, ◌≡◌, ◌↔◌, ◌≢◌, ◌⊎◌, refl, sym, ap, ◌∙◌, Bool, true, false, Option, none, some, List, [],
  ◌∷◌, ◌++◌, inl, inr, Bool-cases, ◌+++◌, ◌==◌, eq_iff, eq_refl, arith, Option-cases, if◌then◌else◌,
}
use package.text.Mathlib.TextLemmas.{nil-append, append_cancel_right}
use copilot_sdk_swift.Js.Value.{Value, undefined, null, bool, num, str, arr, obj, func}
use copilot_sdk_swift.Session.Ui.{get_field_or_undefined}
use copilot_sdk_swift.Client.Options.{chars, text}
use copilot_sdk_swift.Codegen.Sorted.{stable_stringify}
use copilot_sdk_swift.Codegen.Objects.{is_undefined}
use copilot_sdk_swift.Codegen.Hoist.{same_text}
use copilot_sdk_swift.Codegen.Refs.Chars.{chars-append, text-chars}
use copilot_sdk_swift.Codegen.Refs.{
  DefinitionCollections, behind, has_line_end, match_chars, match_ref,
}
use copilot_sdk_swift.Codegen.Names.{
  base_name, last_part, behind_slash, is_ambiguous, ref_type_name,
}

draft≢ : (s : String) → "Draft" +++ s ≢ s
draft≢ s e = draft (append_cancel_right "Draft" "" s (e ∙ sym (nil-append s)))
  where
    draft : ◌≢◌ {A = String} "Draft" ""
    draft h = cc h

-- One of the two is missing, or they have the same stable text.
abbrev pub IsAlike : (String → String → Bool) → Value → Value → Type 0
IsAlike not_after legacy draft =
    (legacy ≡ undefined)
    ⊎ ((draft ≡ undefined) ⊎ (stable_stringify not_after legacy ≡ stable_stringify not_after draft))

missing : (v : Value) → is_undefined v ≡ true → v ≡ undefined
missing undefined h = refl
missing null h = absurd (cc h)
missing (bool b) h = absurd (cc h)
missing (num n) h = absurd (cc h)
missing (str s) h = absurd (cc h)
missing (arr xs) h = absurd (cc h)
missing (obj fs) h = absurd (cc h)
missing (func s) h = absurd (cc h)

same_text_sound : (a b : Option String) → same_text a b ≡ true → a ≡ b
same_text_sound none none h = refl
same_text_sound (some a) (some b) h = ap some ((eq_iff a b).0 h)
same_text_sound none (some b) h = absurd (cc h)
same_text_sound (some a) none h = absurd (cc h)

same_text_refl : (a : Option String) → same_text a a ≡ true
same_text_refl none = refl
same_text_refl (some a) = eq_refl a

module _ (not_after : String → String → Bool) (legacy draft : Value) where
  is_ambiguous-IsAlike :
      is_ambiguous not_after legacy draft ≡ false → IsAlike not_after legacy draft
  unfolding is_ambiguous
  is_ambiguous-IsAlike h = elim (Bool-cases (is_undefined legacy)) [
    | inl a ↦ inl (missing legacy a)
    | inr a ↦ elim (Bool-cases (is_undefined draft)) [
      | inl b ↦ inr (inl (missing draft b))
      | inr b ↦ inr (
          inr (
            same_text_sound (stable_stringify not_after legacy) (stable_stringify not_after draft)
              (ground (arith, a, b, h))))
    ]
  ]

  IsAlike-is_ambiguous :
      IsAlike not_after legacy draft → is_ambiguous not_after legacy draft ≡ false
  unfolding is_ambiguous
  IsAlike-is_ambiguous (inl e) = rw e refl
  IsAlike-is_ambiguous (inr (inl e)) = elim (Bool-cases (is_undefined legacy)) [
    | inl a ↦ rw (e, a) refl
    | inr a ↦ rw (e, a) refl
  ]
  IsAlike-is_ambiguous (inr (inr e)) =
      let same = same_text_refl (stable_stringify not_after draft) in
      elim (Bool-cases (is_undefined legacy)) [
        | inl a ↦ ground (arith, a)
        | inr a ↦ elim (Bool-cases (is_undefined draft)) [
          | inl b ↦ ground (arith, a, b)
          | inr b ↦ rw (e, a, b, same) refl
        ]
      ]

behind_slash-append :
    (xs ys r : List Char) → behind_slash ys ≡ some r → behind_slash (xs ++ ys) ≡ some r
unfolding behind_slash
behind_slash-append [] ys r h = h
behind_slash-append (x ∷ xs) ys r h = rw (behind_slash-append xs ys r h) refl

match_chars-legacy :
    (c : Char) (cs : List Char)
    → has_line_end (c ∷ cs) ≡ false
    → match_chars (chars "#/definitions/" ++ (c ∷ cs)) ≡ some (false, text (c ∷ cs))
unfolding behind has_line_end
match_chars-legacy c cs l = ground (arith, l)

match_chars-draft :
    (c : Char) (cs : List Char)
    → has_line_end (c ∷ cs) ≡ false
    → match_chars (chars "#/$defs/" ++ (c ∷ cs)) ≡ some (true, text (c ∷ cs))
unfolding behind has_line_end
match_chars-draft c cs l = ground (arith, l)

match_ref-legacy :
    (k : String)
    → has_line_end (chars k) ≡ false
    → k == "" ≡ false
    → match_ref ("#/definitions/" +++ k) ≡ some (false, k)
unfolding match_ref
match_ref-legacy String.[] l n = absurd (cc n)
match_ref-legacy (String.◌∷◌ c s) l n =
    ap match_chars (chars-append "#/definitions/" (String.◌∷◌ c s))
    ∙ match_chars-legacy c (chars s) l
    ∙ ap (λ (t : String). some (false, String.◌∷◌ c t)) (text-chars s)

match_ref-draft :
    (k : String)
    → has_line_end (chars k) ≡ false
    → k == "" ≡ false
    → match_ref ("#/$defs/" +++ k) ≡ some (true, k)
unfolding match_ref
match_ref-draft String.[] l n = absurd (cc n)
match_ref-draft (String.◌∷◌ c s) l n =
    ap match_chars (chars-append "#/$defs/" (String.◌∷◌ c s))
    ∙ match_chars-draft c (chars s) l
    ∙ ap (λ (t : String). some (true, String.◌∷◌ c t)) (text-chars s)

-- What stands behind the last slash of a text that has one.
base_name-append :
    (s k : String) (r : List Char)
    → behind_slash (chars s ++ chars k) ≡ some r
    → base_name (s +++ k) ≡ text r
unfolding base_name
base_name-append s k r h =
    ap (λ cs. last_part (s +++ k) (behind_slash cs)) (chars-append s k) ∙ ap (last_part (s +++ k)) h

-- The last part of a reference depends on its key only.
base_name-namespaces :
    (k : String) → base_name ("#/definitions/" +++ k) ≡ base_name ("#/$defs/" +++ k)
unfolding behind_slash
base_name-namespaces k = elim (Option-cases (behind_slash (chars k))) [
  | inl e ↦
      base_name-append "#/definitions/" k (chars k) (rw (e, behind_slash) refl)
      ∙ sym (base_name-append "#/$defs/" k (chars k) (rw (e, behind_slash) refl))
  | inr (r, e) ↦
      base_name-append "#/definitions/" k r
        (behind_slash-append (chars "#/definitions/") (chars k) r e)
      ∙ sym (base_name-append "#/$defs/" k r (behind_slash-append (chars "#/$defs/") (chars k) r e))
]

module _ (not_after : String → String → Bool) (d : DefinitionCollections) (k : String) where
  legacy_name :
      has_line_end (chars k) ≡ false
      → k == "" ≡ false
      → ref_type_name not_after ("#/definitions/" +++ k) (some d)
        ≡ base_name ("#/definitions/" +++ k)
  unfolding ref_type_name
  legacy_name l n = rw (match_ref-legacy k l n, ref_type_name) refl

  draft_name :
      has_line_end (chars k) ≡ false
      → k == "" ≡ false
      → ref_type_name not_after ("#/$defs/" +++ k) (some d) ≡ (
          let base = base_name ("#/definitions/" +++ k) in
          if is_ambiguous not_after
            (get_field_or_undefined k d.definitions)
            (get_field_or_undefined k d.defs)
          then "Draft" +++ base
          else base)
  unfolding ref_type_name
  draft_name l n = rw (match_ref-draft k l n, ref_type_name, base_name-namespaces k) refl

  -- For a key without line ends, the references to it in the two namespaces get the same name exactly if one
  -- namespace does not have the key or both have it with the same stable text; otherwise the name of the
  -- reference to $defs is that of the other with "Draft" before it.
  pub ref_type_name-is_ambiguous :
      has_line_end (chars k) ≡ false
      → k == "" ≡ false
      → ((ref_type_name not_after ("#/definitions/" +++ k) (some d)
            ≡ ref_type_name not_after ("#/$defs/" +++ k) (some d))
          ↔ IsAlike not_after
              (get_field_or_undefined k d.definitions)
              (get_field_or_undefined k d.defs))
        × (¬ IsAlike not_after
              (get_field_or_undefined k d.definitions)
              (get_field_or_undefined k d.defs)
            → ref_type_name not_after ("#/$defs/" +++ k) (some d)
              ≡ "Draft" +++ ref_type_name not_after ("#/definitions/" +++ k) (some d))
  ref_type_name-is_ambiguous l n =
      let legacy = get_field_or_undefined k d.definitions in
      let draft = get_field_or_undefined k d.defs in
      let base = base_name ("#/definitions/" +++ k) in
      let here = legacy_name l n in
      let other = draft_name l n in
      let choose = λ (b : Bool). if b then "Draft" +++ base else base in
      elim (Bool-cases (is_ambiguous not_after legacy draft)) [
        | inl b ↦
            let drafted = other ∙ ap choose b in
            let apart : ¬ IsAlike not_after legacy draft =
              λ a. absurd (cc (sym b ∙ IsAlike-is_ambiguous not_after legacy draft a)) in
            (
              (λ same. absurd (draft≢ base (sym drafted ∙ sym same ∙ here)), λ a. absurd (apart a)),
              λ _. drafted ∙ ap (λ (t : String). "Draft" +++ t) (sym here),
            )
        | inr b ↦
            let alike = is_ambiguous-IsAlike not_after legacy draft b in
            ((λ _. alike, λ _. here ∙ sym (other ∙ ap choose b)), λ apart. absurd (apart alike))
      ]
