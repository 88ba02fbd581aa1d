-- ===== src/Codegen/Hoist/Shared.antt =====
-- How one step of `hoistTitledSchemas` changes the shared definitions.
use copilot_sdk_swift.Prelude.{
  String, ◌≡◌, refl, sym, ap, ◌∙◌, Bool, true, false, ◌==◌, if◌then◌else◌, arith, inl, inr,
  Bool-cases, eq_iff, if-true, if-false,
}
use copilot_sdk_swift.Js.Value.{
  Value, undefined, null, bool, num, str, arr, obj, func, Fields, lookup, truthy,
}
use copilot_sdk_swift.Js.Object.{put, lookup-put}
use copilot_sdk_swift.Js.Outcome.{ok, Outcome-cases}
use copilot_sdk_swift.Session.Ui.{get_field_or_undefined}
use copilot_sdk_swift.Codegen.Sorted.{stable_stringify}
use copilot_sdk_swift.Codegen.Hoist.{Visit, done, continue_with, ◌>>=◌, same_text, share, hoist}

-- Each shared definition stands under its own title.
pub record IsTitled (shared : Fields) : Type 0 where
  pub own :
      (t : String)
      → truthy (lookup t shared) ≡ true
      → get_field_or_undefined "title" (lookup t shared) ≡ str t

-- What was shared stays, and titles stay right.
pub record Grows (before after : Fields) : Type 0 where
  pub kept : (t : String) → truthy (lookup t before) ≡ true → lookup t after ≡ lookup t before
  pub titled : IsTitled before → IsTitled after

pub Grows-refl : (s : Fields) → Grows s s
Grows-refl s = record { kept = λ t h. refl; titled = λ h. h }

pub Grows-trans : {r s t : Fields} → Grows r s → Grows s t → Grows r t
Grows-trans f g = record {
  kept = λ t h. let same = f.kept t h in g.kept t (ap truthy same ∙ h) ∙ same;
  titled = λ h. g.titled (f.titled h);
}

abbrev pub IsGrowing {ℓ} : {A : Type ℓ} → Visit A → Type ℓ
IsGrowing {A = A} m = (s : Fields) (a : A) (t : Fields) → m s ≡ ok (a, t) → Grows s t

pub done-IsGrowing {ℓ} : {A : Type ℓ} (a : A) → IsGrowing (done a)
done-IsGrowing a s b t h = let same : s ≡ t = ground (arith, h) in rw (← same) (Grows-refl s)

pub bind-IsGrowing {ℓ κ} :
    {A : Type ℓ} {B : Type κ} (m : Visit A) (f : A → Visit B)
    → IsGrowing m
    → ((a : A) → IsGrowing (f a))
    → IsGrowing (m >>= f)
bind-IsGrowing m f hm hf s b t h = elim (Outcome-cases (m s)) [
  | inl ((a, u), e) ↦ Grows-trans (hm s a u e) (hf a u b t (sym (ap (continue_with f) e) ∙ h))
  | inr (x, e) ↦ absurd (ground (arith, sym (ap (continue_with f) e) ∙ h))
]

-- A new definition is added under its title.
pub put-Grows :
    (t : String) (result s : Fields)
    → lookup "title" result ≡ str t
    → truthy (lookup t s) ≡ false
    → Grows s (put t (obj result) s)
unfolding lookup
put-Grows t result s h n = record {
  kept = λ k there. lookup-put t k (obj result) s ∙ other k there;
  titled = λ i. record { own = λ k there. own i k there };
}
  where
    other :
        (k : String)
        → truthy (lookup k s) ≡ true
        → (if t == k then obj result else lookup k s) ≡ lookup k s
    other k there = elim (Bool-cases (t == k)) [
      | inl e ↦
          absurd (cc (sym n ∙ ap (λ (j : String). truthy (lookup j s)) ((eq_iff t k).0 e) ∙ there))
      | inr e ↦ if-false (t == k) (obj result) (lookup k s) e
    ]

    own :
        IsTitled s
        → (k : String) → truthy (lookup k (put t (obj result) s)) ≡ true
        → get_field_or_undefined "title" (lookup k (put t (obj result) s)) ≡ str k
    own i k there = elim (Bool-cases (t == k)) [
      | inl e ↦
          let now = lookup-put t k (obj result) s ∙ if-true (t == k) (obj result) (lookup k s) e in
          ap (get_field_or_undefined "title") now ∙ h ∙ ap str ((eq_iff t k).0 e)
      | inr e ↦
          let now = lookup-put t k (obj result) s ∙ if-false (t == k) (obj result) (lookup k s) e in
          ap (get_field_or_undefined "title") now ∙ i.own k (sym (ap truthy now) ∙ there)
    ]

module _ (not_after : String → String → Bool) (root : String) where
  share-IsGrowing :
      (t : String) (result : Fields)
      → lookup "title" result ≡ str t
      → IsGrowing (share not_after root t result)
  unfolding share
  share-IsGrowing t result h s v u e = elim (Bool-cases (truthy (lookup t s))) [
    | inr n ↦
        let same : put t (obj result) s ≡ u = ground (arith, n, e) in
        rw (← same) (put-Grows t result s h n)
    | inl b ↦
        elim (Bool-cases (
          same_text (stable_stringify not_after (lookup t s))
            (stable_stringify not_after (obj result)))) [
              | inl c ↦ let same : s ≡ u = ground (arith, b, c, e) in rw (← same) (Grows-refl s)
              | inr c ↦ absurd (ground (arith, b, c, e))
            ]
  ]

  pub hoist-IsGrowing : (result : Fields) → IsGrowing (hoist not_after root result)
  unfolding hoist
  hoist-IsGrowing result = go (lookup "title" result) refl
    where
      go : (v : Value) → lookup "title" result ≡ v → IsGrowing (hoist not_after root result)
      go (str t) h s v u e = elim (Bool-cases (t == root)) [
        | inl b ↦ done-IsGrowing (obj result) s v u (ground (arith, h, b, e))
        | inr b ↦ share-IsGrowing t result h s v u (ground (arith, h, b, e))
      ]
      go undefined h s v u e = done-IsGrowing (obj result) s v u (ground (arith, h, e))
      go null h s v u e = done-IsGrowing (obj result) s v u (ground (arith, h, e))
      go (bool b) h s v u e = done-IsGrowing (obj result) s v u (ground (arith, h, e))
      go (num n) h s v u e = done-IsGrowing (obj result) s v u (ground (arith, h, e))
      go (arr xs) h s v u e = done-IsGrowing (obj result) s v u (ground (arith, h, e))
      go (obj fs) h s v u e = done-IsGrowing (obj result) s v u (ground (arith, h, e))
      go (func c) h s v u e = done-IsGrowing (obj result) s v u (ground (arith, h, e))
