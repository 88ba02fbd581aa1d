-- ===== src/Codegen/Refs/Resolved.antt =====
-- What `resolveSchema` finds, and that it comes to an end.
use copilot_sdk_swift.Prelude.{
  ℕ, zero, suc, ◌≤◌, ◌<◌, String, ◌≡◌, true, false, Option, none, some, List, [], ◌∷◌, ◌==◌, arith,
  inl, inr, Bool-cases, Option-cases, eq_iff, length,
}
use copilot_sdk_swift.Js.Value.{Value, truthy}
use copilot_sdk_swift.Codegen.Refs.{
  DefinitionCollections, resolve_ref, ref_of, is_seen, follow, ref_fuel, resolve_schema,
  or_undefined,
}
use copilot_sdk_swift.Codegen.Refs.Unseen.{
  unseen, unseen-fewer, length-unseen, known_refs, ref_of-resolve_ref, length-known_refs,
}

module _ (d : Option DefinitionCollections) where
  -- To follow references that resolve, from one schema to another.
  pub data Leads : Value → Value → Type 0 where
    there : (v : Value) → Leads v v
    via :
        {v w : Value} (r : String)
        → ref_of v ≡ some r
        → truthy (resolve_ref r d) ≡ true
        → Leads (resolve_ref r d) w
        → Leads v w

  further :
      {v w : Value}
      → Leads v w
      → (r : String) → ref_of w ≡ some r
      → truthy (resolve_ref r d) ≡ true
      → Leads v (resolve_ref r d)
  further (there v) r h t = via r h t (there (resolve_ref r d))
  further (via s e u l) r h t = via s e u (further l r h t)

  -- Where there is nothing to follow: no reference, one that does not resolve, or one that leads back.
  pub data IsLast (v : Value) : Type 0 where
    plain : ref_of v ≡ none → IsLast v
    dangling : (r : String) → ref_of v ≡ some r → truthy (resolve_ref r d) ≡ false → IsLast v
    circular : (r : String) → ref_of v ≡ some r → Leads (resolve_ref r d) v → IsLast v

  follow-Leads :
      (start : Value) (fuel : ℕ) (current : Value) (seen : List String) (w : Value)
      → Leads start current
      → ((r : String) → is_seen r seen ≡ true → Leads (resolve_ref r d) current)
      → follow d fuel current seen ≡ some w
      → Leads start w × IsLast w
  unfolding follow is_seen
  follow-Leads start zero current seen w l back h = absurd (cc h)
  follow-Leads start (suc fuel) current seen w l back h = elim (Option-cases (ref_of current)) [
    | inl e ↦ let same : current ≡ w = ground (arith, e, h) in rw (← same) (l, plain e)
    | inr (r, e) ↦ elim (Bool-cases (is_seen r seen)) [
      | inl b ↦
          let same : current ≡ w = ground (arith, e, b, h) in
          rw (← same) (l, circular r e (back r b))
      | inr b ↦ elim (Bool-cases (truthy (resolve_ref r d))) [
        | inl t ↦
            follow-Leads start fuel (resolve_ref r d) (r ∷ seen) w (further l r e t)
              (λ s m. elim (Bool-cases (r == s)) [
                | inl x ↦ rw ((eq_iff r s).0 x) (there (resolve_ref s d))
                | inr x ↦ further (back s (ground (arith, x, m))) r e t
              ])
              (ground (arith, e, b, t, h))
        | inr t ↦
            let same : current ≡ w = ground (arith, e, b, t, h) in rw (← same) (l, dangling r e t)
      ]
    ]
  ]

  follow-ends :
      (fuel : ℕ) (current : Value) (seen : List String)
      → ((r : String) → ref_of current ≡ some r → is_seen r (known_refs d) ≡ true)
      → unseen (known_refs d) seen < fuel
      → (w : Value) × (follow d fuel current seen ≡ some w)
  unfolding follow
  follow-ends zero current seen known h = absurd (omega (arith, h))
  follow-ends (suc fuel) current seen known h = elim (Option-cases (ref_of current)) [
    | inl e ↦ (current, ground (arith, e))
    | inr (r, e) ↦ elim (Bool-cases (is_seen r seen)) [
      | inl b ↦ (current, ground (arith, e, b))
      | inr b ↦ elim (Bool-cases (truthy (resolve_ref r d))) [
        | inr t ↦ (current, ground (arith, e, b, t))
        | inl t ↦
            let (w, f) =
              follow-ends fuel (resolve_ref r d) (r ∷ seen) (ref_of-resolve_ref r d)
                (omega (arith, h, unseen-fewer (known_refs d) seen r (known r e) b)) in
            (w, ground (arith, e, b, t, f))
      ]
    ]
  ]

  first_round :
      (fuel : ℕ) (start : Value)
      → suc (suc (length (known_refs d))) ≤ fuel
      → (w : Value) × (follow d fuel start [] ≡ some w)
  unfolding follow is_seen
  first_round zero start h = absurd (omega (arith, h))
  first_round (suc fuel) start h = elim (Option-cases (ref_of start)) [
    | inl e ↦ (start, ground (arith, e))
    | inr (r, e) ↦ elim (Bool-cases (truthy (resolve_ref r d))) [
      | inr t ↦ (start, ground (arith, e, t))
      | inl t ↦
          let (w, f) =
            follow-ends fuel (resolve_ref r d) (r ∷ []) (ref_of-resolve_ref r d)
              (omega (arith, h, length-unseen (known_refs d) (r ∷ []))) in
          (w, ground (arith, e, t, f))
    ]
  ]

  -- resolveSchema ends for every schema and all definitions, circular ones too: it returns a schema to which
  -- the references lead from the given one, and from which there is nothing to follow, since it has no
  -- reference, or one that does not resolve, or one that leads back to it.
  pub resolve_schema-ends :
      (schema : Value)
      → (w : Value) × (resolve_schema schema d ≡ some w) × Leads (or_undefined schema) w × IsLast w
  unfolding resolve_schema is_seen
  resolve_schema-ends schema =
      let start = or_undefined schema in
      let (w, f) = first_round (ref_fuel d) start (length-known_refs d) in
      let (l, last) =
        follow-Leads start (ref_fuel d) start [] w (there start) (λ r m. absurd (cc m)) f in
      (w, f, l, last)
