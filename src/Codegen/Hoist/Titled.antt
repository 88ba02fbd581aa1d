-- ===== src/Codegen/Hoist/Titled.antt =====
-- What stands in the definitions that `hoistTitledSchemas` shares.
use copilot_sdk_swift.Prelude.{
  String, ◌≡◌, Bool, some, List, [], ◌∷◌, ◌==◌, arith, inl, inr, Bool-cases, Option-cases,
}
use copilot_sdk_swift.Js.Value.{
  Value, undefined, null, bool, num, str, arr, obj, func, Items, nil, cons, Fields, end, field,
  lookup,
}
use copilot_sdk_swift.Js.Object.{put}
use copilot_sdk_swift.Js.Outcome.{ok}
use copilot_sdk_swift.Codegen.Hoist.{
  Visit, done, ◌>>=◌, Part, one, named, one_or_list, list, nothing, part_at, PreparedParts,
  find_part, hoist, visit_part, visit_parts, part_order, visit, parts_of, visit_entries,
  visit_items, hoist_roots, hoist_titled_schemas,
}
use copilot_sdk_swift.Codegen.Hoist.Shared.{
  IsTitled, IsGrowing, done-IsGrowing, bind-IsGrowing, hoist-IsGrowing,
}

module _ (not_after : String → String → Bool) (root : String) where
  AllGrowing : PreparedParts → Type 0
  AllGrowing [] = Unit
  AllGrowing ((k, m) ∷ parts) = IsGrowing m × AllGrowing parts

  find_part-IsGrowing :
      (k : String) (parts : PreparedParts) (m : Visit Value)
      → AllGrowing parts
      → find_part k parts ≡ some m
      → IsGrowing m
  unfolding find_part AllGrowing
  find_part-IsGrowing k [] m all h = absurd (cc h)
  find_part-IsGrowing k ((j, n) ∷ parts) m all h = elim (Bool-cases (j == k)) [
    | inl b ↦ let same : n ≡ m = ground (arith, b, h) in rw (← same) all.0
    | inr b ↦ find_part-IsGrowing k parts m all.1 (ground (arith, b, h))
  ]

  visit_part-IsGrowing :
      (parts : PreparedParts) (k : String) (result : Fields)
      → AllGrowing parts
      → IsGrowing (visit_part not_after root parts k result)
  unfolding visit_part
  visit_part-IsGrowing parts k result all = elim (Option-cases (find_part k parts)) [
    | inl e ↦ rw (e, visit_part) (done-IsGrowing result)
    | inr (m, e) ↦
        rw (e, visit_part)
          (bind-IsGrowing m (λ v. done (put k v result)) (find_part-IsGrowing k parts m all e)
            (λ v. done-IsGrowing (put k v result)))
  ]

  visit_parts-IsGrowing :
      (parts : PreparedParts) (ks : List String) (result : Fields)
      → AllGrowing parts
      → IsGrowing (visit_parts not_after root parts ks result)
  unfolding visit_parts
  visit_parts-IsGrowing parts [] result all = done-IsGrowing result
  visit_parts-IsGrowing parts (k ∷ ks) result all =
      bind-IsGrowing (visit_part not_after root parts k result)
        (visit_parts not_after root parts ks) (visit_part-IsGrowing parts k result all)
        (λ r. visit_parts-IsGrowing parts ks r all)

  schema-IsGrowing :
      (parts : PreparedParts) (fs : Fields)
      → AllGrowing parts
      → IsGrowing (visit_parts not_after root parts part_order fs >>= hoist not_after root)
  schema-IsGrowing parts fs all =
      bind-IsGrowing (visit_parts not_after root parts part_order fs) (hoist not_after root)
        (visit_parts-IsGrowing parts part_order fs all) (hoist-IsGrowing not_after root)

  mutual
    unfolding visit AllGrowing

    visit-IsGrowing : (p : Part) (v : Value) → IsGrowing (visit not_after root p v)
    visit-IsGrowing p undefined = done-IsGrowing undefined
    visit-IsGrowing p null = done-IsGrowing null
    visit-IsGrowing p (bool b) = done-IsGrowing (bool b)
    visit-IsGrowing p (num n) = done-IsGrowing (num n)
    visit-IsGrowing p (str s) = done-IsGrowing (str s)
    visit-IsGrowing p (func s) = done-IsGrowing (func s)
    visit-IsGrowing one (obj fs) =
        schema-IsGrowing (parts_of not_after root fs) fs (parts_of-AllGrowing fs)
    visit-IsGrowing one_or_list (obj fs) =
        schema-IsGrowing (parts_of not_after root fs) fs (parts_of-AllGrowing fs)
    visit-IsGrowing named (obj fs) =
        bind-IsGrowing (visit_entries not_after root fs) (λ gs. done (obj gs))
          (visit_entries-IsGrowing fs) (λ gs. done-IsGrowing (obj gs))
    visit-IsGrowing list (obj fs) = done-IsGrowing (obj fs)
    visit-IsGrowing nothing (obj fs) = done-IsGrowing (obj fs)
    visit-IsGrowing one (arr xs) = done-IsGrowing (arr xs)
    visit-IsGrowing named (arr xs) = done-IsGrowing (arr xs)
    visit-IsGrowing nothing (arr xs) = done-IsGrowing (arr xs)
    visit-IsGrowing one_or_list (arr xs) =
        bind-IsGrowing (visit_items not_after root xs) (λ ys. done (arr ys))
          (visit_items-IsGrowing xs) (λ ys. done-IsGrowing (arr ys))
    visit-IsGrowing list (arr xs) =
        bind-IsGrowing (visit_items not_after root xs) (λ ys. done (arr ys))
          (visit_items-IsGrowing xs) (λ ys. done-IsGrowing (arr ys))

    parts_of-AllGrowing : (fs : Fields) → AllGrowing (parts_of not_after root fs)
    parts_of-AllGrowing end = tt
    parts_of-AllGrowing (field k v fs) = (visit-IsGrowing (part_at k) v, parts_of-AllGrowing fs)

    visit_entries-IsGrowing : (fs : Fields) → IsGrowing (visit_entries not_after root fs)
    visit_entries-IsGrowing end = done-IsGrowing end
    visit_entries-IsGrowing (field k v fs) =
        bind-IsGrowing (visit not_after root one v)
          (λ w. visit_entries not_after root fs >>= λ gs. done (field k w gs))
          (visit-IsGrowing one v)
          (λ w.
            bind-IsGrowing (visit_entries not_after root fs) (λ gs. done (field k w gs))
              (visit_entries-IsGrowing fs) (λ gs. done-IsGrowing (field k w gs)))

    visit_items-IsGrowing : (xs : Items) → IsGrowing (visit_items not_after root xs)
    visit_items-IsGrowing nil = done-IsGrowing nil
    visit_items-IsGrowing (cons v vs) =
        bind-IsGrowing (visit not_after root one v)
          (λ w. visit_items not_after root vs >>= λ ws. done (cons w ws)) (visit-IsGrowing one v)
          (λ w.
            bind-IsGrowing (visit_items not_after root vs) (λ ws. done (cons w ws))
              (visit_items-IsGrowing vs) (λ ws. done-IsGrowing (cons w ws)))

hoist_roots-IsGrowing :
    (not_after : String → String → Bool) (roots : Fields) → IsGrowing (hoist_roots not_after roots)
unfolding hoist_roots
hoist_roots-IsGrowing not_after end = done-IsGrowing end
hoist_roots-IsGrowing not_after (field name definition roots) =
    bind-IsGrowing (visit not_after name one definition)
      (λ v. hoist_roots not_after roots >>= λ vs. done (field name v vs))
      (visit-IsGrowing not_after name one definition)
      (λ v.
        bind-IsGrowing (hoist_roots not_after roots) (λ vs. done (field name v vs))
          (hoist_roots-IsGrowing not_after roots) (λ vs. done-IsGrowing (field name v vs)))

-- Where hoistTitledSchemas finds no conflict, each definition that it shares has the title under which it
-- stands.
pub hoist_titled_schemas-IsTitled :
    (not_after : String → String → Bool) (roots roots' shared : Fields)
    → hoist_titled_schemas not_after roots ≡ ok (roots', shared)
    → IsTitled shared
unfolding hoist_titled_schemas lookup
hoist_titled_schemas-IsTitled not_after roots roots' shared h =
    (hoist_roots-IsGrowing not_after roots end roots' shared h).titled
      (record { own = λ t e. absurd (cc e) })
