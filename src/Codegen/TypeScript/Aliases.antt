-- ===== src/Codegen/TypeScript/Aliases.antt =====
-- The names that draft definitions get.
use text.Mathlib.TextLemmas.{length-append}
use Prim.Native.String.{count as count_chars}
use copilot_sdk_swift.Prelude.{
  ℕ, zero, suc, ◌+◌, ◌≤◌, ◌<◌, String, ◌≡◌, refl, sym, ap, ◌∙◌, true, false, some, arith, inl, inr,
  Bool-cases, eq_iff, ◌+++◌, ◌==◌, if◌then◌else◌, if-false, if-true, leb, Bool, not, ◌&&◌, eq_refl,
}
use copilot_sdk_swift.Js.Value.{Value, Fields, end, field, lookup, has}
use copilot_sdk_swift.Js.JsMap
use copilot_sdk_swift.Js.JsMap.{JsMap}
use copilot_sdk_swift.Js.Object.{put, lookup-put}
use copilot_sdk_swift.Codegen.Refs.{count}
use copilot_sdk_swift.Codegen.TypeScript.{free_alias, add_aliases}

abbrev size : String → ℕ
size s = count_chars s

-- How many keys have at least some number of characters.
long_keys : ℕ → Fields → ℕ
long_keys n end = 0
long_keys n (field k v fs) = (if leb n (size k) then 1 else 0) + long_keys n fs

long_keys-count : (n : ℕ) (fs : Fields) → long_keys n fs ≤ count fs
unfolding long_keys count
long_keys-count n end = omega arith
long_keys-count n (field k v fs) = ground (arith, long_keys-count n fs)

long_keys-le : (m n : ℕ) (fs : Fields) → m ≤ n → long_keys n fs ≤ long_keys m fs
unfolding long_keys
long_keys-le m n end h = omega arith
long_keys-le m n (field k v fs) h = ground (arith, h, long_keys-le m n fs h)

long_keys-lt :
    (a : String) (n : ℕ) (fs : Fields)
    → has a fs ≡ true
    → size a < n
    → long_keys n fs < long_keys (size a) fs
unfolding long_keys has
long_keys-lt a n end h l = absurd (cc h)
long_keys-lt a n (field k v fs) h l = elim (Bool-cases (k == a)) [
  | inl e ↦
      let same = (eq_iff k a).0 e in
      let here : size k ≡ size a = ap (λ (t : String). size t) same in
      ground (arith, here, l, long_keys-le (size a) n fs)
  | inr e ↦ ground (arith, e, h, l, long_keys-lt a n fs)
]

size-longer : (a : String) → size a < size ("$defs_" +++ a)
size-longer a = omega (arith, length-append "$defs_" a)

-- Enough fuel gives a name that is not taken.
free_alias-free :
    (fuel : ℕ) (a : String) (fs : Fields)
    → long_keys (size a) fs < fuel
    → (b : String) × (free_alias fuel a fs ≡ some b) × (has b fs ≡ false)
unfolding free_alias
free_alias-free zero a fs h = absurd (omega (arith, h))
free_alias-free (suc fuel) a fs h = elim (Bool-cases (has a fs)) [
  | inr b ↦ (a, ground (arith, b), b)
  | inl b ↦
      let longer = "$defs_" +++ a in
      let (c, found, free) =
        free_alias-free fuel longer fs
          (omega (arith, h, long_keys-lt a (size longer) fs b (size-longer a))) in
      (c, ground (arith, b, found), free)
]

-- A definition keeps its value when another name is written.
pub record Extends (before after : Fields) : Type 0 where
  pub kept :
      (k : String) → has k before ≡ true → (has k after ≡ true) × (lookup k after ≡ lookup k before)

has-put : (k j : String) (v : Value) (fs : Fields) → has j fs ≡ true → has j (put k v fs) ≡ true
unfolding has put
has-put k j v end h = absurd (cc h)
has-put k j v (field i w fs) h = ground (arith, h, has-put k j v fs)

put-Extends : (k : String) (v : Value) (fs : Fields) → has k fs ≡ false → Extends fs (put k v fs)
put-Extends k v fs n = record {
  kept = λ j h.
      (has-put k j v fs h, lookup-put k j v fs ∙ if-false (k == j) v (lookup j fs) (other j h));
}
  where
    other : (j : String) → has j fs ≡ true → k == j ≡ false
    other j h = elim (Bool-cases (k == j)) [
      | inl e ↦ absurd (cc (sym n ∙ ap (λ (i : String). has i fs) ((eq_iff k j).0 e) ∙ h))
      | inr e ↦ e
    ]

-- The keys of an object differ.
abbrev pub distinct : Fields → Bool
distinct end = true
distinct (field k v fs) = not (has k fs) && distinct fs

unput : (k j : String) (v : Value) (fs : Fields) → has j (put k v fs) ≡ false → has j fs ≡ false
unput k j v fs h = elim (Bool-cases (has j fs)) [
  | inl e ↦ absurd (cc (sym h ∙ has-put k j v fs e))
  | inr e ↦ e
]

-- An entry of $defs has an alias that was free, and stands under it.
pub record HasAlias (k : String) (fs before after : Fields) (m : JsMap String) : Type 0 where
  pub alias : String
  pub known : JsMap.get k m ≡ some alias
  pub free : has alias before ≡ false
  pub stands : lookup alias after ≡ lookup k fs

pub record IsAliased (fs before after : Fields) (m m' : JsMap String) : Type 0 where
  pub others : (k : String) → has k fs ≡ false → JsMap.get k m' ≡ JsMap.get k m
  pub named : distinct fs ≡ true → (k : String) → has k fs ≡ true → HasAlias k fs before after m'

has-put_own : (k : String) (v : Value) (fs : Fields) → has k (put k v fs) ≡ true
unfolding has put
has-put_own k v end = ground (arith, eq_refl k)
has-put_own k v (field i w fs) = elim (Bool-cases (i == k)) [
  | inl e ↦ ground (arith, e)
  | inr e ↦ ground (arith, e, has-put_own k v fs)
]

add_one-IsAliased :
    (key a : String) (v : Value) (fs before after : Fields) (m m' : JsMap String)
    → has a before ≡ false
    → Extends (put a v before) after
    → IsAliased fs (put a v before) after (JsMap.set key a m) m'
    → IsAliased (field key v fs) before after m m'
unfolding has lookup
add_one-IsAliased key a v fs before after m m' free ext rest = record {
  others = λ k n. elim (Bool-cases (key == k)) [
    | inl e ↦ absurd (ground (arith, e, n))
    | inr e ↦
        rest.others k (ground (arith, e, n))
        ∙ JsMap.get-set key k a m
        ∙ if-false (key == k) (some a) (JsMap.get k m) e
  ];
  named = λ d k h. elim (Bool-cases (key == k)) [
    | inl e ↦
        let same = (eq_iff key k).0 e in
        let new : has k fs ≡ false = ap (λ (i : String). has i fs) (sym same) ∙ ground (arith, d) in
        record {
          alias = a;
          known =
              rest.others k new
              ∙ JsMap.get-set key k a m
              ∙ if-true (key == k) (some a) (JsMap.get k m) e;
          free = free;
          stands =
              (ext.kept a (has-put_own a v before)).1
              ∙ lookup-put a a v before
              ∙ if-true (a == a) v (lookup a before) (eq_refl a)
              ∙ sym (if-true (key == k) v (lookup k fs) e);
        }
    | inr e ↦
        let r = rest.named (ground (arith, d)) k (ground (arith, e, h)) in
        record {
          alias = r.alias;
          known = r.known;
          free = unput a r.alias v before r.free;
          stands = r.stands ∙ sym (if-false (key == k) v (lookup k fs) e);
        }
  ];
}

pub add_aliases-Extends :
    (fs before : Fields) (m : JsMap String)
    → (after : Fields) × (m' : JsMap String) × (add_aliases fs before m ≡ some (after, m'))
      × Extends before after
      × IsAliased fs before after m m'
unfolding add_aliases has
add_aliases-Extends end before m = (
  before,
  m,
  refl,
  record { kept = λ k h. (h, refl) },
  record { others = λ k n. refl; named = λ d k h. absurd (cc h) },
)
add_aliases-Extends (field key v fs) before m =
    let (a, found, free) =
      free_alias-free (suc (count before)) key before
        (omega (arith, long_keys-count (size key) before)) in
    let (after, m', done, ext, named) =
      add_aliases-Extends fs (put a v before) (JsMap.set key a m) in
    (
      after,
      m',
      rw (found, add_aliases) done,
      record {
        kept = λ k h.
            let one = (put-Extends a v before free).kept k h in
            let rest = ext.kept k one.0 in (rest.0, rest.1 ∙ one.1);
      },
      add_one-IsAliased key a v fs before after m m' free ext named,
    )
