-- ===== src/Client/Spawn/Printed.antt =====
-- What the process of `startCLIServer` prints, and what an announcement of a port in it is.
use Prim.Native.Char.{Char, code}
use copilot_sdk_swift.Prelude.{
  ℕ, ◌+◌, ◌*◌, ◌-◌, ◌≤◌, String, ◌≡◌, refl, sym, ap, ◌∙◌, true, false, ◌&&◌, none, some, List, [],
  ◌∷◌, ◌++◌, leb, same_num, if◌then◌else◌, ◌+++◌, All, arith, inl, inr, Bool-cases, Option-cases,
}
use copilot_sdk_swift.Js.Outcome.{Outcome, ok}
use copilot_sdk_swift.Client.Options.{chars, is_digit, unsigned, digits_value}
use copilot_sdk_swift.Client.Spawn.{
  ProcessEvent, prints, logs, errs, exits, timer_fires, Starting, behind_phrase, find_port,
  settle_once, observe_process, observe_processes,
}
use copilot_sdk_swift.Client.Spawn.Settled.{observe_processes-SameEnd}

-- The standard output after some events, following what was there before.
pub stdout_of : String → List ProcessEvent → String
stdout_of acc [] = acc
stdout_of acc (prints d ∷ es) = stdout_of (acc +++ d) es
stdout_of acc (logs _ ∷ es) = stdout_of acc es
stdout_of acc (errs _ ∷ es) = stdout_of acc es
stdout_of acc (exits _ ∷ es) = stdout_of acc es
stdout_of acc (timer_fires ∷ es) = stdout_of acc es

-- The codes of the characters, those of capital letters as those of small ones.
abbrev pub small_codes : List Char → List ℕ
small_codes [] = []
small_codes (c ∷ cs) =
    (if leb 65 (code c) && leb (code c) 90 then code c + 32 else code c) ∷ small_codes cs

abbrev pub IsDigit : Char → Type 0
IsDigit c = (48 ≤ code c) × (code c ≤ 57)

-- The number that a sequence of digits writes, following the digits of another.
abbrev pub number : ℕ → List Char → ℕ
number n [] = n
number n (c ∷ cs) = number (n * 10 + (code c - 48)) cs

abbrev pub IsEnded : List Char → Type 0
IsEnded [] = Unit {0}
IsEnded (c ∷ cs) = is_digit c ≡ false

-- The text has the phrase somewhere, in small letters or capitals, right before a sequence of digits that
-- is not followed by another digit, and the port is the number that these digits write.
pub record Announces (cs : List Char) (p : ℕ) : Type 0 where
  pub before : List Char
  pub said : List Char
  pub digit : Char
  pub digits : List Char
  pub following : List Char
  pub here : cs ≡ before ++ (said ++ (digit ∷ (digits ++ following)))
  pub phrase : small_codes said ≡ small_codes (chars "listening on port ")
  pub digital : All IsDigit (digit ∷ digits)
  pub ended : IsEnded following
  pub value : p ≡ number 0 (digit ∷ digits)

is_digit-IsDigit : (c : Char) → is_digit c ≡ true → IsDigit c
is_digit-IsDigit c h = (ground (arith, h), ground (arith, h))

-- The digits at the front.
record Front (n : ℕ) (cs : List Char) : Type 0 where
  digits : List Char
  following : List Char
  split : cs ≡ digits ++ following
  digital : All IsDigit digits
  ended : IsEnded following
  value : digits_value n cs ≡ number n digits

digits_value-Front : (n : ℕ) (cs : List Char) → Front n cs
unfolding digits_value
digits_value-Front n [] = record {
  digits = [];
  following = [];
  split = refl;
  digital = tt;
  ended = tt;
  value = refl;
}
digits_value-Front n (c ∷ cs) = elim (Bool-cases (is_digit c)) [
  | inl e ↦
      let f = digits_value-Front (n * 10 + (code c - 48)) cs in
      record {
        digits = c ∷ f.digits;
        following = f.following;
        split = ap (λ (xs : List Char). c ∷ xs) f.split;
        digital = (is_digit-IsDigit c e, f.digital);
        ended = f.ended;
        value = rw (e, digits_value) f.value;
      }
  | inr e ↦ record {
    digits = [];
    following = c ∷ cs;
    split = refl;
    digital = tt;
    ended = e;
    value = rw (e, digits_value) refl;
  }
]

behind_phrase-said :
    (ns : List ℕ) (cs r : List Char)
    → behind_phrase ns cs ≡ some r
    → (said : List Char) × (cs ≡ said ++ r) × (small_codes said ≡ ns)
unfolding behind_phrase
behind_phrase-said [] cs r h = ([], cc h, refl)
behind_phrase-said (n ∷ ns) [] r h = absurd (cc h)
behind_phrase-said (n ∷ ns) (c ∷ cs) r h =
    let small = if leb 65 (code c) && leb (code c) 90 then code c + 32 else code c in
    elim (Bool-cases (same_num small n)) [
      | inl e ↦
          let (said, split, codes) = behind_phrase-said ns cs r (ground (arith, e, h)) in
          let same : small ≡ n = ground (arith, e) in
          (
            c ∷ said,
            ap (λ (xs : List Char). c ∷ xs) split,
            ap (λ m. m ∷ small_codes said) same ∙ ap (λ ms. n ∷ ms) codes,
          )
      | inr e ↦ absurd (ground (arith, e, h))
    ]

-- The number right following the phrase.
unsigned-Announces :
    (before said r : List Char) (p : ℕ)
    → small_codes said ≡ small_codes (chars "listening on port ")
    → unsigned r ≡ some p
    → Announces (before ++ (said ++ r)) p
unfolding digits_value
unsigned-Announces before said [] p s h = absurd (cc h)
unsigned-Announces before said (c ∷ cs) p s h = elim (Bool-cases (is_digit c)) [
  | inr e ↦ absurd (ground (arith, e, h))
  | inl e ↦
      let f = digits_value-Front (number 0 (c ∷ [])) cs in
      let v : digits_value (number 0 (c ∷ [])) cs ≡ p = ground (arith, e, h) in
      record {
        before = before;
        said = said;
        digit = c;
        digits = f.digits;
        following = f.following;
        here = ap (λ (xs : List Char). before ++ (said ++ (c ∷ xs))) f.split;
        phrase = s;
        digital = (is_digit-IsDigit c e, f.digital);
        ended = f.ended;
        value = sym v ∙ f.value;
      }
]

later-Announces : (c : Char) (cs : List Char) (p : ℕ) → Announces cs p → Announces (c ∷ cs) p
later-Announces c cs p a = record {
  before = c ∷ a.before;
  said = a.said;
  digit = a.digit;
  digits = a.digits;
  following = a.following;
  here = ap (λ (xs : List Char). c ∷ xs) a.here;
  phrase = a.phrase;
  digital = a.digital;
  ended = a.ended;
  value = a.value;
}

pub find_port-Announces : (cs : List Char) (p : ℕ) → find_port cs ≡ some p → Announces cs p
unfolding find_port
find_port-Announces [] p h = absurd (cc h)
find_port-Announces (c ∷ cs) p h =
    let listening = small_codes (chars "listening on port ") in
    elim (Option-cases (behind_phrase listening (c ∷ cs))) [
      | inl e ↦ later-Announces c cs p (find_port-Announces cs p (ground (arith, e, h)))
      | inr (r, e) ↦
          let (said, split, codes) = behind_phrase-said listening (c ∷ cs) r e in
          elim (Option-cases (unsigned r)) [
            | inl u ↦ later-Announces c cs p (find_port-Announces cs p (ground (arith, e, u, h)))
            | inr (q, u) ↦
                let same : q ≡ p = ground (arith, e, u, h) in
                rw split (unsigned-Announces [] said r p codes (u ∙ ap some same))
          ]
    ]

-- The events up to the one in which the port is found.
abbrev pub IsPrinted : String → List ProcessEvent → ℕ → Type 0
IsPrinted acc es p =
    (seen : List ProcessEvent) × (later : List ProcessEvent) × (es ≡ seen ++ later)
    × Announces (chars (stdout_of acc seen)) p

later-IsPrinted :
    (e : ProcessEvent) (acc next : String) (es : List ProcessEvent) (p : ℕ)
    → ((seen : List ProcessEvent) → stdout_of acc (e ∷ seen) ≡ stdout_of next seen)
    → IsPrinted next es p
    → IsPrinted acc (e ∷ es) p
later-IsPrinted e acc next es p same (seen, later, split, a) =
    (e ∷ seen, later, ap (λ (xs : List ProcessEvent). e ∷ xs) split, rw (same seen) a)

-- The state after an event that is no text on the standard output.
record SameOutput (s t : Starting) : Type 0 where
  output : t.stdout ≡ s.stdout
  port : t.announced_port ≡ s.announced_port

settle_once-SameOutput : (o : Outcome (Unit {0})) (s : Starting) → SameOutput s (settle_once o s)
settle_once-SameOutput o s = elim (Option-cases s.settled) [
  | inl e ↦ record { output = ground (arith, e); port = ground (arith, e) }
  | inr (x, e) ↦ record { output = ground (arith, e); port = ground (arith, e) }
]

-- A port that was not there before stands in what was printed.
pub observe_processes-IsPrinted :
    (es : List ProcessEvent) (s : Starting) (p : ℕ)
    → s.announced_port ≡ none
    → (observe_processes false es s).announced_port ≡ some p
    → IsPrinted s.stdout es p
unfolding observe_process observe_processes stdout_of
observe_processes-IsPrinted [] s p new h = absurd (cc (new, h))
observe_processes-IsPrinted (prints d ∷ es) s p new h =
    let out = s.stdout +++ d in
    let next : Starting = record s { stdout = out } in
    elim (Option-cases (find_port (chars out))) [
      | inl e ↦
          later-IsPrinted (prints d) s.stdout out es p (λ _. refl)
            (observe_processes-IsPrinted es next p new (ground (arith, e, h)))
      | inr (q, e) ↦ elim (Option-cases s.settled) [
        | inr (o, w) ↦
            later-IsPrinted (prints d) s.stdout out es p (λ _. refl)
              (observe_processes-IsPrinted es next p new (ground (arith, e, w, h)))
        | inl w ↦
            let up : Starting = record next { announced_port = some q; settled = some (ok tt) } in
            let kept = observe_processes-SameEnd false es up (ok tt) refl in
            let end : (observe_processes false es up).announced_port ≡ some p =
              ground (arith, e, w, h) in
            let same : q ≡ p = cc (sym kept.port ∙ end) in
            (prints d ∷ [], es, refl, find_port-Announces (chars out) p (e ∙ ap some same))
      ]
    ]
observe_processes-IsPrinted (logs d ∷ es) s p new h =
    later-IsPrinted (logs d) s.stdout s.stdout es p (λ _. refl)
      (observe_processes-IsPrinted es (record s { stderr_buffer = s.stderr_buffer +++ d }) p new h)
observe_processes-IsPrinted (errs m ∷ es) s p new h =
    let t = observe_process false (errs m) s in
    let same : SameOutput s t = settle_once-SameOutput _ s in
    later-IsPrinted (errs m) s.stdout t.stdout es p
      (λ seen. ap (λ (x : String). stdout_of x seen) (sym same.output))
      (observe_processes-IsPrinted es t p (same.port ∙ new) h)
observe_processes-IsPrinted (exits m ∷ es) s p new h =
    let t = observe_process false (exits m) s in
    let same : SameOutput s t = settle_once-SameOutput _ s in
    later-IsPrinted (exits m) s.stdout t.stdout es p
      (λ seen. ap (λ (x : String). stdout_of x seen) (sym same.output))
      (observe_processes-IsPrinted es t p (same.port ∙ new) h)
observe_processes-IsPrinted (timer_fires ∷ es) s p new h =
    let t = observe_process false timer_fires s in
    let same : SameOutput s t = settle_once-SameOutput _ s in
    later-IsPrinted timer_fires s.stdout t.stdout es p
      (λ seen. ap (λ (x : String). stdout_of x seen) (sym same.output))
      (observe_processes-IsPrinted es t p (same.port ∙ new) h)
