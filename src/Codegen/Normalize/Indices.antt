-- ===== src/Codegen/Normalize/Indices.antt =====
-- The keys that the items of an array get in an object: module Normalize makes objects of arrays of nodes.
use Prim.Native.Char.{code}
use text.Mathlib.TextLemmas.{nil-append, cons-append}
use copilot_sdk_swift.Prelude.{
  ℕ, zero, suc, ◌/◌, ◌%◌, leb, ltb, same_num, ◌+++◌, String, ◌≡◌, refl, sym, ap, ◌∙◌, Bool, true,
  false, ◌==◌, if◌then◌else◌, inl, inr, Bool-cases, eq_iff,
}
use copilot_sdk_swift.Js.Value.{decimal, decimal_from, digit_text}

-- The key of an item is no "rpcMethod", by its first character.
abbrev is_low : String → Bool
is_low String.[] = true
is_low (String.◌∷◌ c s) = leb (code c) 102

is_low-if :
    (b : Bool) (s t : String)
    → is_low s ≡ true
    → is_low t ≡ true
    → is_low (if b then s else t) ≡ true
is_low-if true s t h k = h
is_low-if false s t h k = k

is_low-append : (s t : String) → is_low s ≡ true → is_low t ≡ true → is_low (s +++ t) ≡ true
is_low-append String.[] t h k = rw (nil-append t) k
is_low-append (String.◌∷◌ c s) t h k = rw (cons-append c s t) h

is_low-digit_text : (n : ℕ) → is_low (digit_text n) ≡ true
unfolding digit_text
is_low-digit_text n = is_low-if (same_num n 0) _ _ refl (
    is_low-if (same_num n 1) _ _ refl (
      is_low-if (same_num n 2) _ _ refl (
        is_low-if (same_num n 3) _ _ refl (
          is_low-if (same_num n 4) _ _ refl (
            is_low-if (same_num n 5) _ _ refl (
              is_low-if (same_num n 6) _ _ refl (
                is_low-if (same_num n 7) _ _ refl (
                  is_low-if (same_num n 8) _ _ refl (
                    is_low-if (same_num n 9) _ _ refl (
                      is_low-if (same_num n 10) _ _ refl (
                        is_low-if (same_num n 11) _ _ refl (
                          is_low-if (same_num n 12) _ _ refl (
                            is_low-if (same_num n 13) _ _ refl
                              (is_low-if (same_num n 14) _ _ refl refl))))))))))))))

is_low-decimal_from : (fuel n : ℕ) → is_low (decimal_from fuel n) ≡ true
unfolding decimal_from
is_low-decimal_from zero n = refl
is_low-decimal_from (suc fuel) n =
    is_low-if (ltb n 10) (digit_text n) (decimal_from fuel (n / 10) +++ digit_text (n % 10))
      (is_low-digit_text n)
      (is_low-append (decimal_from fuel (n / 10)) (digit_text (n % 10))
        (is_low-decimal_from fuel (n / 10)) (is_low-digit_text (n % 10)))

pub decimal_no_method : (n : ℕ) → decimal n == "rpcMethod" ≡ false
unfolding decimal
decimal_no_method n = elim (Bool-cases (decimal n == "rpcMethod")) [
  | inr e ↦ e
  | inl e ↦ absurd (
      cc (
        sym (is_low-decimal_from (suc n) n)
        ∙ ap (λ (s : String). is_low s) ((eq_iff (decimal n) "rpcMethod").0 e)))
]
