-- ===== src/Prelude/Text/Decimal.antt =====
-- Decimal numbers, read digit by digit from what `decimal` writes.
use Prim.Native.Char.{Char, code}
use Prim.Native.String.{String, char_at}
use Prim.Native.Nat.{ℕ, zero, suc, ◌+◌, ◌-◌, ◌*◌, ◌/◌, ◌%◌, ◌<◌, ◌≤◌}
use text.Mathlib.TextLemmas.{cons-append, nil-append, append_assoc}
use native.Mathlib.Omega.{arith}
use mathlib.Core.Path.{◌≡◌, refl, ap, ap₂, ◌∙◌}
use mathlib.Core.Logic.{◌↔◌, inl, inr}
use mathlib.Core.Bool.{true}
use node_dubbo.Prelude.Tests.{ltb, ltb→lt, if◌then◌else◌, Bool-cases, not_below}
use node_dubbo.Prelude.Numerals.{is_digit}
use node_dubbo.Prelude.Text.{◌+++◌, single, digits_from, decimal}

abbrev digit_char : ℕ → Char
digit_char n = char_at "0123456789" n

digit_char_lem :
    (n : ℕ) → n < 10 → (is_digit (digit_char n) ≡ true) × (code (digit_char n) ≡ 48 + n)
digit_char_lem zero h = (refl, refl)
digit_char_lem (suc zero) h = (refl, refl)
digit_char_lem (suc (suc zero)) h = (refl, refl)
digit_char_lem (suc (suc (suc zero))) h = (refl, refl)
digit_char_lem (suc (suc (suc (suc zero)))) h = (refl, refl)
digit_char_lem (suc (suc (suc (suc (suc zero))))) h = (refl, refl)
digit_char_lem (suc (suc (suc (suc (suc (suc zero)))))) h = (refl, refl)
digit_char_lem (suc (suc (suc (suc (suc (suc (suc zero))))))) h = (refl, refl)
digit_char_lem (suc (suc (suc (suc (suc (suc (suc (suc zero)))))))) h = (refl, refl)
digit_char_lem (suc (suc (suc (suc (suc (suc (suc (suc (suc zero))))))))) h = (refl, refl)
digit_char_lem (suc (suc (suc (suc (suc (suc (suc (suc (suc (suc n)))))))))) h =
    absurd (omega arith)

-- How many digits `digits_from` writes.
width_from : ℕ → ℕ → ℕ
width_from zero n = 0
width_from (suc fuel) n = let rest = width_from fuel (n / 10) in if ltb n 10 then 1 else rest + 1

unfoldable pub width : ℕ → ℕ
unfolding width_from
width n = width_from (suc n) n

-- A value with as many digits put behind it.
shifted : ℕ → ℕ → ℕ → ℕ
shifted zero n v = v
shifted (suc fuel) n v =
    let rest = shifted fuel (n / 10) v in if ltb n 10 then v * 10 else rest * 10

shifted_zero : (fuel n : ℕ) → shifted fuel n 0 ≡ 0
unfolding shifted
shifted_zero zero n = refl
shifted_zero (suc fuel) n = ground (arith, shifted_zero fuel (n / 10))

single-append : (c : Char) (t : String) → single c +++ t ≡ String.◌∷◌ c t
single-append c t = cons-append c String.[] t ∙ ap (String.◌∷◌ c) (nil-append t)

-- A reader takes one digit after the other: how many there are, and their value.
unfoldable pub Reads : {B : Type 0} → (ℕ → ℕ → String → B) → Type 0
Reads f =
    (count value : ℕ) (c : Char) (s : String)
    → is_digit c ≡ true
    → f count value (String.◌∷◌ c s) ≡ f (suc count) (value * 10 + (code c - 48)) s

module _ {B : Type 0} (f : ℕ → ℕ → String → B) (reads : Reads f) where
  digit_step :
      (count value n : ℕ) (t : String)
      → n < 10
      → f count value (single (digit_char n) +++ t) ≡ f (suc count) (value * 10 + n) t
  unfolding Reads
  digit_step count value n t h =
      let (digit, number) = digit_char_lem n h in
      ap (f count value) (single-append (digit_char n) t)
      ∙ reads count value (digit_char n) t digit
      ∙ ap (λ k. f (suc count) (value * 10 + k) t) (omega (arith, number))

  reads_digits :
      (fuel n count value : ℕ) (t : String)
      → n < fuel
      → f count value (digits_from fuel n +++ t)
        ≡ f (count + width_from fuel n) (shifted fuel n value + n) t
  unfolding digits_from width_from shifted
  reads_digits zero n count value t h = absurd (omega arith)
  reads_digits (suc fuel) n count value t h = elim (Bool-cases (ltb n 10)) [
    | inl e ↦ rw e (
        digit_step count value (n % 10) t (omega arith)
        ∙ ap₂ (λ k v. f k v t) (omega arith) (omega (arith, ltb→lt n 10 e)))
    | inr e ↦ rw e (
        ap (f count value)
          (append_assoc (digits_from fuel (n / 10)) (single (digit_char (n % 10))) t)
        ∙ reads_digits fuel (n / 10) count value (single (digit_char (n % 10)) +++ t)
            (omega (arith, not_below n 10 e))
        ∙ digit_step (count + width_from fuel (n / 10)) (shifted fuel (n / 10) value + n / 10)
            (n % 10) t (omega arith)
        ∙ ap₂ (λ k v. f k v t) (omega arith) (omega arith))
  ]

  -- A number that is written and read has its digits counted, and its value.
  pub reads-decimal : (n : ℕ) (t : String) → f 0 0 (decimal n +++ t) ≡ f (width n) n t
  unfolding decimal width
  reads-decimal n t =
      reads_digits (suc n) n 0 0 t (omega arith)
      ∙ ap₂ (λ k v. f k v t) (omega arith) (omega (arith, shifted_zero (suc n) n))

-- Ten to a power, by multiplication.
abbrev pub power_of_ten : ℕ → ℕ
power_of_ten zero = 1
power_of_ten (suc k) = power_of_ten k * 10

power_pos : (k : ℕ) → 1 ≤ power_of_ten k
power_pos zero = omega arith
power_pos (suc k) = omega (arith, power_pos k)

width_from_pos : (fuel n : ℕ) → n < fuel → 1 ≤ width_from fuel n
unfolding width_from
width_from_pos zero n h = absurd (omega arith)
width_from_pos (suc fuel) n h = ground arith

width_iff : (fuel n k : ℕ) → n < fuel → (width_from fuel n ≤ suc k) ↔ (n < power_of_ten (suc k))
unfolding width_from
width_iff zero n k h = absurd (omega arith)
width_iff (suc fuel) n zero h = ground (arith, width_from_pos fuel (n / 10))
width_iff (suc fuel) n (suc k) h = ground (arith, power_pos k, width_iff fuel (n / 10) k)

-- A number has at most as many digits as the power of ten above it says.
pub width-le_iff : (n k : ℕ) → (width n ≤ suc k) ↔ (n < power_of_ten (suc k))
unfolding width
width-le_iff n k = width_iff (suc n) n k (omega arith)

pub width_pos : (n : ℕ) → 1 ≤ width n
unfolding width width_from
width_pos n = ground arith
