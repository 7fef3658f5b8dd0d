-- ===== src/Prelude/Numerals.antt =====
-- `parseInt(text, 10)`: blanks, a sign, and the digits that follow; anything behind them is
-- ignored.
pub mod Decimal
use Prim.Native.Char.{Char, code}
use Prim.Native.String.{String}
use Prim.Native.Nat.{ℕ, ◌+◌, ◌-◌, ◌*◌}
use mathlib.Core.Bool.{Bool, ◌&&◌, ◌||◌}
use mathlib.Core.Option.{Option, none, some}
use node_dubbo.Prelude.Tests.{leb, ◌==◌, if◌then◌else◌}

abbrev pub is_digit : Char → Bool
is_digit c = leb b'0' (code c) && leb (code c) b'9'

-- A blank or a line break of ASCII (the language has some more).
abbrev pub is_blank : Char → Bool
is_blank c = (leb 9 (code c) && leb (code c) 13) || code c == 32

abbrev or_zero : Option ℕ → ℕ
or_zero none = 0
or_zero (some n) = n

-- The digits at the front, read after a number that is known already.
unfoldable pub digits : Option ℕ → String → Option ℕ
digits seen String.[] = seen
digits seen (String.◌∷◌ c s) =
    let rest = digits (some (or_zero seen * 10 + (code c - b'0'))) s in
    if is_digit c then rest else seen

-- A number below 0 is told apart from what is no number.
pub data Integer : Type 0 where
  not_a_number : Integer
  below_zero : Integer
  natural : ℕ → Integer

negated : Option ℕ → Integer
negated none = not_a_number
negated (some n) = if n == 0 then natural 0 else below_zero

plain : Option ℕ → Integer
plain none = not_a_number
plain (some n) = natural n

signed : String → Integer
signed String.[] = not_a_number
signed (String.◌∷◌ c s) =
    if code c == b'-'
    then negated (digits none s)
    else if code c == b'+'
    then plain (digits none s)
    else plain (digits none (String.◌∷◌ c s))

unfoldable pub parse_int : String → Integer
unfolding digits negated plain signed
parse_int String.[] = not_a_number
parse_int (String.◌∷◌ c s) =
    let rest = parse_int s in if is_blank c then rest else signed (String.◌∷◌ c s)
