-- ===== src/Prelude/Text.antt =====
-- Texts: the native `String`, compared whole by `str_eq`, and walked by its code points.
pub mod Decimal
use Prim.Native.Char.{Char, code}
use Prim.Native.String
use Prim.Native.String.{String, char_at}
use node_dubbo.Prelude.Tests.{ltb, leb, if◌then◌else◌}
use mathlib.Core.Bool.{◌&&◌}
use mathlib.Core.List.{List, [], ◌∷◌}
use Prim.Native.Nat.{ℕ, zero, suc, ◌-◌, ◌/◌, ◌%◌}

infixr 65 ◌+++◌
abbrev pub ◌+++◌ : String → String → String
s +++ t = String.◌++◌ s t

-- One character as a text.
abbrev pub single : Char → String
single c = String.◌∷◌ c String.[]

-- The code points of a text.
abbrev pub codes : String → List ℕ
codes String.[] = []
codes (String.◌∷◌ c s) = code c ∷ codes s

-- `Number.prototype.toString(10)` of a natural number; a number has at most as many digits as
-- its value and one more, so the fuel `suc n` is enough.
pub digits_from : ℕ → ℕ → String
digits_from zero n = ""
digits_from (suc fuel) n =
    let d = single (char_at "0123456789" (n % 10)) in
    let rest = digits_from fuel (n / 10) in if ltb n 10 then d else rest +++ d

unfoldable pub decimal : ℕ → String
unfolding digits_from
decimal n = digits_from (suc n) n

-- `toLowerCase` on the letters A to Z, and the identity on all else.
unfoldable pub lower_char : Char → Char
lower_char c =
    if leb b'A' (code c) && leb (code c) b'Z'
    then char_at "abcdefghijklmnopqrstuvwxyz" (code c - b'A')
    else c

unfoldable pub lower : String → String
unfolding lower_char
lower String.[] = ""
lower (String.◌∷◌ c s) = String.◌∷◌ (lower_char c) (lower s)
