-- ===== src/Prelude/Numerals/Decimal.antt =====
-- `parseInt` of what `toString(10)` writes.

use Prim.Native.String.{String}
use Prim.Native.Nat.{ℕ}
use text.Mathlib.TextLemmas.{append-nil}
use native.Mathlib.Omega.{arith}
use mathlib.Core.Path.{◌≡◌, ap, sym, ◌∙◌}
use mathlib.Core.Bool.{◌&&◌}
use mathlib.Core.Option.{some}
use node_dubbo.Prelude.Tests.{◌==◌, if◌then◌else◌}
use node_dubbo.Prelude.Numerals.{digits, plain, signed, parse_int, Integer, natural}
use node_dubbo.Prelude.Text.{decimal}
use node_dubbo.Prelude.Text.Decimal.{Reads, reads-decimal, width_pos}

-- `parseInt` before and behind the first digit.
reader : ℕ → ℕ → String → Integer
reader count value s =
    if (count == 0) && (value == 0) then parse_int s else plain (digits (some value) s)

reader-Reads : Reads reader
unfolding Reads reader parse_int signed plain digits
reader-Reads count value c s h = ground arith

pub parse_int-decimal : (n : ℕ) → parse_int (decimal n) ≡ natural n
unfolding reader digits plain
parse_int-decimal n =
    ap parse_int (sym (append-nil (decimal n)))
    ∙ reads-decimal reader reader-Reads n ""
    ∙ ground (arith, width_pos n)
