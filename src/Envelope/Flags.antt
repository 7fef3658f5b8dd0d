-- ===== src/Envelope/Flags.antt =====
-- The flags of an envelope are one byte: facts about its bits, checked at every value.
use node_dubbo.Prelude.{
  ℕ, zero, suc, ◌<◌, ◌≤◌, ◌≡◌, refl, Bool, true, false, not, ◌&&◌, ◌||◌, arith, ◌==◌, ==_iff, ltb,
  ltb→lt,
}
use Prim.Native.Nat.{bit_or, bit_xor}
use node_dubbo.Envelope.{has_flag, compressed_flag}

-- A test on every number under a bound, and what it shows of one of them.
holds_under : (ℕ → Bool) → ℕ → Bool
holds_under test zero = true
holds_under test (suc bound) = holds_under test bound && test bound

holds_under_at :
    (test : ℕ → Bool) (bound byte : ℕ)
    → byte < bound
    → holds_under test bound ≡ true
    → test byte ≡ true
unfolding holds_under
holds_under_at test zero byte less whole = absurd (omega arith)
holds_under_at test (suc bound) byte less whole = ground (arith, holds_under_at test bound byte)

abbrev set_clears : ℕ → Bool
set_clears f =
    has_flag f 1
    || (has_flag (bit_or f 1) 1 && (bit_xor (bit_or f 1) 1 == f && ltb (bit_or f 1) 256))

set_clears_table : holds_under set_clears 256 ≡ true
unfolding holds_under
set_clears_table = refl

-- Setting the bit makes it visible, and clearing it gives the flags back.
pub compressed_flag_lem :
    (f : ℕ)
    → f < 256
    → has_flag f compressed_flag ≡ false
    → (has_flag (bit_or f compressed_flag) compressed_flag ≡ true)
      × (bit_xor (bit_or f compressed_flag) compressed_flag ≡ f)
      × (bit_or f compressed_flag < 256)
compressed_flag_lem f h clear = ground (
  arith,
  holds_under_at set_clears 256 f h set_clears_table,
  ==_iff (bit_xor (bit_or f 1) 1) f,
  ltb→lt (bit_or f 1) 256,
)

abbrev marks : ℕ → Bool
marks f = f == 0 || (bit_or 0 f == f && has_flag (bit_or 0 f) f && not (has_flag 0 f))

marks_table : holds_under marks 256 ≡ true
unfolding holds_under
marks_table = refl

-- A flag that is not 0 is seen exactly where it was set.
pub end_flag_lem :
    (f : ℕ)
    → f < 256
    → 1 ≤ f
    → (bit_or 0 f ≡ f) × (has_flag (bit_or 0 f) f ≡ true) × (has_flag 0 f ≡ false)
end_flag_lem f h positive =
    ground (arith, holds_under_at marks 256 f h marks_table, ==_iff (bit_or 0 f) f)
