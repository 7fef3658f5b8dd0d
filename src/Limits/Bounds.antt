-- ===== src/Limits/Bounds.antt =====
-- What the options are after the check, and when the assertions pass.
use node_dubbo.Prelude.{ℕ, ◌≤◌, ◌≡◌, ◌↔◌, Option, Bool, arith}
use node_dubbo.Error.{ok}
use node_dubbo.Limits.{
  IoLimits, or_else, max_read_max_bytes, max_write_max_bytes, default_compress_min_bytes,
  validate_read_write_max_bytes, assert_read_max_bytes, assert_write_max_bytes,
}

abbrev pub InRange : ℕ → Type 0
InRange n = (1 ≤ n) × (n ≤ 4294967295)

-- validateReadWriteMaxBytes accepts the options with given limits exactly if both limits, or their
-- defaults, are from 1 to 2 ^ 32 - 1, and the limits returned are the options with the defaults
-- filled in.
pub validate_read_write_max_bytes_iff :
    (read write compress : Option ℕ) (l : IoLimits)
    → (validate_read_write_max_bytes read write compress ≡ ok l) ↔ (
        InRange l.read_max_bytes
        × InRange l.write_max_bytes
        × (l.read_max_bytes ≡ or_else read max_read_max_bytes)
        × (l.write_max_bytes ≡ or_else write max_write_max_bytes)
        × (l.compress_min_bytes ≡ or_else compress default_compress_min_bytes))
unfolding validate_read_write_max_bytes
validate_read_write_max_bytes_iff read write compress l = ground arith

pub assert_read_max_bytes_iff :
    (max n : ℕ) (known : Bool) → (assert_read_max_bytes max n known ≡ ok tt) ↔ (n ≤ max)
unfolding assert_read_max_bytes
assert_read_max_bytes_iff max n known = ground arith

pub assert_write_max_bytes_iff : (max n : ℕ) → (assert_write_max_bytes max n ≡ ok tt) ↔ (n ≤ max)
unfolding assert_write_max_bytes
assert_write_max_bytes_iff max n = ground arith
