-- ===== src/Limits.antt =====
-- packages/dubbo/src/protocol/limit-io.ts: the limits on the size of messages.
pub mod Bounds
use node_dubbo.Prelude.{
  ℕ, ◌≤◌, ◌≡◌, String, Option, none, some, Bool, true, false, ◌||◌, ◌+++◌, decimal, ltb,
  if◌then◌else◌, arith,
}
use node_dubbo.Error.{Code, Outcome, ok, raise}

abbrev pub max_read_max_bytes : ℕ
max_read_max_bytes = 0xffffffff

abbrev pub max_write_max_bytes : ℕ
max_write_max_bytes = max_read_max_bytes

abbrev pub default_compress_min_bytes : ℕ
default_compress_min_bytes = 1024

pub record IoLimits : Type 0 where
  pub read_max_bytes : ℕ
  pub write_max_bytes : ℕ
  pub compress_min_bytes : ℕ

-- `value ?? fallback`.
abbrev pub or_else : Option ℕ → ℕ → ℕ
or_else none d = d
or_else (some n) d = n

range_message : String → ℕ → ℕ → String
range_message option value most =
    option +++ (" " +++ (decimal value +++ (" must be >= 1 and <= " +++ decimal most)))

unfoldable pub validate_read_write_max_bytes : Option ℕ → Option ℕ → Option ℕ → Outcome IoLimits
unfolding range_message
validate_read_write_max_bytes read write compress =
    let w = or_else write max_write_max_bytes in
    let r = or_else read max_read_max_bytes in
    if ltb w 1 || ltb max_write_max_bytes w
    then raise (range_message "writeMaxBytes" w max_write_max_bytes) Code.internal
    else if ltb r 1 || ltb max_read_max_bytes r
    then raise (range_message "readMaxBytes" r max_read_max_bytes) Code.internal
    else ok (record {
      read_max_bytes = r;
      write_max_bytes = w;
      compress_min_bytes = or_else compress default_compress_min_bytes;
    })

unfoldable pub write_message : ℕ → ℕ → String
write_message written max =
    "message size "
    +++ (decimal written +++ (" is larger than configured writeMaxBytes " +++ decimal max))

unfoldable pub read_message : ℕ → ℕ → Bool → String
read_message max bytes_read true =
    "message size "
    +++ (decimal bytes_read +++ (" is larger than configured readMaxBytes " +++ decimal max))
read_message max bytes_read false =
    "message size is larger than configured readMaxBytes " +++ decimal max

unfoldable pub assert_write_max_bytes : ℕ → ℕ → Outcome (Unit {0})
assert_write_max_bytes max bytes_written =
    if ltb max bytes_written
    then raise (write_message bytes_written max) Code.resource_exhausted
    else ok tt

unfoldable pub assert_read_max_bytes : ℕ → ℕ → Bool → Outcome (Unit {0})
assert_read_max_bytes max bytes_read total_size_known =
    if ltb max bytes_read
    then raise (read_message max bytes_read total_size_known) Code.resource_exhausted
    else ok tt
