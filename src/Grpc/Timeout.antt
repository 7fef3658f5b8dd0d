-- ===== src/Grpc/Timeout.antt =====
-- packages/dubbo/src/protocol-grpc/parse-timeout.ts. A timeout is a number of nanoseconds, since
-- the units below the millisecond give fractions of it; the rounding of such products is left out.
pub mod RoundTrip
use Prim.Native.Char.{Char, code}
use node_dubbo.Prelude.{
  ℕ, zero, suc, ◌+◌, ◌-◌, ◌*◌, Bool, true, false, ◌&&◌, String, Option, none, some, ltb, leb, ◌==◌,
  if◌then◌else◌, ◌+++◌, is_digit, decimal,
}
use node_dubbo.Error.{Code, DubboError}
use node_dubbo.Error

-- The nanoseconds of a unit.
unfoldable pub unit_ns : ℕ → Option ℕ
unit_ns unit =
    if unit == b'H'
    then some 3600000000000
    else if unit == b'M'
    then some 60000000000
    else if unit == b'S'
    then some 1000000000
    else if unit == b'm'
    then some 1000000
    else if unit == b'u'
    then some 1000
    else if unit == b'n'
    then some 1
    else none

-- The end of the text is behind the unit, and one to eight digits are before it.
unfoldable pub unit_at : ℕ → ℕ → Char → String → Option ℕ
unit_at count value c String.[] =
    if leb 1 count && leb count 8 then times value (unit_ns (code c)) else none
  where
    times : ℕ → Option ℕ → Option ℕ
    times n none = none
    times n (some ns) = some (ns * n)
unit_at count value c (String.◌∷◌ d s) = none

-- `/^(\d{1,8})([HMSmun])$/` and the product: `count` digits with a value are read already.
unfoldable pub timeout_from : ℕ → ℕ → String → Option ℕ
timeout_from count value String.[] = none
timeout_from count value (String.◌∷◌ c s) =
    let rest = timeout_from (suc count) (value * 10 + (code c - b'0')) s in
    if is_digit c then rest else unit_at count value c s

pub record Timeout : Type 0 where
  pub timeout_ns : Option ℕ
  pub error : Option DubboError

-- `number_text` is how the language writes the number of milliseconds.
module _ (number_text : ℕ → String) where
  unfoldable pub checked_timeout : ℕ → ℕ → Timeout
  checked_timeout max_timeout_ms timeout_ns =
      if ltb (max_timeout_ms * 1000000) timeout_ns
      then record {
        timeout_ns = some timeout_ns;
        error = some (
            Error.error
              ("timeout "
                +++ (number_text timeout_ns +++ ("ms must be <= " +++ decimal max_timeout_ms)))
              Code.invalid_argument);
      }
      else record { timeout_ns = some timeout_ns; error = none }

  unfoldable pub read_timeout : String → ℕ → Option ℕ → Timeout
  unfolding checked_timeout
  read_timeout value max_timeout_ms none = record {
    timeout_ns = none;
    error = some (
        Error.error ("protocol error: invalid grpc timeout value: " +++ value)
          Code.invalid_argument);
  }
  read_timeout value max_timeout_ms (some timeout_ns) = checked_timeout max_timeout_ms timeout_ns

  unfoldable pub parse_timeout : Option String → ℕ → Timeout
  unfolding read_timeout timeout_from unit_at unit_ns
  parse_timeout none max_timeout_ms = record { timeout_ns = none; error = none }
  parse_timeout (some value) max_timeout_ms =
      read_timeout value max_timeout_ms (timeout_from 0 0 value)
