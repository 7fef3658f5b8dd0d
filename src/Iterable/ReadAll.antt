-- ===== src/Iterable/ReadAll.antt =====
-- packages/dubbo/src/protocol/async-iterable.ts, readAllBytes and parseLengthHint: a whole body
-- in one array, with or without a promised length.
pub mod Exact
use node_dubbo.Prelude.{
  ℕ, ◌+◌, ◌≤◌, Bool, true, false, String, List, [], ◌∷◌, ◌++◌, Option, none, some, length, ltb, leb,
  ◌==◌, if◌then◌else◌, ◌+++◌, decimal, Integer, parse_int,
}
use node_dubbo.ByteArray.{Bytes, zeros, set_at}
use node_dubbo.Error.{Code, Outcome, ok, thrown, raise, ◌>>=◌, ◌>>◌}
use node_dubbo.Limits.{assert_read_max_bytes}
use node_dubbo.Stream.{Stream, finished, raised, yields}

-- The argument `lengthHint`; `number` is a number as JavaScript has it, where `not_a_number` also
-- stands for a fraction.
pub data LengthHint : Type 0 where
  absent : LengthHint
  number : Integer → LengthHint
  text : String → LengthHint

safe_integer : Integer → Option ℕ
safe_integer Integer.not_a_number = none
safe_integer Integer.below_zero = none
safe_integer (Integer.natural n) = if leb n 9007199254740991 then some n else none

-- The hint, if there is one that can be used.
unfoldable pub parse_length_hint : LengthHint → Option ℕ
unfolding safe_integer parse_int
parse_length_hint absent = none
parse_length_hint (number n) = safe_integer n
parse_length_hint (text s) = safe_integer (parse_int s)

unfoldable pub promised_message : ℕ → ℕ → String
promised_message hint received =
    "protocol error: promised " +++ (decimal hint +++ (" bytes, received " +++ decimal received))

-- The loop over the chunks where the length is known, and the check behind it.
unfoldable pub fill : ℕ → Bytes → ℕ → Stream Bytes → Outcome Bytes
fill hint buffer offset finished =
    if ltb offset hint
    then raise (promised_message hint offset) Code.invalid_argument
    else ok buffer
fill hint buffer offset (raised e) = thrown e
fill hint buffer offset (yields chunk s) =
    let rest = fill hint (set_at buffer chunk offset) (offset + length chunk) s in
    if ltb hint (offset + length chunk)
    then raise (promised_message hint (offset + length chunk)) Code.invalid_argument
    else rest

-- The loop that collects chunks and counts bytes.
unfoldable pub collect : ℕ → List Bytes → ℕ → Stream Bytes → Outcome (List Bytes × ℕ)
collect max chunks count finished = ok (chunks, count)
collect max chunks count (raised e) = thrown e
collect max chunks count (yields chunk s) =
    let rest = collect max (chunks ++ (chunk ∷ [])) (count + length chunk) s in
    assert_read_max_bytes max (count + length chunk) false >> rest

-- The loop that copies the chunks behind one another.
unfoldable pub copy : Bytes → ℕ → List Bytes → Bytes
copy all offset [] = all
copy all offset (chunk ∷ chunks) = copy (set_at all chunk offset) (offset + length chunk) chunks

abbrev copy_all : List Bytes × ℕ → Outcome Bytes
copy_all (chunks, count) = ok (copy (zeros count) 0 chunks)

unfoldable pub read_all_bytes : Stream Bytes → ℕ → LengthHint → Outcome Bytes
read_all_bytes s max hint = elim (parse_length_hint hint) [
  | none ↦ collect max [] 0 s >>= copy_all
  | some n ↦ (if ltb max n then assert_read_max_bytes max n true else ok tt) >> fill n (zeros n) 0 s
]
