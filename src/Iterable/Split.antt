-- ===== src/Iterable/Split.antt =====
-- packages/dubbo/src/protocol/async-iterable.ts, transformSplitEnvelope: enveloped messages out
-- of a stream of bytes, whatever the chunks are.
pub mod Progress
pub mod Chunks
pub mod RoundTrip
use node_dubbo.Prelude.{
  ℕ, zero, suc, ◌+◌, ◌-◌, String, List, [], ◌++◌, Option, none, some, length, get_or, take, drop,
  ltb, true, ◌==◌, if◌then◌else◌, ◌+++◌, decimal,
}
use node_dubbo.ByteArray.{Bytes, get_uint32}
use node_dubbo.Error.{Code, Reason, dubbo, out_of_fuel, error, ok, thrown}
use node_dubbo.Limits.{assert_read_max_bytes}
use node_dubbo.Stream.{Stream, finished, raised, yields}
use node_dubbo.Envelope.{EnvelopedMessage}

pub record Header : Type 0 where
  pub length : ℕ
  pub flags : ℕ

-- `buffer.subarray(begin, end)` for `begin ≤ end`.
abbrev pub subarray : Bytes → ℕ → ℕ → Bytes
subarray buffer begin end = take (end - begin) (drop begin buffer)

unfoldable pub peek_header : Bytes → Option Header
unfolding get_uint32
peek_header buffer =
    if ltb (length buffer) 5
    then none
    else some (record {
      length =
          get_uint32 (get_or buffer 1 0) (get_or buffer 2 0) (get_or buffer 3 0)
            (get_or buffer 4 0);
      flags = get_or buffer 0 0;
    })

unfoldable pub shift_envelope : Bytes → Header → Option EnvelopedMessage × Bytes
shift_envelope buffer header = if ltb (length buffer) (5 + header.length) then (none, buffer) else (
  some (record { flags = header.flags; payload = subarray buffer 5 (5 + header.length) }),
  drop (5 + header.length) buffer,
)

-- What one round of the inner loop does: leave the loop, throw, or yield a message and go on with
-- the rest of the buffer.
pub data Round : Type 0 where
  stop : Bytes → Round
  fail : Reason → Round
  next : EnvelopedMessage → Bytes → Round

abbrev shifted : Option EnvelopedMessage × Bytes → Round
shifted (none, buffer) = stop buffer
shifted (some env, buffer) = next env buffer

round_header : ℕ → Bytes → Header → Round
round_header max buffer header = elim (assert_read_max_bytes max header.length true) [
  | ok _ ↦ shifted (shift_envelope buffer header)
  | thrown e ↦ fail e
]

unfoldable pub round : ℕ → Bytes → Round
unfolding round_header
round max buffer = elim (peek_header buffer) [
  | none ↦ stop buffer
  | some header ↦ round_header max buffer header
]

-- What the inner loop does: the messages that it yields, and how it is left.
pub data Drained : Type 0 where
  stops : Bytes → Drained
  fails : Reason → Drained
  emits : EnvelopedMessage → Drained → Drained

-- The inner loop, on fuel: every message takes at least five bytes of the buffer.
unfoldable pub drain : ℕ → ℕ → Bytes → Drained
drain zero max buffer = fails out_of_fuel
drain (suc fuel) max buffer = elim (round max buffer) [
  | stop rest ↦ stops rest
  | fail e ↦ fails e
  | next env rest ↦ emits env (drain fuel max rest)
]

unfoldable pub drain_all : ℕ → Bytes → Drained
unfolding drain round peek_header shift_envelope assert_read_max_bytes
drain_all max buffer = drain (suc (length buffer)) max buffer

-- The generator goes on with the next chunk where the inner loop has stopped.
abbrev pub continue : Drained → (Bytes → Stream EnvelopedMessage) → Stream EnvelopedMessage
continue (stops rest) k = k rest
continue (fails e) k = raised e
continue (emits env d) k = yields env (continue d k)

abbrev incomplete_message : Bytes → Option Header → String
incomplete_message buffer none = "protocol error: incomplete envelope"
incomplete_message buffer (some header) =
    "protocol error: promised "
    +++ (decimal header.length
        +++ (" bytes in enveloped message, got " +++ (decimal (length buffer - 5) +++ " bytes")))

unfoldable pub incomplete : Bytes → Reason
incomplete buffer =
    dubbo (error (incomplete_message buffer (peek_header buffer)) Code.invalid_argument)

unfoldable pub split_from : ℕ → Bytes → Stream Bytes → Stream EnvelopedMessage
split_from max buffer finished = if length buffer == 0 then finished else raised (incomplete buffer)
split_from max buffer (raised e) = raised e
split_from max buffer (yields chunk s) =
    continue (drain_all max (buffer ++ chunk)) (λ rest. split_from max rest s)

unfoldable pub transform_split_envelope : ℕ → Stream Bytes → Stream EnvelopedMessage
unfolding split_from drain_all incomplete
transform_split_envelope max s = split_from max [] s
