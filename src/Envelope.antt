-- ===== src/Envelope.antt =====
-- packages/dubbo/src/protocol/envelope.ts: messages with a header of five bytes, the flags and
-- the length, and their compression. `Compression` is the interface of protocol/compression.ts.
pub mod Encoding
pub mod Flags
pub mod Compressing
pub mod Readable
use node_dubbo.Prelude.{
  ℕ, zero, suc, ◌+◌, ◌%◌, ◌≡◌, ◌≤◌, Bool, true, false, String, List, [], ◌∷◌, ◌++◌, Option, none,
  some, length, leb, ltb, ◌==◌, if◌then◌else◌,
}
use Prim.Native.Nat.{bit_and, bit_or, bit_xor}
use node_dubbo.Error.{Code, Outcome, ok, thrown, raise, ◌>>=◌}
use node_dubbo.ByteArray.{Bytes, set_uint32, zeros, set_at}

pub record EnvelopedMessage : Type 0 where
  pub flags : ℕ
  pub payload : Bytes

pub record Compression : Type 0 where
  pub name : String
  pub compress : Bytes → Outcome Bytes
  pub decompress : Bytes → ℕ → Outcome Bytes

abbrev pub compressed_flag : ℕ
compressed_flag = 1

-- `(flags & flag) === flag`.
abbrev pub has_flag : ℕ → ℕ → Bool
has_flag flags flag = bit_and flags flag == flag

-- The branch that compresses, and the one that does not.
unfoldable pub compress_with : Compression → ℕ → Bytes → Outcome EnvelopedMessage
compress_with c flags payload = do
  packed ← c.compress payload
  ok (record { flags = bit_or flags compressed_flag; payload = packed })

unfoldable pub envelope_compress :
    EnvelopedMessage → Option Compression → ℕ → Outcome EnvelopedMessage
unfolding compress_with
envelope_compress e none compress_min_bytes =
    if has_flag e.flags compressed_flag
    then raise "invalid envelope, already compressed" Code.internal
    else ok e
envelope_compress e (some c) compress_min_bytes =
    if has_flag e.flags compressed_flag
    then raise "invalid envelope, already compressed" Code.internal
    else if leb compress_min_bytes (length e.payload)
    then compress_with c e.flags e.payload
    else ok e

unfoldable pub decompress_with : Compression → ℕ → Bytes → ℕ → Outcome EnvelopedMessage
decompress_with c flags payload read_max_bytes = do
  plain ← c.decompress payload read_max_bytes
  ok (record { flags = bit_xor flags compressed_flag; payload = plain })

unfoldable pub envelope_decompress :
    EnvelopedMessage → Option Compression → ℕ → Outcome EnvelopedMessage
unfolding decompress_with
envelope_decompress e none read_max_bytes =
    if has_flag e.flags compressed_flag
    then raise "received compressed envelope, but do not know how to decompress"
        Code.invalid_argument
    else ok e
envelope_decompress e (some c) read_max_bytes =
    if has_flag e.flags compressed_flag
    then decompress_with c e.flags e.payload read_max_bytes
    else ok e

-- The array of `data.length + 5` bytes, as it is filled: the payload, the flags, the length.
unfoldable pub encode_envelope : ℕ → Bytes → Bytes
unfolding zeros set_at set_uint32
encode_envelope flags payload =
    set_at (set_at (set_at (zeros (length payload + 5)) payload 5) (flags % 256 ∷ []) 0)
      (set_uint32 (length payload)) 1

total_length : List EnvelopedMessage → ℕ → ℕ
total_length [] previous = previous
total_length (e ∷ es) previous = total_length es (previous + length e.payload + 5)

-- The loop of `encodeEnvelopes` over its array.
encode_loop : Bytes → ℕ → List EnvelopedMessage → Bytes
encode_loop bytes offset [] = bytes
encode_loop bytes offset (e ∷ es) =
    encode_loop
      (set_at
        (set_at (set_at bytes (e.flags % 256 ∷ []) offset) (set_uint32 (length e.payload))
          (offset + 1))
        e.payload (offset + 5))
      (offset + (length e.payload + 5)) es

unfoldable pub encode_envelopes : List EnvelopedMessage → Bytes
unfolding total_length encode_loop zeros set_at set_uint32
encode_envelopes envelopes = encode_loop (zeros (total_length envelopes 0)) 0 envelopes
