-- ===== src/Envelope/Compressing.antt =====
-- envelopeDecompress takes back what envelopeCompress does.
use node_dubbo.Prelude.{
  ℕ, ◌<◌, ◌≤◌, ◌≡◌, true, false, Option, none, some, length, arith, Bool-cases, leb, inl, inr,
}
use node_dubbo.ByteArray.{Bytes}
use node_dubbo.Error.{ok, >>=-eq-ok}
use Prim.Native.Nat.{bit_or, bit_xor}
use node_dubbo.Envelope.{
  EnvelopedMessage, Compression, has_flag, compressed_flag, envelope_compress, envelope_decompress,
  compress_with, decompress_with,
}
use node_dubbo.Envelope.Flags.{compressed_flag_lem}

-- What the sources rely on in a compression: a text that it compresses is given back, under any
-- limit that the text is within.
abbrev pub IsLossless : Compression → Type 0
IsLossless c =
    (plain packed : Bytes) (max : ℕ)
    → c.compress plain ≡ ok packed
    → length plain ≤ max
    → c.decompress packed max ≡ ok plain

abbrev pub IsLossless? : Option Compression → Type 0
IsLossless? none = Unit
IsLossless? (some c) = IsLossless c

compress_with-eq-ok :
    (c : Compression) (flags : ℕ) (plain : Bytes) (sent : EnvelopedMessage)
    → compress_with c flags plain ≡ ok sent
    → (packed : Bytes) × (c.compress plain ≡ ok packed)
      × (record { flags = bit_or flags compressed_flag; payload = packed } ≡ sent)
unfolding compress_with
compress_with-eq-ok c flags plain sent h =
    let (packed, run, same) = >>=-eq-ok (c.compress plain) _ h in (packed, run, ground arith)

decompress_with_lem :
    (c : Compression) (flags max : ℕ) (plain packed : Bytes)
    → c.decompress packed max ≡ ok plain
    → decompress_with c flags packed max
      ≡ ok (record { flags = bit_xor flags compressed_flag; payload = plain })
unfolding decompress_with
decompress_with_lem c flags max plain packed h = rw h

-- The branch of envelopeCompress that compresses.
decompress-compress_with :
    (c : Compression) (max flags : ℕ) (plain : Bytes) (sent : EnvelopedMessage)
    → IsLossless c
    → flags < 256
    → has_flag flags compressed_flag ≡ false
    → length plain ≤ max
    → compress_with c flags plain ≡ ok sent
    → (sent.flags < 256)
      × (envelope_decompress sent (some c) max ≡ ok (record { flags = flags; payload = plain }))
decompress-compress_with c max flags plain sent lossless f clear h run =
    let (packed, done, same) = compress_with-eq-ok c flags plain sent run in
    let (set, back, byte) = compressed_flag_lem flags f clear in
    rw (← same) (byte, taken_back packed set back (lossless plain packed max done h))
  where
    taken_back :
        (packed : Bytes)
        → has_flag (bit_or flags compressed_flag) compressed_flag ≡ true
        → bit_xor (bit_or flags compressed_flag) compressed_flag ≡ flags
        → c.decompress packed max ≡ ok plain
        → envelope_decompress
            (record { flags = bit_or flags compressed_flag; payload = packed })
            (some c)
            max
          ≡ ok (record { flags = flags; payload = plain })
    taken_back packed set back p =
        unfold envelope_decompress in
        (ground (arith, decompress_with_lem c (bit_or flags compressed_flag) max plain packed))

-- envelopeDecompress gives back the message that envelopeCompress was given, whether it was long
-- enough to be compressed or not, and the flags sent are one byte: for a lossless compression or
-- none, flags in one byte, and a payload within the read limit.
pub envelope_decompress-envelope_compress :
    (compression : Option Compression) (min max : ℕ) (e sent : EnvelopedMessage)
    → IsLossless? compression
    → e.flags < 256
    → length e.payload ≤ max
    → envelope_compress e compression min ≡ ok sent
    → (sent.flags < 256) × (envelope_decompress sent compression max ≡ ok e)
unfolding envelope_compress
envelope_decompress-envelope_compress none min max e sent l f h c =
    unfold envelope_decompress in (ground arith)
envelope_decompress-envelope_compress (some k) min max e sent l f h c =
    elim (Bool-cases (has_flag e.flags compressed_flag)) [
      | inl packed ↦ ground arith
      | inr clear ↦ elim (Bool-cases (leb min (length e.payload))) [
        | inl long ↦
            decompress-compress_with k max e.flags e.payload sent l f clear h (ground arith)
        | inr short ↦ unfold envelope_decompress in (ground arith)
      ]
    ]
