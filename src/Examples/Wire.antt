-- ===== src/Examples/Wire.antt =====
-- The theorems about messages on the wire, at concrete serializations, compressions and chunks.
use node_dubbo.Prelude.{
  sym, ap, ℕ, ◌<◌, ◌≤◌, ◌≡◌, refl, ◌↔◌, List, [], ◌∷◌, ◌++◌, none, some, length, arith, leb,
  if◌then◌else◌,
}
use node_dubbo.ByteArray.{Bytes, zeros, set_at, set_uint32}
use node_dubbo.Error.{Code, Outcome, ok, raise}
use node_dubbo.Stream.{Stream, finished, raised, yields, values, before}
use node_dubbo.Envelope.{
  compress_with, EnvelopedMessage, Compression, envelope_compress, envelope_decompress,
  encode_envelope,
}
use node_dubbo.Envelope.Compressing.{IsLossless, envelope_decompress-envelope_compress}
use node_dubbo.Envelope.Encoding.{frame, encode_envelopes_lem}
use node_dubbo.Iterable.{
  Serialization, Parsed, item, end_item, map_or_raise, serialize_parsed, transform_serialize_parsed,
  transform_compress_envelope, transform_join_envelopes,
}
use node_dubbo.Iterable.Split.{transform_split_envelope, incomplete, drain, drain_all}
use node_dubbo.Iterable.Split.Progress.{Settled, drain_all-Settled}
use node_dubbo.Iterable.Split.Chunks.{joined, transform_split_envelope-chunks}
use node_dubbo.Iterable.Split.RoundTrip.{
  transform_split_envelope-encode_envelopes, transform_split_envelope_truncated,
}
use node_dubbo.Iterable.ReadAll.{LengthHint, read_all_bytes, parse_length_hint}
use node_dubbo.Iterable.ReadAll.Exact.{Reads, read_all_bytes_hinted}
use node_dubbo.Compression.{compression_negotiate}
use node_dubbo.Compression.Agreement.{IsAgreed, compression_negotiate-response}
use node_dubbo.Pipeline.{send, send_envelopes, receive, ReadsBack, receive-send}

-- A serialization that tells its messages by the first byte.
abbrev tagged_parse : ℕ → Bytes → Outcome Bytes
tagged_parse tag [] = raise "empty" Code.invalid_argument
tagged_parse tag (b ∷ bytes) = ok bytes

abbrev tagged : ℕ → Serialization Bytes
tagged tag = record { serialize = λ b. ok (tag ∷ b); parse = λ b. tagged_parse tag b }

tagged-ReadsBack : (tag : ℕ) → ReadsBack (tagged tag)
tagged-ReadsBack tag value bytes h = ground arith

-- A compression that marks what it has packed.
abbrev marked_decompress : Bytes → ℕ → Outcome Bytes
marked_decompress [] max = raise "empty" Code.invalid_argument
marked_decompress (b ∷ bytes) max =
    if leb (length bytes) max then ok bytes else raise "too large" Code.resource_exhausted

abbrev marked : Compression
marked = record {
  name = "mark";
  compress = λ b. ok (31 ∷ b);
  decompress = λ b max. marked_decompress b max;
}

marked-IsLossless : IsLossless marked
marked-IsLossless plain packed max h l = ground arith

abbrev sent_items : Stream (Parsed Bytes Bytes)
sent_items = yields (item (7 ∷ 8 ∷ [])) (yields (end_item (9 ∷ [])) finished)

abbrev sent_envelopes : List EnvelopedMessage
sent_envelopes =
    record { flags = 1; payload = 31 ∷ 65 ∷ 7 ∷ 8 ∷ [] }
    ∷ record { flags = 3; payload = 31 ∷ 66 ∷ 9 ∷ [] }
    ∷ []

abbrev wire_chunks : List Bytes
wire_chunks =
    (1 ∷ 0 ∷ 0 ∷ [])
    ∷ (0 ∷ 4 ∷ 31 ∷ 65 ∷ 7 ∷ 8 ∷ 3 ∷ [])
    ∷ []
    ∷ (0 ∷ 0 ∷ 0 ∷ 3 ∷ 31 ∷ 66 ∷ 9 ∷ [])
    ∷ []

wire_chunks_sent :
    joined wire_chunks ≡ joined (values (send (tagged 65) 2 (tagged 66) (some marked) 2 sent_items))
unfolding send send_envelopes transform_compress_envelope transform_serialize_parsed
    transform_join_envelopes serialize_parsed map_or_raise envelope_compress compress_with
    encode_envelope zeros set_at set_uint32
wire_chunks_sent = refl

envelopes_sent :
    send_envelopes (tagged 65) 2 (tagged 66) (some marked) 2 sent_items
    ≡ before sent_envelopes finished
unfolding send_envelopes transform_compress_envelope transform_serialize_parsed serialize_parsed
    map_or_raise envelope_compress compress_with
envelopes_sent = refl

short_item :
    (value : Bytes) (env : EnvelopedMessage)
    → length value ≤ 63
    → serialize_parsed (tagged 65) 2 (tagged 66) (item value) ≡ ok env
    → length env.payload ≤ 64
unfolding serialize_parsed
short_item value env l h = ground arith

short_end :
    (value : Bytes) (env : EnvelopedMessage)
    → length value ≤ 63
    → serialize_parsed (tagged 65) 2 (tagged 66) (end_item value) ≡ ok env
    → length env.payload ≤ 64
unfolding serialize_parsed
short_end value env l h = ground arith

receive-send_example :
    receive (tagged 65) 2 (tagged 66) (some marked) 64 (before wire_chunks finished) ≡ sent_items
receive-send_example =
    receive-send (tagged 65) 2 (tagged 66) (some marked) (λ e. e) 2 64 sent_items sent_envelopes
      wire_chunks (tagged-ReadsBack 65) (tagged-ReadsBack 66) (omega arith) marked-IsLossless
      (omega arith)
      (λ env h. short_item _ env (omega arith) h, (λ env h. short_end _ env (omega arith) h, tt))
      envelopes_sent (omega arith) wire_chunks_sent

split_example :
    transform_split_envelope 64 (before wire_chunks finished) ≡ before sent_envelopes finished
unfolding set_uint32
split_example =
    transform_split_envelope-encode_envelopes 64 sent_envelopes wire_chunks (omega arith)
      (omega arith) (sym (encode_envelopes_lem sent_envelopes))

three_framed : frame 3 (31 ∷ 66 ∷ 9 ∷ []) ≡ (3 ∷ 0 ∷ 0 ∷ 0 ∷ 3 ∷ 31 ∷ []) ++ (66 ∷ 9 ∷ [])
unfolding set_uint32
three_framed = refl

truncated_example :
    transform_split_envelope 64 (before ((3 ∷ 0 ∷ 0 ∷ []) ∷ (0 ∷ 3 ∷ 31 ∷ []) ∷ []) finished)
    ≡ before [] (raised (incomplete (3 ∷ 0 ∷ 0 ∷ 0 ∷ 3 ∷ 31 ∷ [])))
truncated_example =
    transform_split_envelope_truncated 64 [] (record { flags = 3; payload = 31 ∷ 66 ∷ 9 ∷ [] })
      ((3 ∷ 0 ∷ 0 ∷ []) ∷ (0 ∷ 3 ∷ 31 ∷ []) ∷ []) (3 ∷ 0 ∷ 0 ∷ 0 ∷ 3 ∷ 31 ∷ []) 66 (9 ∷ [])
      (omega arith) tt (omega arith) three_framed (λ h. cc)
      (sym (ap (λ (t : Bytes). t ++ (3 ∷ 0 ∷ 0 ∷ 0 ∷ 3 ∷ 31 ∷ [])) (encode_envelopes_lem [])))

chunks_example :
    transform_split_envelope 64 (before ((1 ∷ 0 ∷ []) ∷ (0 ∷ []) ∷ []) finished)
    ≡ transform_split_envelope 64 (before ((1 ∷ []) ∷ [] ∷ (0 ∷ 0 ∷ []) ∷ []) finished)
chunks_example =
    transform_split_envelope-chunks 64 ((1 ∷ 0 ∷ []) ∷ (0 ∷ []) ∷ [])
      ((1 ∷ []) ∷ [] ∷ (0 ∷ 0 ∷ []) ∷ []) finished refl

drain_example :
    (drain 9 64 (0 ∷ 0 ∷ 0 ∷ 0 ∷ 1 ∷ 7 ∷ []) ≡ drain_all 64 (0 ∷ 0 ∷ 0 ∷ 0 ∷ 1 ∷ 7 ∷ []))
    × Settled 64 (drain_all 64 (0 ∷ 0 ∷ 0 ∷ 0 ∷ 1 ∷ 7 ∷ []))
drain_example = drain_all-Settled 9 64 (0 ∷ 0 ∷ 0 ∷ 0 ∷ 1 ∷ 7 ∷ []) (omega arith)

packed :
    envelope_compress (record { flags = 0; payload = 5 ∷ 6 ∷ [] }) (some marked) 1
    ≡ ok (record { flags = 1; payload = 31 ∷ 5 ∷ 6 ∷ [] })
unfolding envelope_compress compress_with
packed = refl

decompress_example :
    (1 < 256)
    × (envelope_decompress (record { flags = 1; payload = 31 ∷ 5 ∷ 6 ∷ [] }) (some marked) 9
        ≡ ok (record { flags = 0; payload = 5 ∷ 6 ∷ [] }))
decompress_example =
    envelope_decompress-envelope_compress (some marked) 1 9
      (record { flags = 0; payload = 5 ∷ 6 ∷ [] }) (record { flags = 1; payload = 31 ∷ 5 ∷ 6 ∷ [] })
      marked-IsLossless (omega arith) (omega arith) packed

two : parse_length_hint (LengthHint.text "2") ≡ some 2
unfolding parse_length_hint
two = refl

hinted_example :
    (read_all_bytes (before ((1 ∷ []) ∷ (2 ∷ []) ∷ []) finished) 8 (LengthHint.text "2")
      ≡ ok (1 ∷ 2 ∷ []))
    ↔ (Reads (before ((1 ∷ []) ∷ (2 ∷ []) ∷ []) finished) (1 ∷ 2 ∷ [])
        × (length {A = ℕ} (1 ∷ 2 ∷ []) ≡ 2)
        × (2 ≤ 8))
hinted_example =
    read_all_bytes_hinted (before ((1 ∷ []) ∷ (2 ∷ []) ∷ []) finished) 8 2 (LengthHint.text "2")
      (1 ∷ 2 ∷ []) two

missing : parse_length_hint LengthHint.absent ≡ none
unfolding parse_length_hint
missing = refl

response_example :
    IsAgreed
      (marked ∷ [])
      (compression_negotiate (marked ∷ []) none (some "br, mark") "accept").request
      (some "br, mark")
      (compression_negotiate (marked ∷ []) none (some "br, mark") "accept").response
response_example = compression_negotiate-response (marked ∷ []) none (some "br, mark") "accept"
