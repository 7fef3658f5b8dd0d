-- ===== src/Pipeline.antt =====
-- The pipes that clients and servers build from the transforms of async-iterable.ts: messages and
-- an end-of-stream message to bytes (createStreamHandler of protocol-triple/handler-factory.ts
-- from transformSerializeEnvelope to transformJoinEnvelopes, and the request bodies of the
-- transports), and bytes to messages (the response side of protocol-triple/transport.ts and
-- protocol-grpc-web/transport.ts).
pub mod Ended
use node_dubbo.Prelude.{
  ℕ, ◌<◌, ◌≤◌, ◌≡◌, refl, sym, ap, ap₂, ◌∙◌, List, [], ◌∷◌, ◌++◌, Option, length, arith, All,
}
use node_dubbo.ByteArray.{Bytes}
use node_dubbo.Error.{ok, >>=-eq-ok, ok_injective}
use node_dubbo.Stream.{Stream, finished, values, before}
use node_dubbo.Envelope.{
  EnvelopedMessage, Compression, envelope_compress, envelope_decompress, encode_envelopes,
}
use node_dubbo.Envelope.Encoding.{encode_envelope_lem, encode_envelopes_lem, frames}
use node_dubbo.Envelope.Flags.{end_flag_lem}
use node_dubbo.Envelope.Compressing.{IsLossless?, envelope_decompress-envelope_compress}
use node_dubbo.Iterable.{
  Serialization, Parsed, item, end_item, map_or_raise, serialize_parsed, transform_serialize_parsed,
  parse_item, transform_parse_envelope, transform_compress_envelope, transform_decompress_envelope,
  transform_join_envelopes,
}
use node_dubbo.Iterable.Inverse.{
  AllOf, map_stream, map_stream_same, map_or_raise_back, map_or_raise-finished, AllOf-before,
}
use node_dubbo.Iterable.Split.{transform_split_envelope}
use node_dubbo.Iterable.Split.Chunks.{joined}
use node_dubbo.Iterable.Split.RoundTrip.{Fits, transform_split_envelope-encode_envelopes}

pub All-Fits :
    (max : ℕ) (es : List EnvelopedMessage)
    → All (λ e. e.flags < 256) es
    → All (λ e. length e.payload ≤ max) es
    → All (Fits max) es
All-Fits max [] f l = tt
All-Fits max (e ∷ es) (f, fs) (l, ls) = ((f, l), All-Fits max es fs ls)

joins_frames :
    (es : List EnvelopedMessage)
    → joined (values (transform_join_envelopes (before es finished))) ≡ frames es
unfolding transform_join_envelopes map_or_raise
joins_frames [] = refl
joins_frames (e ∷ es) =
    ap₂ (λ (x y : Bytes). x ++ y) (encode_envelope_lem e.flags e.payload) (joins_frames es)

-- transformJoinEnvelopes writes the bytes of encodeEnvelopes.
pub transform_join_envelopes-values :
    (es : List EnvelopedMessage)
    → joined (values (transform_join_envelopes (before es finished))) ≡ encode_envelopes es
transform_join_envelopes-values es = joins_frames es ∙ sym (encode_envelopes_lem es)

-- A serialization reads what it wrote, as `seen` has it: what the format does not keep is lost.
abbrev pub ReadsAs {ℓ} : {T : Type ℓ} → Serialization T → (T → T) → Type ℓ
ReadsAs {T} z seen =
    (value : T) (bytes : Bytes) → z.serialize value ≡ ok bytes → z.parse bytes ≡ ok (seen value)

-- A serialization reads what it wrote.
abbrev pub ReadsBack {ℓ} : {T : Type ℓ} → Serialization T → Type ℓ
ReadsBack {T} z =
    (value : T) (bytes : Bytes) → z.serialize value ≡ ok bytes → z.parse bytes ≡ ok value

abbrev pub Flag : ℕ → Type 0
Flag f = (1 ≤ f) × (f < 256)

abbrev pub seen_item {ℓ κ} : {T : Type ℓ} {E : Type κ} → (E → E) → Parsed T E → Parsed T E
seen_item seen (item v) = item v
seen_item seen (end_item v) = end_item (seen v)

module _ {ℓ κ} {T : Type ℓ} {E : Type κ} (z : Serialization T) (flag : ℕ) (end_z : Serialization E)
    (compression : Option Compression) where
  unfoldable pub send_envelopes : ℕ → Stream (Parsed T E) → Stream EnvelopedMessage
  send_envelopes min s =
      transform_compress_envelope compression min (transform_serialize_parsed z flag end_z s)

  unfoldable pub send : ℕ → Stream (Parsed T E) → Stream Bytes
  unfolding send_envelopes
  send min s = transform_join_envelopes (send_envelopes min s)

  unfoldable pub receive : ℕ → Stream Bytes → Stream (Parsed T E)
  receive max bytes =
      transform_parse_envelope z flag end_z
        (transform_decompress_envelope compression max (transform_split_envelope max bytes))

  parse_item-serialize_parsed :
      (seen : E → E)
      → ReadsBack z
      → ReadsAs end_z seen
      → Flag flag
      → (x : Parsed T E) (env : EnvelopedMessage) → serialize_parsed z flag end_z x ≡ ok env
      → (env.flags < 256) × (parse_item z flag end_z env ≡ ok (seen_item seen x))
  unfolding serialize_parsed parse_item
  parse_item-serialize_parsed seen rz re ff (item v) env h =
      let (bytes, run, same) = >>=-eq-ok (z.serialize v) _ h in
      let (_, _, clear) = end_flag_lem flag ff.1 ff.0 in
      rw (← ok_injective _ env same) (omega arith, rw (clear, rz v bytes run))
  parse_item-serialize_parsed seen rz re ff (end_item v) env h =
      let (bytes, run, same) = >>=-eq-ok (end_z.serialize v) _ h in
      let (byte, set, _) = end_flag_lem flag ff.1 ff.0 in
      rw (← ok_injective _ env same) (omega arith, rw (set, re v bytes run))

  -- The bytes of a message, and of the end-of-stream message, are within the reader's limit.
  abbrev pub ItemFits : ℕ → Parsed T E → Type 0
  ItemFits max x =
      (env : EnvelopedMessage) → serialize_parsed z flag end_z x ≡ ok env → length env.payload ≤ max

  module _ (seen : E → E) (rz : ReadsBack z) (re : ReadsAs end_z seen) (ff : Flag flag)
      (max : ℕ) where
    pub parse-serialize :
        (s : Stream (Parsed T E)) (es : List EnvelopedMessage)
        → AllOf (ItemFits max) s
        → transform_serialize_parsed z flag end_z s ≡ before es finished
        → All (λ e. (e.flags < 256) × (length e.payload ≤ max)) es
          × (transform_parse_envelope z flag end_z (before es finished)
              ≡ map_stream (seen_item seen) s)
    unfolding transform_serialize_parsed transform_parse_envelope
    parse-serialize s es =
        map_or_raise_back (serialize_parsed z flag end_z) (parse_item z flag end_z) (ItemFits max)
          (λ e. (e.flags < 256) × (length e.payload ≤ max)) (seen_item seen)
          (λ x env fit run.
            let (byte, parsed) = parse_item-serialize_parsed seen rz re ff x env run in
            ((byte, fit env run), parsed))
          s es

  decompress-compress :
      (min max : ℕ)
      → IsLossless? compression
      → (es sent : List EnvelopedMessage) → All (λ e. (e.flags < 256) × (length e.payload ≤ max)) es
      → transform_compress_envelope compression min (before es finished) ≡ before sent finished
      → All (λ e. e.flags < 256) sent
        × (transform_decompress_envelope compression max (before sent finished)
            ≡ before es finished)
  unfolding transform_compress_envelope transform_decompress_envelope
  decompress-compress min max lossless es sent fits h =
      let (byte, back) =
        map_or_raise_back (λ e. envelope_compress e compression min)
          (λ e. envelope_decompress e compression max)
          (λ e. (e.flags < 256) × (length e.payload ≤ max)) (λ e. e.flags < 256) (λ e. e)
          (λ e s (f, l) run.
            envelope_decompress-envelope_compress compression min max e s lossless f l run)
          (before es finished) sent (AllOf-before _ es fits) h in
      (byte, back ∙ map_stream_same (before es finished))

  -- A receiver that splits, decompresses and parses the bytes, however they are cut into chunks,
  -- yields exactly the items that the sender serialized, compressed and joined, with the end-of-
  -- stream messages as their serialization reads them back. That is if the serialization of the
  -- messages reads back what it writes, the compression (if any) is lossless, the end flag is one
  -- byte and not 0, the read limit is below 2 ^ 32, and the bytes of every item and of every
  -- enveloped message sent are within that limit.
  pub receive-send :
      (seen : E → E) (min max : ℕ) (s : Stream (Parsed T E)) (sent : List EnvelopedMessage)
      (cs : List Bytes)
      → ReadsBack z
      → ReadsAs end_z seen
      → Flag flag
      → IsLossless? compression
      → max < 4294967296
      → AllOf (ItemFits max) s
      → send_envelopes min s ≡ before sent finished
      → All (λ e. length e.payload ≤ max) sent
      → joined cs ≡ joined (values (send min s))
      → receive max (before cs finished) ≡ map_stream (seen_item seen) s
  unfolding send receive
  receive-send seen min max s sent cs rz re ff lossless hm items sends fits same =
      let (es, serialized) =
        map_or_raise-finished (λ e. envelope_compress e compression min)
          (transform_serialize_parsed z flag end_z s) sent
          (unfold transform_compress_envelope in sends) in
      let (plain, parsed) = parse-serialize seen rz re ff max s es items serialized in
      let compressed =
        ap (λ t. transform_compress_envelope compression min t) (sym serialized) ∙ sends in
      let (bytes, unpacked) = decompress-compress min max lossless es sent plain compressed in
      let wire =
        same
        ∙ ap (λ t. joined (values (transform_join_envelopes t))) sends
        ∙ transform_join_envelopes-values sent in
      let split =
        transform_split_envelope-encode_envelopes max sent cs hm (All-Fits max sent bytes fits)
          wire in
      ap
        (λ t.
          transform_parse_envelope z flag end_z (transform_decompress_envelope compression max t))
        split
      ∙ ap (λ t. transform_parse_envelope z flag end_z t) unpacked
      ∙ parsed
