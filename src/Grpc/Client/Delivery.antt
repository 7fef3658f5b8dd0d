-- ===== src/Grpc/Client/Delivery.antt =====
-- What a gRPC client reads of the response of a gRPC handler.
use node_dubbo.Prelude.{
  ℕ, ◌<◌, ◌≤◌, ◌≡◌, refl, sym, ap, ◌∙◌, false, List, [], ◌∷◌, Option, none, some, length, arith,
  All,
}
use node_dubbo.ByteArray.{Bytes}
use node_dubbo.Headers.{Headers}
use node_dubbo.Error.{Reason, Outcome, ok, ◌>>=◌, >>=-eq-ok, ok_injective}
use node_dubbo.Stream.{Stream, finished, raised, yields, values, ending, before, yields_or_raises}
use node_dubbo.Envelope.{
  EnvelopedMessage, Compression, envelope_compress, envelope_decompress, encode_envelope,
  encode_envelopes,
}
use node_dubbo.Envelope.Compressing.{IsLossless?, envelope_decompress-envelope_compress}
use node_dubbo.Iterable.{
  Serialization, yields_optional, map_or_raise, serialize_item, transform_serialize_envelope,
  transform_catch_finally, transform_join_envelopes, transform_compress_envelope,
  transform_decompress_envelope, transform_parse_messages,
}
use node_dubbo.Iterable.Inverse.{map_stream_same, map_or_raise_back, AllOf-before}
use node_dubbo.Iterable.Cut.{map_or_raise-map_or_raise, ends, written, passed}
use node_dubbo.Iterable.Split.Chunks.{joined}
use node_dubbo.Iterable.Split.RoundTrip.{Fits, transform_split_envelope-encode_envelopes}
use node_dubbo.Iterable.Split.{transform_split_envelope}
use node_dubbo.Pipeline.{ReadsBack, transform_join_envelopes-values}
use node_dubbo.Grpc.Status.{TextCoding}
use node_dubbo.Grpc.Handler.{settle, settled, respond, write_messages}
use node_dubbo.Grpc.Client.{read_messages}

settled-ok :
    (coding : TextCoding) (trailer t : Headers) (e : Option Reason)
    → settle coding trailer e ≡ ok t
    → settled coding trailer e ≡ ok none
unfolding settled
settled-ok coding trailer t e h = ap (λ o. o >>= (λ t. ok none)) h

-- Behind the catching transform, what was yielded is yielded, and the body returns.
caught :
    (coding : TextCoding) (trailer t : Headers) (bs : List Bytes) (e : Option Reason)
    → settle coding trailer e ≡ ok t
    → transform_catch_finally (settled coding trailer) (before bs (ends e)) ≡ before bs finished
unfolding transform_catch_finally
caught coding trailer t [] none h =
    ap (λ o. yields_optional o finished) (settled-ok coding trailer t none h)
caught coding trailer t [] (some e) h =
    ap (λ o. yields_optional o finished) (settled-ok coding trailer t (some e) h)
caught coding trailer t (b ∷ bs) e h = ap (yields b) (caught coding trailer t bs e h)

ending-before : (bs : List Bytes) (e : Option Reason) → ending (before bs (ends e)) ≡ e
ending-before [] none = refl
ending-before [] (some e) = refl
ending-before (b ∷ bs) e = ending-before bs e

pub encoded : List EnvelopedMessage → List Bytes
encoded [] = []
encoded (e ∷ es) = encode_envelope e.flags e.payload ∷ encoded es

joins :
    (es : List EnvelopedMessage) (e : Option Reason)
    → transform_join_envelopes (before es (ends e)) ≡ before (encoded es) (ends e)
unfolding transform_join_envelopes map_or_raise encoded
joins [] none = refl
joins [] (some e) = refl
joins (x ∷ xs) e = ap (yields (encode_envelope x.flags x.payload)) (joins xs e)

values-before : (bs : List Bytes) → values (before bs finished) ≡ bs
values-before [] = refl
values-before (b ∷ bs) = ap (λ t. b ∷ t) (values-before bs)

wire : (es : List EnvelopedMessage) → joined (encoded es) ≡ encode_envelopes es
wire es =
    ap (λ t. joined t) (sym (values-before (encoded es)))
    ∙ ap (λ t. joined (values t)) (sym (joins es none))
    ∙ transform_join_envelopes-values es

module _ {ℓ} {O : Type ℓ} (z : Serialization O) (compression : Option Compression)
    (min max : ℕ) where
  -- A message as an enveloped message, compressed or not.
  abbrev pub write_message : O → Outcome EnvelopedMessage
  write_message value = serialize_item z value >>= (λ env. envelope_compress env compression min)

  read_message : EnvelopedMessage → Outcome O
  read_message env = envelope_decompress env compression max >>= (λ e. z.parse e.payload)

  writes :
      (s : Stream O)
      → write_messages z compression min s ≡ transform_join_envelopes (map_or_raise write_message s)
  unfolding write_messages transform_compress_envelope transform_serialize_envelope
  writes s = ap transform_join_envelopes (
      map_or_raise-map_or_raise (serialize_item z) (λ env. envelope_compress env compression min) s)

  parses :
      (s : Stream EnvelopedMessage)
      → transform_parse_messages z none false s ≡ map_or_raise (λ env. z.parse env.payload) s
  unfolding transform_parse_messages map_or_raise
  parses finished = refl
  parses (raised e) = refl
  parses (yields env s) = ap (yields_or_raises (z.parse env.payload)) (parses s)

  reads :
      (body : Stream Bytes) (es : List EnvelopedMessage)
      → transform_split_envelope max body ≡ before es finished
      → read_messages z compression max body ≡ map_or_raise read_message (before es finished)
  unfolding read_messages transform_decompress_envelope read_message
  reads body es h =
      ap
        (λ t.
          transform_parse_messages z none false (transform_decompress_envelope compression max t))
        h
      ∙ parses _
      ∙ map_or_raise-map_or_raise (λ env. envelope_decompress env compression max)
          (λ env. z.parse env.payload) (before es finished)

  -- The bytes of a message, and what is sent of it, are within the reader's limit.
  abbrev pub MessageFits : O → Type 0
  MessageFits value =
      ((bytes : Bytes) → z.serialize value ≡ ok bytes → length bytes ≤ max)
      × ((env : EnvelopedMessage) → write_message value ≡ ok env → length env.payload ≤ max)

  back :
      ReadsBack z
      → IsLossless? compression
      → (value : O) (sent : EnvelopedMessage) → MessageFits value
      → write_message value ≡ ok sent
      → Fits max sent × (read_message sent ≡ ok value)
  unfolding serialize_item read_message
  back rz lossless value sent (plain, fits) h =
      let (env, serialized, compressed) = >>=-eq-ok (serialize_item z value) _ h in
      let (bytes, run, same) = >>=-eq-ok (z.serialize value) _ serialized in
      let (byte, unpacked) =
        envelope_decompress-envelope_compress compression min max
          (record { flags = 0; payload = bytes }) sent lossless (omega arith) (plain bytes run)
          (ap (λ e. envelope_compress e compression min) (ok_injective _ env same) ∙ compressed) in
      ((byte, fits sent h), ap (λ o. o >>= (λ e. z.parse e.payload)) unpacked ∙ rz value bytes run)

  -- The bytes of the outputs, whole or cut, are read as the outputs.
  pub read_back :
      (xs : List O) (ys : List EnvelopedMessage) (cs : List Bytes)
      → ReadsBack z
      → IsLossless? compression
      → max < 4294967296
      → All MessageFits xs
      → map_or_raise write_message (before xs finished) ≡ before ys finished
      → joined cs ≡ joined (encoded ys)
      → read_messages z compression max (before cs finished) ≡ before xs finished
  read_back xs ys cs rz lossless hm items kept same =
      let (fits, backs) =
        map_or_raise_back write_message read_message MessageFits (Fits max) (λ x. x)
          (back rz lossless) (before xs finished) ys (AllOf-before MessageFits xs items) kept in
      reads (before cs finished) ys
        (transform_split_envelope-encode_envelopes max ys cs hm fits (same ∙ wire ys))
      ∙ backs
      ∙ map_stream_same (before xs finished)

  module _ (coding : TextCoding) (trailer : Headers) (s : Stream O) where
    outputs : List O
    outputs = (written write_message s).0

    stopped : Option Reason
    stopped = (written write_message s).1

    body_lem :
        (ys : List EnvelopedMessage) (t : Headers)
        → map_or_raise write_message s ≡ before ys (ends stopped)
        → (respond z compression min coding trailer s).1 ≡ ok t
        → (values (respond z compression min coding trailer s).0 ≡ encoded ys)
          × (settle coding trailer stopped ≡ ok t)
    unfolding respond
    body_lem ys t all h =
        let sent = writes s ∙ ap transform_join_envelopes all ∙ joins ys stopped in
        let settles =
          ap (settle coding trailer) (sym (ap ending sent ∙ ending-before (encoded ys) stopped))
          ∙ h in
        (
          ap values (
                ap (transform_catch_finally (settled coding trailer)) sent
                ∙ caught coding trailer t (encoded ys) stopped settles)
              ∙ values-before (encoded ys),
          settles,
        )

    -- The client reads the outputs, and the trailer is settled.
    pub delivered_messages :
        (t : Headers) (cs : List Bytes)
        → ReadsBack z
        → IsLossless? compression
        → max < 4294967296
        → All MessageFits (written write_message s).0
        → (respond z compression min coding trailer s).1 ≡ ok t
        → joined cs ≡ joined (values (respond z compression min coding trailer s).0)
        → (read_messages z compression max (before cs finished)
            ≡ before (written write_message s).0 finished)
          × (settle coding trailer (written write_message s).1 ≡ ok t)
    unfolding outputs stopped
    delivered_messages t cs rz lossless hm items final same =
        let (ys, (all, kept)) = passed write_message s in
        let (bytes, settles) = body_lem ys t all final in
        (
          read_back outputs ys cs rz lossless hm items kept (same ∙ ap (λ t. joined t) bytes),
          settles,
        )
