-- ===== src/GrpcWeb/Client/Delivery.antt =====
-- What a gRPC-web client reads of the response of a gRPC-web handler.
use node_dubbo.Prelude.{
  ℕ, ◌<◌, ◌≤◌, ◌≡◌, refl, sym, ap, ◌∙◌, false, List, [], ◌∷◌, Option, length, arith, All,
}
use node_dubbo.ByteArray.{Bytes}
use node_dubbo.Headers.{Headers}
use node_dubbo.Error.{Outcome, ok, thrown, ok_injective}
use node_dubbo.Stream.{Stream, finished, raised, yields, values, before}
use node_dubbo.Envelope.{EnvelopedMessage, Compression}
use node_dubbo.Envelope.Compressing.{IsLossless?}
use node_dubbo.Iterable.{
  Serialization, Parsed, transform_join_envelopes, transform_compress_envelope,
}
use node_dubbo.Iterable.Inverse.{AllOf, map_stream}
use node_dubbo.Iterable.Cut.{written, cut}
use node_dubbo.Iterable.Split.Chunks.{joined}
use node_dubbo.Pipeline.Ended
use node_dubbo.Pipeline.{
  ReadsBack, seen_item, ItemFits, send, send_envelopes, receive, receive-send,
}
use node_dubbo.Triple.StreamClient.{and_yields}
use node_dubbo.Grpc.Status.{TextCoding, validate_trailer}
use node_dubbo.Grpc.Handler.{settle}
use node_dubbo.GrpcWeb.Trailer.{
  TextCoder, trailer_flag, trailer_parse, trailer_serialize, create_trailer_serialization,
}
use node_dubbo.GrpcWeb.Handler.{trailer_envelope, respond}
use node_dubbo.GrpcWeb.Client.{read_items, read_to_trailer, valid_or_raises}

-- Values in front of what is read.
abbrev pub with_values {ℓ} : {O : Type ℓ} → List O → Stream O × Headers → Stream O × Headers
with_values [] r = r
with_values (x ∷ xs) r = and_yields x (with_values xs r)

module _ (coding : TextCoding) (coder : TextCoder) where
  -- A trailer as it is read.
  abbrev pub seen : Headers → Headers
  seen trailer = trailer_parse coder (trailer_serialize coder trailer)

  -- How a call ends by a trailer that is read.
  abbrev pub closed {ℓ} : {O : Type ℓ} → Headers → Stream O × Headers
  closed trailer = valid_or_raises (validate_trailer coding trailer) trailer (λ h. (finished, h)) []

  module _ {ℓ} {O : Type ℓ} (z : Serialization O) (trailer : Headers) where
    -- What is sent: the outputs up to the first one that cannot be serialized, and the trailer.
    abbrev pub sent_items : Stream O → Stream (Parsed O Headers)
    sent_items =
        Ended.sent_items z trailer_flag (create_trailer_serialization coder) (settle coding trailer)

    pub respond-send :
        (compression : Option Compression) (min : ℕ) (s : Stream O)
        → respond coding coder z trailer compression min s
          ≡ send z trailer_flag (create_trailer_serialization coder) compression min (sent_items s)
    unfolding respond trailer_envelope send send_envelopes
    respond-send compression min s =
        ap (λ t. transform_join_envelopes (transform_compress_envelope compression min t))
          (Ended.serialized z trailer_flag (create_trailer_serialization coder)
            (settle coding trailer) refl s)

    -- What the items are read as.
    read_step :
        (value : O) (o : Outcome Bytes) (s : Stream O) (t : Headers)
        → settle coding trailer (cut z.serialize value o (written z.serialize s)).1 ≡ ok t
        → (settle coding trailer (written z.serialize s).1 ≡ ok t
            → read_to_trailer coding false [] (map_stream (seen_item seen) (sent_items s))
              ≡ with_values (written z.serialize s).0 (closed (seen t)))
        → read_to_trailer coding false [] (
            map_stream (seen_item seen) (
              Ended.after z trailer_flag
                (create_trailer_serialization coder)
                (settle coding trailer)
                value
                o
                (sent_items s)))
          ≡ with_values (cut z.serialize value o (written z.serialize s)).0 (closed (seen t))
    unfolding read_to_trailer
    read_step value (ok bytes) s t h rest = ap (and_yields value) (rest h)
    read_step value (thrown e) s t h rest = rw h refl

    read_sent :
        (s : Stream O) (t : Headers)
        → settle coding trailer (written z.serialize s).1 ≡ ok t
        → read_to_trailer coding false [] (map_stream (seen_item seen) (sent_items s))
          ≡ with_values (written z.serialize s).0 (closed (seen t))
    unfolding read_to_trailer
    read_sent finished t h = rw h refl
    read_sent (raised e) t h = rw h refl
    read_sent (yields value s) t h = read_step value (z.serialize value) s t h (read_sent s t)

    -- A gRPC-web client of a streaming call, however the body is cut into chunks, yields the
    -- outputs of the handler up to the first one that cannot be serialized, and then ends by the
    -- trailer of the handler, as it is read: it throws the error in it, or returns with its fields
    -- as the trailer of the response. That is if the header had no status, the serialization of
    -- the messages reads back what it writes, the compression (if any) is lossless and does not
    -- fail, the limit is below 2 ^ 32 and not passed by a message or the trailer, and setting the
    -- status of the trailer does not throw.
    pub read_to_trailer-respond :
        (compression : Option Compression) (min max : ℕ) (s : Stream O)
        (sent : List EnvelopedMessage) (cs : List Bytes) (t : Headers)
        → ReadsBack z
        → IsLossless? compression
        → max < 4294967296
        → AllOf
            (ItemFits z trailer_flag (create_trailer_serialization coder) compression max)
            (sent_items s)
        → send_envelopes z trailer_flag
            (create_trailer_serialization coder)
            compression
            min
            (sent_items s)
          ≡ before sent finished
        → All (λ e. length e.payload ≤ max) sent
        → joined cs ≡ joined (values (respond coding coder z trailer compression min s))
        → settle coding trailer (written z.serialize s).1 ≡ ok t
        → read_to_trailer coding false [] (read_items coder z compression max (before cs finished))
          ≡ with_values (written z.serialize s).0 (closed (seen t))
    unfolding read_items receive create_trailer_serialization
    read_to_trailer-respond compression min max s sent cs t rz lossless hm items sends fits same h =
        ap (read_to_trailer coding false []) (
          receive-send z trailer_flag (create_trailer_serialization coder) compression seen min max
            (sent_items s) sent cs rz
            (λ value bytes run.
              ap (λ b. ok (trailer_parse coder b))
                (ok_injective bytes (trailer_serialize coder value) (sym run)))
            (omega arith) lossless hm items sends fits
            (same ∙ ap (λ t. joined (values t)) (respond-send compression min s)))
        ∙ read_sent s t h
