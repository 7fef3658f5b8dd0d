-- ===== src/Triple/Delivery.antt =====
-- What a client reads of the response of a stream handler.
use node_dubbo.Prelude.{
  ℕ, ◌<◌, ◌≤◌, ◌≡◌, refl, ap, ◌∙◌, false, List, [], Option, none, some, length, arith, All,
}
use node_dubbo.ByteArray.{Bytes}
use node_dubbo.Headers.{Headers}
use node_dubbo.Error.{Reason, Outcome, ok, thrown}
use node_dubbo.Stream.{Stream, finished, raised, yields, values, before}
use node_dubbo.Envelope.{EnvelopedMessage, Compression}
use node_dubbo.Envelope.Compressing.{IsLossless?}
use node_dubbo.Iterable.{
  Serialization, Parsed, transform_serialize_envelope, transform_serialize_parsed,
  transform_catch_finally, transform_join_envelopes, transform_compress_envelope,
}
use node_dubbo.Iterable.Inverse.{AllOf, map_stream}
use node_dubbo.Iterable.Split.Chunks.{joined}
use node_dubbo.Pipeline.Ended
use node_dubbo.Pipeline.{
  ReadsBack, ReadsAs, seen_item, ItemFits, send, send_envelopes, receive, receive-send,
}
use node_dubbo.Triple.StreamHandler.{
  EndStreamResponse, end_stream_flag, end_of, end_envelope, respond,
}
use node_dubbo.Triple.StreamClient.{read_to_end, read_response, and_yields, end_at}

module _ {ℓ} {O : Type ℓ} (serialization : Serialization O)
    (end_serialization : Serialization EndStreamResponse) (trailer : Headers) where
  -- The EndStreamResponse for how the outputs have ended.
  abbrev pub end_value : Option Reason → Outcome EndStreamResponse
  end_value e = ok (end_of trailer e)

  -- The outputs up to the first one that cannot be serialized, and then the end-of-stream message.
  abbrev pub sent_items : Stream O → Stream (Parsed O EndStreamResponse)
  sent_items = Ended.sent_items serialization end_stream_flag end_serialization end_value

  serialized :
      (s : Stream O)
      → transform_catch_finally
          (end_envelope end_serialization trailer)
          (transform_serialize_envelope serialization s)
        ≡ transform_serialize_parsed serialization end_stream_flag end_serialization (sent_items s)
  unfolding end_envelope
  serialized s = Ended.serialized serialization end_stream_flag end_serialization end_value refl s

  -- The pipe of a handler sends those items.
  pub respond-send :
      (compression : Option Compression) (min : ℕ) (s : Stream O)
      → respond serialization end_serialization trailer compression min s
        ≡ send serialization end_stream_flag end_serialization compression min (sent_items s)
  unfolding respond send send_envelopes
  respond-send compression min s =
      ap (λ t. transform_join_envelopes (transform_compress_envelope compression min t))
        (serialized s)

  module _ (seen : EndStreamResponse → EndStreamResponse) where
    -- A stream that ends as an EndStreamResponse, read back, says.
    abbrev pub closed : Option Reason → Stream O × Headers
    closed e = end_at (seen (end_of trailer e)) [] (λ h. (finished, h))

    abbrev pub delivered_value : O → Outcome Bytes → Stream O × Headers → Stream O × Headers
    delivered_value value (ok bytes) r = and_yields value r
    delivered_value value (thrown e) r = closed (some e)

    -- The outputs up to the first one that cannot be serialized, and then the ending of the
    -- EndStreamResponse.
    abbrev pub delivered : Stream O → Stream O × Headers
    delivered finished = closed none
    delivered (raised e) = closed (some e)
    delivered (yields value s) = delivered_value value (serialization.serialize value) (delivered s)

    read_value :
        (value : O) (o : Outcome Bytes) (items : Stream (Parsed O EndStreamResponse))
        (r : Stream O × Headers)
        → read_to_end false [] (map_stream (seen_item seen) items) ≡ r
        → read_to_end false [] (
            map_stream
              (seen_item seen)
              (Ended.after serialization end_stream_flag end_serialization end_value value o items))
          ≡ delivered_value value o r
    unfolding read_to_end
    read_value value (ok bytes) items r same = ap (and_yields value) same
    read_value value (thrown e) items r same = refl

    read_items :
        (s : Stream O)
        → read_to_end false [] (map_stream (seen_item seen) (sent_items s)) ≡ delivered s
    unfolding read_to_end
    read_items finished = refl
    read_items (raised e) = refl
    read_items (yields value s) =
        read_value value (serialization.serialize value) (sent_items s) (delivered s) (read_items s)

    -- A client that reads the body of a stream handler's response, however it is cut into chunks,
    -- yields the outputs of the implementation up to the first one that cannot be serialized. It
    -- then ends as the EndStreamResponse of the handler, read back, says: it throws its error, or
    -- it returns with its metadata as the trailer. That is if the serialization of the messages
    -- reads back what it writes, the compression (if any) is lossless, no compression of a message
    -- fails, the client's limit is below 2 ^ 32, and the messages, compressed or not, are within
    -- it.
    pub read_response-respond :
        (compression : Option Compression) (min max : ℕ) (s : Stream O)
        (sent : List EnvelopedMessage) (cs : List Bytes)
        → ReadsBack serialization
        → ReadsAs end_serialization seen
        → IsLossless? compression
        → max < 4294967296
        → AllOf
            (ItemFits serialization end_stream_flag end_serialization compression max)
            (sent_items s)
        → send_envelopes serialization end_stream_flag end_serialization compression min
            (sent_items s)
          ≡ before sent finished
        → All (λ e. length e.payload ≤ max) sent
        → joined cs
          ≡ joined (values (respond serialization end_serialization trailer compression min s))
        → read_response serialization end_serialization compression max (before cs finished)
          ≡ delivered s
    unfolding read_response receive
    read_response-respond compression min max s sent cs rz re lossless hm items sends fits same =
        ap (read_to_end false []) (
          receive-send serialization end_stream_flag end_serialization compression seen min max
            (sent_items s) sent cs rz re (omega arith) lossless hm items sends fits
            (same ∙ ap (λ t. joined (values t)) (respond-send compression min s)))
        ∙ read_items s
