-- ===== src/Web/DubboTransport/Delivery.antt =====
-- What dubbo-transport.ts reads of the response of a stream handler.
use node_dubbo.Prelude.{
  ℕ, ◌<◌, ◌≡◌, refl, ap, fun_ext, ◌∙◌, Bool, true, false, List, [], none, length, arith, Bool-cases,
  inl, inr,
}
use node_dubbo.ByteArray.{Bytes}
use node_dubbo.Headers.{Headers}
use node_dubbo.Error.{Outcome, ok, thrown, ◌>>=◌}
use node_dubbo.Stream.{Stream, finished, raised, yields, values, before, yields_or_raises}
use node_dubbo.Envelope.{EnvelopedMessage, has_flag}
use node_dubbo.Iterable.{
  Serialization, Parsed, item, end_item, transform_parse_envelope, map_or_raise, parse_item,
}
use node_dubbo.Iterable.Inverse.{AllOf, map_stream}
use node_dubbo.Iterable.Split.Chunks.{joined}
use node_dubbo.Pipeline.Ended
use node_dubbo.Pipeline.{ReadsBack, ReadsAs, seen_item, ItemFits, send_envelopes}
use node_dubbo.Triple.StreamHandler.{EndStreamResponse, end_stream_flag, respond}
use node_dubbo.Triple.StreamClient.{and_yields, end_at}
use node_dubbo.Triple.Delivery.{sent_items, end_value, delivered, delivered_value, respond-send}
use node_dubbo.Web.DubboTransport.{read_body, parse_response_body, yields_parsed, at_end}
use node_dubbo.Web.Plain.{received-send}

module _ {ℓ} {O : Type ℓ} (z : Serialization O) (end_z : Serialization EndStreamResponse) where
  -- The loop, over items that are parsed.
  read_parsed : Bool → Headers → Stream (Parsed O EndStreamResponse) → Stream O × Headers
  read_parsed true trailer finished = read_body z.parse end_z.parse true trailer finished
  read_parsed false trailer finished = read_body z.parse end_z.parse false trailer finished
  read_parsed received trailer (raised e) = (raised e, trailer)
  read_parsed received trailer (yields (end_item end) s) =
      end_at end trailer (λ t. read_parsed true t s)
  read_parsed received trailer (yields (item value) s) =
      and_yields value (read_parsed received trailer s)

  at_end-parsed :
      (o : Outcome EndStreamResponse) (received : Bool) (trailer : Headers)
      (k : Headers → Stream O × Headers) (items : Stream (Parsed O EndStreamResponse))
      → k ≡ (λ t. read_parsed true t items)
      → at_end o trailer k
        ≡ read_parsed received trailer (yields_or_raises (o >>= (λ v. ok (end_item v))) items)
  unfolding read_parsed end_at
  at_end-parsed (ok end) received trailer k items same = ap (end_at end trailer) same
  at_end-parsed (thrown e) received trailer k items same = refl

  yields_parsed-parsed :
      (o : Outcome O) (received : Bool) (trailer : Headers) (r : Stream O × Headers)
      (items : Stream (Parsed O EndStreamResponse))
      → r ≡ read_parsed received trailer items
      → yields_parsed o trailer r
        ≡ read_parsed received trailer (yields_or_raises (o >>= (λ v. ok (item v))) items)
  unfolding read_parsed
  yields_parsed-parsed (ok value) received trailer r items same = ap (and_yields value) same
  yields_parsed-parsed (thrown e) received trailer r items same = refl

  read_body-parsed :
      (received : Bool) (trailer : Headers) (s : Stream EnvelopedMessage)
      → read_body z.parse end_z.parse received trailer s
        ≡ read_parsed received trailer (transform_parse_envelope z end_stream_flag end_z s)
  unfolding read_body read_parsed transform_parse_envelope map_or_raise parse_item
  read_body-parsed true trailer finished = refl
  read_body-parsed false trailer finished = refl
  read_body-parsed true trailer (raised e) = refl
  read_body-parsed false trailer (raised e) = refl
  read_body-parsed received trailer (yields env s) =
      elim (Bool-cases (has_flag env.flags end_stream_flag)) [
        | inl end ↦ rw end (
            at_end-parsed (end_z.parse env.payload) received trailer
              (λ t. read_body z.parse end_z.parse true t s)
              (transform_parse_envelope z end_stream_flag end_z s)
              (fun_ext (λ t. read_body-parsed true t s)))
        | inr value ↦ rw value (
            yields_parsed-parsed (z.parse env.payload) received trailer
              (read_body z.parse end_z.parse received trailer s)
              (transform_parse_envelope z end_stream_flag end_z s)
              (read_body-parsed received trailer s))
      ]

  module _ (trailer : Headers) (seen : EndStreamResponse → EndStreamResponse) where
    read_value :
        (value : O) (o : Outcome Bytes) (items : Stream (Parsed O EndStreamResponse))
        (r : Stream O × Headers)
        → read_parsed false [] (map_stream (seen_item seen) items) ≡ r
        → read_parsed false [] (
            map_stream
              (seen_item seen)
              (Ended.after z end_stream_flag end_z (end_value z end_z trailer) value o items))
          ≡ delivered_value z end_z trailer seen value o r
    unfolding read_parsed read_body
    read_value value (ok bytes) items r same = ap (and_yields value) same
    read_value value (thrown e) items r same = refl

    read_items :
        (s : Stream O)
        → read_parsed false [] (map_stream (seen_item seen) (sent_items z end_z trailer s))
          ≡ delivered z end_z trailer seen s
    unfolding read_parsed read_body
    read_items finished = refl
    read_items (raised e) = refl
    read_items (yields value s) =
        read_value value (z.serialize value) (sent_items z end_z trailer s)
          (delivered z end_z trailer seen s) (read_items s)

    -- The transport for browsers reads the body of a stream handler that does not compress,
    -- however it is cut into chunks, as the outputs of the implementation up to the first one that
    -- cannot be serialized, and then throws the error of the EndStreamResponse, as its
    -- serialization reads it back, or returns with its metadata as the trailer. That is if the
    -- serialization of the messages reads back what it writes, every message is shorter than 2 ^
    -- 31 and the last one can be serialized, and there is fuel for one pull more than there are
    -- messages.
    pub parse_response_body-delivered :
        (min : ℕ) (s : Stream O) (sent : List EnvelopedMessage) (cs : List Bytes) (fuel : ℕ)
        → ReadsBack z
        → ReadsAs end_z seen
        → AllOf (ItemFits z end_stream_flag end_z none 2147483647) (sent_items z end_z trailer s)
        → send_envelopes z end_stream_flag end_z none min (sent_items z end_z trailer s)
          ≡ before sent finished
        → joined cs ≡ joined (values (respond z end_z trailer none min s))
        → length sent < fuel
        → parse_response_body z.parse end_z.parse fuel (before cs finished)
          ≡ delivered z end_z trailer seen s
    unfolding parse_response_body
    parse_response_body-delivered min s sent cs fuel rz re items sends same enough =
        let (read, parsed) =
          received-send z end_stream_flag end_z seen min (sent_items z end_z trailer s) sent cs fuel
            rz re (omega arith) items sends
            (same ∙ ap (λ t. joined (values t)) (respond-send z end_z trailer none min s)) enough in
        ap (read_body z.parse end_z.parse false []) read
        ∙ read_body-parsed false [] (before sent finished)
        ∙ ap (read_parsed false []) parsed
        ∙ read_items s
