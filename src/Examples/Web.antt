-- ===== src/Examples/Web.antt =====
-- The theorems about the readers of the fetch API, at concrete bodies.
use node_dubbo.Prelude.{ℕ, false, ◌+◌, ◌≤◌, ◌≡◌, refl, List, [], ◌∷◌, ◌++◌, none, length, arith}
use node_dubbo.ByteArray.{Bytes, set_uint32, get_uint32}
use node_dubbo.Stream.{finished, yields, before}
use node_dubbo.Envelope.{EnvelopedMessage}
use node_dubbo.Envelope.Encoding.{frames}
use node_dubbo.Envelope.Readable.{create_envelope_readable_stream}
use node_dubbo.Envelope.Readable.Delivery.{create_envelope_readable_stream-frames}
use node_dubbo.Envelope.Readable.Faults.{
  endless, create_envelope_readable_stream_truncated, create_envelope_readable_stream-endless,
}
use node_dubbo.Iterable.{serialize_parsed}
use node_dubbo.Iterable.Cut.{written}
use node_dubbo.Iterable.Inverse.{AllOf}
use node_dubbo.Pipeline.{ItemFits}
use node_dubbo.Triple.StreamHandler.{end_of}
use node_dubbo.Triple.Delivery.{delivered}
use node_dubbo.Grpc.Handler.{settle}
use node_dubbo.GrpcWeb.Trailer.{
  trailer_flag, trailer_text, trailer_serialize, create_trailer_serialization,
}
use node_dubbo.GrpcWeb.Client.Delivery
use node_dubbo.GrpcWeb.Client.Delivery.{with_values, closed, sent_items}
use node_dubbo.Web.DubboTransport.{parse_response_body}
use node_dubbo.Web.DubboTransport.Delivery.{parse_response_body-delivered}
use node_dubbo.Web.GrpcTransport
use node_dubbo.Web.GrpcTransport.Delivery.{parse_response_body-respond}
use node_dubbo.Examples.Grpc.{sample, raw, raw-ReadsBack}
use node_dubbo.Examples.GrpcWeb.{
  letters, ok_trailer, one_output, one_body, one_sent, one_sends, one_bytes, one_settles,
}
use node_dubbo.Examples.Streams.{
  plain_messages, marks, seen, outputs, sent_envelopes, body_chunks, plain_messages-ReadsBack,
  marks-ReadsAs, envelopes_sent, body_sent, short_item, short_end,
}

abbrev two_messages : List EnvelopedMessage
two_messages = record { flags = 0; payload = 9 ∷ 8 ∷ [] } ∷ record { flags = 2; payload = [] } ∷ []

abbrev two_chunks : List Bytes
two_chunks = (0 ∷ 0 ∷ 0 ∷ []) ∷ (0 ∷ 2 ∷ 9 ∷ 8 ∷ 2 ∷ 0 ∷ []) ∷ (0 ∷ 0 ∷ 0 ∷ []) ∷ []

two_frames : (0 ∷ 0 ∷ 0 ∷ 0 ∷ 2 ∷ 9 ∷ 8 ∷ 2 ∷ 0 ∷ 0 ∷ 0 ∷ 0 ∷ []) ≡ frames two_messages
unfolding set_uint32
two_frames = refl

readable_example :
    create_envelope_readable_stream 3 (before two_chunks finished) ≡ before two_messages finished
readable_example =
    create_envelope_readable_stream-frames two_messages two_chunks 3 (omega arith) two_frames
      (omega arith)

abbrev cut_chunk : Bytes
cut_chunk = 0 ∷ 0 ∷ 0 ∷ 0 ∷ 2 ∷ 9 ∷ 8 ∷ 2 ∷ 0 ∷ 0 ∷ 0 ∷ 0 ∷ 0 ∷ 0 ∷ 0 ∷ 0 ∷ 3 ∷ 7 ∷ []

cut_frames : cut_chunk ≡ frames two_messages ++ (0 ∷ (set_uint32 3 ++ (7 ∷ [])))
unfolding set_uint32
cut_frames = refl

cut_example :
    create_envelope_readable_stream 9 (before (cut_chunk ∷ []) finished)
    ≡ before two_messages (yields (record { flags = 0; payload = 7 ∷ [] }) finished)
cut_example =
    create_envelope_readable_stream_truncated 0 3 two_messages (7 ∷ []) (cut_chunk ∷ []) 9
      (omega arith) (omega arith) cut_frames (omega arith) (omega arith)

abbrev large_head : Bytes
large_head = 0 ∷ 128 ∷ 0 ∷ 0 ∷ 0 ∷ 5 ∷ []

large : 2147483648 ≤ get_uint32 128 0 0 0
unfolding get_uint32
large = omega arith

large_bounded : get_uint32 128 0 0 0 + 6 + 5 ≤ 4294967296
unfolding get_uint32
large_bounded = omega arith

endless_example :
    create_envelope_readable_stream 1000 (yields large_head finished)
    ≡ endless 1000 (record { flags = 0; payload = [] })
endless_example =
    create_envelope_readable_stream-endless large_head finished (omega arith) large large_bounded
      1000

at_most_large : (n : ℕ) → n ≤ 64 → n ≤ 2147483647
at_most_large n h = omega arith

dubbo_body_example :
    parse_response_body plain_messages.parse marks.parse 3 (before body_chunks finished)
    ≡ delivered plain_messages marks [] seen outputs
unfolding end_of
dubbo_body_example =
    parse_response_body-delivered plain_messages marks [] seen 1024 outputs sent_envelopes
      body_chunks 3 plain_messages-ReadsBack marks-ReadsAs
      (
        λ env h. at_most_large (length env.payload) (short_item _ env (omega arith) h),
        (λ env h. at_most_large (length env.payload) (short_end _ env (omega arith) h), tt),
      )
      envelopes_sent body_sent (omega arith)

large_fits :
    AllOf
      (ItemFits raw trailer_flag (create_trailer_serialization letters) none 2147483647)
      (sent_items sample letters raw ok_trailer one_output)
unfolding settle serialize_parsed create_trailer_serialization trailer_serialize trailer_text
large_fits = (λ env h. ground arith, (λ env h. ground arith, tt))

grpc_body_example :
    GrpcTransport.parse_response_body sample letters raw.parse false 3 (before one_body finished)
    ≡ with_values
        (written raw.serialize one_output).0
        (closed sample letters (Delivery.seen sample letters ok_trailer))
grpc_body_example =
    parse_response_body-respond sample letters raw ok_trailer 0 one_output one_sent one_body 3
      ok_trailer raw-ReadsBack large_fits one_sends one_bytes (omega arith) one_settles
