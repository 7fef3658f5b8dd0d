-- ===== src/Examples/GrpcWeb.antt =====
-- The theorems about the gRPC-web protocol, at concrete calls.
use Prim.Native.Char.{Char, code, nul}
use node_dubbo.Prelude.{
  false, ℕ, ◌≡◌, refl, String, List, [], ◌∷◌, none, ◌==◌, if◌then◌else◌, arith, All, codes,
}
use node_dubbo.ByteArray.{Bytes, set_uint32, set_at, zeros}
use node_dubbo.Headers.{Headers, append_all}
use node_dubbo.Error.{ok}
use node_dubbo.Stream.{Stream, finished, yields, values, before}
use node_dubbo.Envelope.{EnvelopedMessage, encode_envelope, envelope_compress}
use node_dubbo.Iterable.{
  map_or_raise, serialize_item, serialize_parsed, transform_serialize_parsed,
  transform_serialize_envelope, transform_catch_finally, transform_compress_envelope,
  transform_join_envelopes,
}
use node_dubbo.Iterable.Cut.{written}
use node_dubbo.Iterable.Split.Chunks.{joined}
use node_dubbo.Pipeline.{ItemFits, send_envelopes}
use node_dubbo.Iterable.Inverse.{AllOf}
use node_dubbo.Compression.{trim, trim_start, reverse_onto}
use node_dubbo.Grpc.Handler.{settle}
use node_dubbo.GrpcWeb.Trailer.{
  TextCoder, trailer_flag, trailer_text, trailer_parse, trailer_serialize,
  create_trailer_serialization,
}
use node_dubbo.GrpcWeb.Trailer.RoundTrip.{IsField, trailer_parse-trailer_serialize}
use node_dubbo.GrpcWeb.Handler.{respond, trailer_envelope}
use node_dubbo.GrpcWeb.Client.{read_items, read_to_trailer}
use node_dubbo.GrpcWeb.Client.Delivery.{
  with_values, closed, seen, sent_items, read_to_trailer-respond,
}
use node_dubbo.Examples.Grpc.{sample, raw, raw-ReadsBack}

-- The characters of the example, found by their codes.
find_char : String → ℕ → Char
find_char String.[] n = nul
find_char (String.◌∷◌ c s) n = let rest = find_char s n in if code c == n then c else rest

pub text_of : Bytes → String
text_of [] = ""
text_of (n ∷ ns) =
    String.◌∷◌ (find_char "\r\n :-0123456789abcdefghijklmnopqrstuvwxyz" n) (text_of ns)

abbrev pub letters : TextCoder
letters = record { encode = codes; decode = text_of }

abbrev pub ok_trailer : Headers
ok_trailer = ("grpc-status", "0") ∷ []

ok_trailer-reads : text_of (codes (trailer_text ok_trailer)) ≡ trailer_text ok_trailer
unfolding trailer_text text_of find_char
ok_trailer-reads = refl

ok_trailer-fields : All IsField ok_trailer
unfolding trim trim_start reverse_onto
ok_trailer-fields = (
  record {
    named = λ h. cc;
    no_colon = omega arith;
    no_break = omega arith;
    trimmed = (refl, refl);
  },
  tt,
)

web_trailer_example :
    trailer_parse letters (trailer_serialize letters ok_trailer) ≡ append_all ok_trailer []
web_trailer_example =
    trailer_parse-trailer_serialize letters ok_trailer ok_trailer-reads ok_trailer-fields

abbrev pub one_output : Stream Bytes
one_output = yields (7 ∷ []) finished

abbrev pub one_body : List Bytes
one_body = (0 ∷ 0 ∷ 0 ∷ 0 ∷ 1 ∷ 7 ∷ 128 ∷ 0 ∷ 0 ∷ 0 ∷ 16 ∷ []) ∷ codes "grpc-status: 0\r\n" ∷ []

abbrev pub one_sent : List EnvelopedMessage
one_sent =
    record { flags = 0; payload = 7 ∷ [] }
    ∷ record { flags = 128; payload = codes "grpc-status: 0\r\n" }
    ∷ []

pub one_sends :
    send_envelopes raw trailer_flag
      (create_trailer_serialization letters)
      none
      0
      (sent_items sample letters raw ok_trailer one_output)
    ≡ before one_sent finished
unfolding send_envelopes transform_serialize_parsed serialize_parsed map_or_raise
    transform_compress_envelope envelope_compress settle create_trailer_serialization
    trailer_serialize trailer_text
one_sends = refl

pub one_bytes :
    joined one_body ≡ joined (values (respond sample letters raw ok_trailer none 0 one_output))
unfolding respond serialize_item envelope_compress trailer_envelope map_or_raise
    transform_serialize_envelope transform_compress_envelope transform_join_envelopes
    transform_catch_finally encode_envelope set_uint32 set_at zeros settle
    create_trailer_serialization trailer_serialize trailer_text
one_bytes = refl

pub one_settles : settle sample ok_trailer (written raw.serialize one_output).1 ≡ ok ok_trailer
unfolding settle
one_settles = refl

one_fits :
    AllOf
      (ItemFits raw trailer_flag (create_trailer_serialization letters) none 100)
      (sent_items sample letters raw ok_trailer one_output)
unfolding settle serialize_parsed create_trailer_serialization trailer_serialize trailer_text
one_fits = (λ env h. ground arith, (λ env h. ground arith, tt))

web_stream_example :
    read_to_trailer sample false [] (read_items letters raw none 100 (before one_body finished))
    ≡ with_values
        (written raw.serialize one_output).0
        (closed sample letters (seen sample letters ok_trailer))
web_stream_example =
    read_to_trailer-respond sample letters raw ok_trailer none 0 100 one_output one_sent one_body
      ok_trailer raw-ReadsBack tt (omega arith) one_fits one_sends (omega arith) one_bytes
      one_settles
