-- ===== src/Examples/Unary.antt =====
-- The theorems about unary calls and errors of the Triple protocol, at concrete values.
use Prim.Native.Char.{code}
use node_dubbo.Prelude.{
  ℕ, zero, suc, ◌+◌, ◌≡◌, refl, ap, ap₂, ◌∙◌, true, false, String, [], ◌∷◌, Option, none, some,
  ◌==◌, if◌then◌else◌, arith, all, map, lower, lower_char, decimal,
}
use node_dubbo.ByteArray.{Bytes}
use node_dubbo.Headers.{Headers, get, set, set_all}
use node_dubbo.Headers.Entry
use node_dubbo.Error.{
  Code, Detail, outgoing, DubboError, error, new_error, Outcome, ok, thrown, dubbo,
}
use node_dubbo.Stream.{create_async_iterable}
use node_dubbo.Triple.Json.{Json, null, text, object, no_fields, JsonCoding}
use node_dubbo.Triple.ErrorJson.{
  error_from_json_bytes, error_to_json, error_to_json_bytes, with_metadata,
}
use node_dubbo.Triple.ErrorJson.RoundTrip.{
  received, is_form, is_readable, error_from_json_bytes-error_to_json_bytes,
}
use node_dubbo.Triple.StreamHandler.{ServerResponse, EndStreamResponse, reported}
use node_dubbo.Triple.EndStream.{create_end_stream_serialization, end_stream_to_json}
use node_dubbo.Triple.EndStream.RoundTrip.{seen_end, create_end_stream_serialization_lem}
use node_dubbo.Triple.Mux.{trailer_mux, trailer_demux}
use node_dubbo.Triple.UnaryHandler.{answer, answer_error, unary_response}
use node_dubbo.Triple.UnaryClient.{read_unary_response}
use node_dubbo.Triple.UnaryClient.Failure.{
  answered, both_parts, read_unary_response-answer, read_unary_response-output,
}
use node_dubbo.Examples.Grpc.{raw, raw-ReadsBack}

-- Bytes as text: as many ones as a byte says, and a blank.
ones : ℕ → String → String
ones zero s = String.◌∷◌ " " s
ones (suc n) s = String.◌∷◌ "1" (ones n s)

write_ones : Bytes → String
write_ones [] = ""
write_ones (n ∷ ns) = ones n (write_ones ns)

and_byte : ℕ → Outcome Bytes → Outcome Bytes
and_byte n (ok ns) = ok (n ∷ ns)
and_byte n (thrown e) = thrown e

read_ones : ℕ → String → Outcome Bytes
unfolding and_byte
read_ones n String.[] = ok []
read_ones n (String.◌∷◌ c s) =
    let longer = read_ones (suc n) s in
    let next = and_byte n (read_ones 0 s) in if code c == 49 then longer else next

read-ones : (n m : ℕ) (s : String) → read_ones m (ones n s) ≡ and_byte (m + n) (read_ones 0 s)
unfolding read_ones ones
read-ones zero m s = ap (λ k. and_byte k (read_ones 0 s)) (omega arith)
read-ones (suc n) m s = read-ones n (suc m) s ∙ ap (λ k. and_byte k (read_ones 0 s)) (omega arith)

read_ones-write_ones : (b : Bytes) → read_ones 0 (write_ones b) ≡ ok b
unfolding read_ones write_ones and_byte
read_ones-write_ones [] = refl
read_ones-write_ones (n ∷ ns) =
    read-ones n 0 (write_ones ns) ∙ ap₂ and_byte (omega arith) (read_ones-write_ones ns)

-- The coding where one JSON value is written and read.
abbrev only : Json → JsonCoding
only v = record {
  stringify = λ w. 123 ∷ 125 ∷ [];
  parse = λ b. ok v;
  base64_enc = write_ones;
  base64_dec = read_ones 0;
}

abbrev denied : DubboError
denied = new_error "no" Code.permission_denied [] (outgoing "demo.Reason" (2 ∷ []) ∷ [])

-- A detail whose form for people is an object, and one whose form is a text.
abbrev as_object : Detail → Option Json
as_object d = some (object no_fields)

abbrev as_text : Detail → Option Json
as_text d = some (text "2s")

abbrev denied_json : Json
denied_json = error_to_json (only null) as_object denied

abbrev denied_text_json : Json
denied_text_json = error_to_json (only null) as_text denied

same_text_json : ok denied_text_json ≡ ok (error_to_json (only denied_text_json) as_text denied)
unfolding error_to_json
same_text_json = refl

error_json_example :
    error_from_json_bytes
      (only denied_text_json)
      (error_to_json_bytes (only denied_text_json) as_text denied)
      []
      (error "HTTP 403" Code.unknown)
    ≡ (if all (is_readable as_text) denied.details
        then ok (new_error denied.raw_message denied.code [] (map received denied.details))
        else thrown (dubbo (with_metadata [] (error "HTTP 403" Code.unknown))))
unfolding new_error
error_json_example =
    error_from_json_bytes-error_to_json_bytes (only denied_text_json) as_text read_ones-write_ones
      denied (error "HTTP 403" Code.unknown) [] same_text_json refl

unreadable : all (is_readable as_text) denied.details ≡ false
unfolding is_form new_error
unreadable = refl

abbrev denied_end : EndStreamResponse
denied_end = record { metadata = ("x-id", "7") ∷ []; error = some denied }

abbrev end_json : Json
end_json = end_stream_to_json (only null) as_object denied_end.metadata denied_end.error

end_written :
    (create_end_stream_serialization (only end_json) as_object).serialize denied_end
    ≡ ok (123 ∷ 125 ∷ [])
unfolding create_end_stream_serialization
end_written = refl

readable : all (is_readable as_object) denied.details ≡ true
unfolding is_form new_error
readable = refl

same_json :
    ok end_json
    ≡ ok (end_stream_to_json (only end_json) as_object denied_end.metadata denied_end.error)
unfolding end_stream_to_json error_to_json
same_json = refl

end_stream_example :
    (create_end_stream_serialization (only end_json) as_object).parse (123 ∷ 125 ∷ [])
    ≡ ok (seen_end denied_end)
unfolding new_error
end_stream_example =
    create_end_stream_serialization_lem (only end_json) as_object read_ones-write_ones denied_end
      (123 ∷ 125 ∷ []) same_json (refl, readable) end_written

same_error : ok denied_json ≡ ok (error_to_json (only denied_json) as_object denied)
unfolding error_to_json
same_error = refl

no_encoding :
    get "Content-Encoding"
      (answered (only denied_json) as_object raw read_ones-write_ones [] [] denied).header
    ≡ none
unfolding get set Entry.get Entry.set set_all lower lower_char trailer_mux answer answer_error
    reported unary_response new_error error_to_json_bytes decimal
no_encoding = refl

abbrev denied_response : ServerResponse
denied_response = answered (only denied_json) as_object raw read_ones-write_ones [] [] denied

unary_error_example :
    read_unary_response
      (only denied_json)
      raw
      []
      100
      denied_response.status
      denied_response.header
      (create_async_iterable (error_to_json_bytes (only denied_json) as_object denied ∷ []))
    ≡ thrown (
        dubbo (
          new_error denied.raw_message denied.code
            (both_parts
              (only denied_json)
              as_object
              raw
              read_ones-write_ones
              denied_response.header)
            (map received denied.details)))
unfolding new_error error_to_json_bytes
unary_error_example =
    read_unary_response-answer (only denied_json) as_object raw read_ones-write_ones [] [] denied []
      100 same_error refl readable no_encoding (omega arith)

abbrev plain_header : Headers
plain_header = ("content-type", "application/proto") ∷ []

abbrev plain_response : ServerResponse
plain_response = unary_response [] (answer (only null) as_object plain_header (ok (5 ∷ [])))

plain_no_encoding : get "Content-Encoding" plain_response.header ≡ none
unfolding get set Entry.get Entry.set lower lower_char trailer_mux answer unary_response decimal
plain_no_encoding = refl

unary_output_example :
    read_unary_response
      (only null)
      raw
      []
      100
      plain_response.status
      plain_response.header
      (create_async_iterable ((5 ∷ []) ∷ []))
    ≡ ok (record {
      header = (trailer_demux plain_response.header).0;
      message = 5 ∷ [];
      trailer = (trailer_demux plain_response.header).1;
    })
unary_output_example =
    read_unary_response-output (only null) as_object raw read_ones-write_ones plain_header []
      (5 ∷ []) (5 ∷ []) [] 100 raw-ReadsBack refl plain_no_encoding (omega arith)
