-- ===== src/Triple/UnaryClient/Failure.antt =====
-- The answers of a unary handler, an error or an output, and what the client makes of them.
use node_dubbo.Prelude.{
  ℕ, ◌≤◌, ◌≡◌, refl, ap, ◌∙◌, true, false, List, [], ◌∷◌, Option, none, some, map, all, append-nil,
  ◌⊎◌, inl, inr, ◌==◌, decimal, length, if◌then◌else◌, arith,
}
use node_dubbo.Prelude.Numerals.Decimal.{parse_int-decimal}
use node_dubbo.ByteArray.{Bytes}
use node_dubbo.Headers.{Headers, get, get-set_self}
use node_dubbo.Error.{Code, is_member, DubboError, Detail, new_error, ok, thrown, dubbo, ◌>>=◌}
use node_dubbo.Error.HttpStatus.{code_to_http_status}
use node_dubbo.Stream.{create_async_iterable}
use node_dubbo.Envelope.{Compression}
use node_dubbo.Iterable.{Serialization}
use node_dubbo.Iterable.ReadAll.{LengthHint, parse_length_hint, read_all_bytes}
use node_dubbo.Iterable.ReadAll.Exact.{Reads, read_all_bytes_hinted, read_all_bytes_unhinted}
use node_dubbo.Pipeline.{ReadsBack}
use node_dubbo.Grpc.Response.{response_encoding}
use node_dubbo.Triple.Json.{Json, JsonCoding}
use node_dubbo.Triple.ErrorJson.{
  error_to_json, error_to_json_bytes, error_from_json_bytes, with_metadata,
}
use node_dubbo.Triple.ErrorJson.RoundTrip.{
  received, is_readable, error_from_json_bytes-error_to_json_bytes,
}
use node_dubbo.Triple.EndStream.{append_headers}
use node_dubbo.Triple.Mux.{trailer_mux, trailer_demux}
use node_dubbo.Triple.StreamHandler.{ServerResponse, reported}
use node_dubbo.Triple.UnaryHandler.{answer, answer_error, unary_response}
use node_dubbo.Triple.UnaryClient.{
  status_error, validate_response, validate_response_with_compression, read_outcome,
  read_unary_response,
}

status_lem : (c : Code) → is_member c ≡ true → (code_to_http_status c == 200) ≡ false
unfolding code_to_http_status
status_lem c h = ground arith

hint_cases :
    (n : ℕ)
    → (parse_length_hint (LengthHint.text (decimal n)) ≡ some n)
      ⊎ (parse_length_hint (LengthHint.text (decimal n)) ≡ none)
unfolding parse_length_hint
hint_cases n = rw parse_int-decimal (ground arith)

one_chunk : (b : Bytes) → Reads (create_async_iterable (b ∷ [])) b
unfolding create_async_iterable
one_chunk b = (refl, append-nil b)

-- A body of one chunk, with its length in the header.
whole_body :
    (b : Bytes) (max : ℕ)
    → length b ≤ max
    → read_all_bytes (create_async_iterable (b ∷ [])) max (LengthHint.text (decimal (length b)))
      ≡ ok b
whole_body b max h = elim (hint_cases (length b)) [
  | inl e ↦ (read_all_bytes_hinted _ max (length b) _ b e).1 (one_chunk b, refl, h)
  | inr e ↦ (read_all_bytes_unhinted _ max _ b e).1 (one_chunk b, h)
]

module _ {ℓ} {O : Type ℓ} (coding : JsonCoding) (debug_of : Detail → Option Json)
    (serialization : Serialization O)
    (base64 : (b : Bytes) → coding.base64_dec (coding.base64_enc b) ≡ ok b) where
  -- The platform reads back what it has written for an error.
  abbrev pub IsReadBack : DubboError → Type 0
  IsReadBack e =
      coding.parse (coding.stringify (error_to_json coding debug_of e))
      ≡ ok (error_to_json coding debug_of e)

  -- The error in the body is taken for that of the status.
  error_back :
      (e fallback : DubboError) (metadata : Headers)
      → IsReadBack e
      → is_member e.code ≡ true
      → all (is_readable debug_of) e.details ≡ true
      → error_from_json_bytes coding (error_to_json_bytes coding debug_of e) metadata fallback
        ≡ ok (new_error e.raw_message e.code metadata (map received e.details))
  error_back e fallback metadata json member readable =
      error_from_json_bytes-error_to_json_bytes coding debug_of base64 e fallback metadata json
        member
      ∙ ap
          (λ b.
            if b
            then ok (new_error e.raw_message e.code metadata (map received e.details))
            else thrown (dubbo (with_metadata metadata fallback)))
          readable

  -- The header that the client has, and its two parts together.
  abbrev pub answered : Headers → Headers → DubboError → ServerResponse
  answered header trailer e =
      unary_response trailer (answer coding debug_of header (thrown (dubbo e)))

  abbrev pub both_parts : Headers → Headers
  both_parts header = append_headers (trailer_demux header).0 (trailer_demux header).1

  validated :
      (accept : List Compression) (status : ℕ) (header : Headers)
      → (status == 200) ≡ false
      → get "Content-Encoding" header ≡ none
      → validate_response_with_compression true accept status header
        ≡ ok (none, some (status_error status header))
  unfolding validate_response_with_compression validate_response response_encoding
  validated accept status header h none_there = rw (none_there, h) refl

  read_step :
      (accept : List Compression) (max status : ℕ) (h : Headers) (b : Bytes)
      → (status == 200) ≡ false
      → get "Content-Encoding" h ≡ none
      → get "Content-Length" h ≡ some (decimal (length b))
      → length b ≤ max
      → read_unary_response coding serialization accept max status h
          (create_async_iterable (b ∷ []))
        ≡ read_outcome coding serialization (trailer_demux h) b (some (status_error status h))
  unfolding read_unary_response
  read_step accept max status h b not_ok no_encoding counted fits =
      rw (validated accept status h not_ok no_encoding, counted, whole_body b max fits) refl

  -- A unary client throws the error that a unary handler answers with, although it goes over an
  -- HTTP status: its message, code and details, with the header and the trailer of the response as
  -- metadata. That is if the code is one of the enumeration, the JSON form of each detail is an
  -- object or missing, the response has no encoding, its body is within the limit of the client,
  -- and the platform reads back the JSON value and the base 64 text that it has written.
  pub read_unary_response-answer :
      (header trailer : Headers) (e : DubboError) (accept : List Compression) (max : ℕ)
      → IsReadBack e
      → is_member e.code ≡ true
      → all (is_readable debug_of) e.details ≡ true
      → get "Content-Encoding" (answered header trailer e).header ≡ none
      → length (error_to_json_bytes coding debug_of e) ≤ max
      → read_unary_response coding serialization accept max
          (answered header trailer e).status
          (answered header trailer e).header
          (create_async_iterable (error_to_json_bytes coding debug_of e ∷ []))
        ≡ thrown (
            dubbo (
              new_error e.raw_message e.code
                (both_parts (answered header trailer e).header)
                (map received e.details)))
  unfolding answer answer_error reported unary_response
  read_unary_response-answer header trailer e accept max json member readable no_encoding fits =
      read_step accept max (code_to_http_status e.code) (answered header trailer e).header
        (error_to_json_bytes coding debug_of e) (status_lem e.code member) no_encoding
        (get-set_self "Content-Length" _ _) fits
      ∙ unfold read_outcome in
        ap (λ o. o >>= (λ x. thrown (dubbo x))) (error_back e _ _ json member readable)

  validated_ok :
      (accept : List Compression) (header : Headers)
      → get "Content-Encoding" header ≡ none
      → validate_response_with_compression true accept 200 header ≡ ok (none, none)
  unfolding validate_response_with_compression validate_response response_encoding
  validated_ok accept header none_there = rw none_there refl

  -- A unary client returns the output that a unary handler has written, with the header and the
  -- trailer taken apart, if the serialization reads back what it writes, the response has no
  -- encoding, and the body is within the limit of the client.
  pub read_unary_response-output :
      (header trailer : Headers) (value : O) (body : Bytes) (accept : List Compression) (max : ℕ)
      → ReadsBack serialization
      → serialization.serialize value ≡ ok body
      → get "Content-Encoding"
          (unary_response trailer (answer coding debug_of header (ok body))).header
        ≡ none
      → length body ≤ max
      → let res = unary_response trailer (answer coding debug_of header (ok body)) in
        read_unary_response coding serialization accept max res.status res.header
          (create_async_iterable (body ∷ []))
        ≡ ok (record {
          header = (trailer_demux res.header).0;
          message = value;
          trailer = (trailer_demux res.header).1;
        })
  unfolding read_unary_response read_outcome answer unary_response
  read_unary_response-output header trailer value body accept max rz run no_encoding fits =
      rw
        (
          validated_ok accept _ no_encoding,
          get-set_self "Content-Length" (decimal (length body)) (trailer_mux header trailer),
          whole_body body max fits,
          rz value body run,
        )
        refl
