-- ===== src/Triple/EndStream/RoundTrip.antt =====
-- An EndStreamResponse that end-stream.ts writes and reads.
use node_dubbo.Prelude.{
  ◌≡◌, refl, sym, ap, ◌∙◌, true, [], ◌∷◌, Option, none, some, map, all, if◌then◌else◌,
}
use node_dubbo.ByteArray.{Bytes}
use node_dubbo.Headers.{Headers, append, append_all}
use node_dubbo.Error.{
  is_member, Detail, DubboError, new_error, ok, ok_injective, thrown, dubbo, ◌>>=◌,
}
use node_dubbo.Triple.Json.{Json, field, lookup, JsonCoding}
use node_dubbo.Triple.ErrorJson.{with_metadata, error_to_json}
use node_dubbo.Triple.ErrorJson.RoundTrip.{received, is_readable, error_from_json-error_to_json}
use node_dubbo.Triple.StreamHandler.{EndStreamResponse}
use node_dubbo.Triple.EndStream.{
  append_headers, metadata_to_json, metadata_field, append_values, then_append, append_entries,
  metadata_in, invalid_end, or_failed, error_in, end_of_members, end_of_json, end_stream_from_json,
  end_stream_to_json, create_end_stream_serialization,
}

entries_back :
    (metadata h : Headers)
    → append_entries (metadata_to_json metadata) h ≡ some (append_all metadata h)
unfolding append_entries metadata_to_json append_values then_append append_all
entries_back [] h = refl
entries_back ((key, value) ∷ metadata) h = entries_back metadata (append key value h)

metadata_back :
    (metadata : Headers)
    → metadata_in (lookup "metadata" (metadata_field metadata)) ≡ some (append_all metadata [])
unfolding metadata_in metadata_field lookup append_all
metadata_back [] = refl
metadata_back (entry ∷ metadata) = entries_back (entry ∷ metadata) []

no_error : (metadata : Headers) → lookup "error" (metadata_field metadata) ≡ none
unfolding metadata_field lookup
no_error [] = refl
no_error (entry ∷ metadata) = refl

-- What is read: the fields of the trailer and of the error together, also as those of the error.
abbrev pub seen_end : EndStreamResponse → EndStreamResponse
seen_end end = seen_error end.metadata end.error
  where
    seen_error : Headers → Option DubboError → EndStreamResponse
    seen_error metadata none = record { metadata = append_all metadata []; error = none }
    seen_error metadata (some e) =
        let all_metadata = append_all (append_headers metadata e.metadata) [] in
        record {
          metadata = all_metadata;
          error = some (new_error e.raw_message e.code all_metadata (map received e.details));
        }

-- The code of the error is of the enumeration, and its details have a form for people, if any, that
-- is an object.
abbrev pub IsPlain : (Detail → Option Json) → Option DubboError → Type 0
IsPlain debug_of none = Unit
IsPlain debug_of (some e) =
    (is_member e.code ≡ true) × (all (is_readable debug_of) e.details ≡ true)

module _ (coding : JsonCoding) (debug_of : Detail → Option Json)
    (base64 : (b : Bytes) → coding.base64_dec (coding.base64_enc b) ≡ ok b) where
  error_back :
      (metadata : Headers) (e : DubboError)
      → is_member e.code ≡ true
      → all (is_readable debug_of) e.details ≡ true
      → error_in coding (some (error_to_json coding debug_of e)) metadata
        ≡ ok (some (new_error e.raw_message e.code metadata (map received e.details)))
  unfolding error_in
  error_back metadata e member readable =
      ap (λ o. o >>= (λ x. ok (some x)))
        (error_from_json-error_to_json coding debug_of base64 e invalid_end metadata member
          ∙ ap
              (λ b.
                if b
                then ok (new_error e.raw_message e.code metadata (map received e.details))
                else thrown (dubbo (with_metadata metadata invalid_end)))
              readable)

  json_back :
      (metadata : Headers) (e : Option DubboError)
      → IsPlain debug_of e
      → end_of_json coding (ok (end_stream_to_json coding debug_of metadata e))
        ≡ ok (seen_end (record { metadata = metadata; error = e }))
  unfolding end_of_json end_stream_to_json end_of_members error_in lookup
  json_back metadata none p = rw (metadata_back metadata, no_error metadata) refl
  json_back metadata (some e) (member, readable) =
      let h = append_headers metadata e.metadata in
      ap
        (end_of_members coding (field "error" (error_to_json coding debug_of e) (metadata_field h)))
        (metadata_back h)
      ∙ ap (λ o. o >>= (λ error. ok (record { metadata = append_all h []; error = error })))
          (error_back (append_all h []) e member readable)

  -- The serialization of an EndStreamResponse reads back the metadata, those of the error among
  -- them, and the error, with the metadata read as its own. That is if the code of the error is
  -- one of the enumeration, the JSON form of each of its details is an object or missing, and the
  -- platform reads back the JSON value and base 64 texts that it has written.
  pub create_end_stream_serialization_lem :
      (end : EndStreamResponse) (bytes : Bytes)
      → coding.parse (coding.stringify (end_stream_to_json coding debug_of end.metadata end.error))
        ≡ ok (end_stream_to_json coding debug_of end.metadata end.error)
      → IsPlain debug_of end.error
      → (create_end_stream_serialization coding debug_of).serialize end ≡ ok bytes
      → (create_end_stream_serialization coding debug_of).parse bytes ≡ ok (seen_end end)
  unfolding create_end_stream_serialization end_stream_from_json
  create_end_stream_serialization_lem end bytes json plain h = ap or_failed (
      ap (λ b. end_of_json coding (coding.parse b)) (sym (ok_injective _ bytes h))
      ∙ ap (end_of_json coding) json
      ∙ json_back end.metadata end.error plain)
