-- ===== src/Triple/ErrorJson/RoundTrip.antt =====
-- An error that errorToJson of error-json.ts writes, read by errorFromJson.
use node_dubbo.Prelude.{
  ◌≡◌, refl, ap, ap₂, ◌∙◌, Bool, true, false, String, List, [], ◌∷◌, Option, none, some, map, all,
  str_eq, eq_iff, if◌then◌else◌, arith,
}
use node_dubbo.ByteArray.{Bytes}
use node_dubbo.Headers.{Headers}
use node_dubbo.Error.{
  Code, code_number, code_of_number, is_member, Detail, outgoing, incoming, DubboError, new_error,
  ok, thrown, dubbo,
}
use node_dubbo.Triple.Json.{
  Json, Fields, null, boolean, natural, number, text, array, object, no_fields, field, lookup,
  is_object, JsonCoding,
}
use node_dubbo.Triple.ErrorJson.{
  with_metadata, is_debug, as_text, decoded_detail, detail_of_fields, detail_from_json, cons_detail,
  details_from_json, details_in, message_in, code_in, error_of_parts, error_from_object,
  error_from_json, debug_field, detail_to_json, details_to_json, message_field, details_field,
  error_to_json, error_from_json_bytes, error_to_json_bytes, error_from_parsed,
}

-- A detail as the other side has it.
unfoldable pub received : Detail → Detail
received (outgoing type value) = incoming type value
received (incoming type value) = incoming type value

-- What the other side takes for the form of a detail that people read: none, or what typeof calls
-- an object.
unfoldable pub is_form : Option Json → Bool
is_form none = true
is_form (some null) = true
is_form (some (boolean b)) = false
is_form (some (natural n)) = false
is_form (some (number s)) = false
is_form (some (text s)) = false
is_form (some (array xs)) = true
is_form (some (object members)) = true

abbrev pub is_readable : (Detail → Option Json) → Detail → Bool
is_readable debug_of d = is_form (debug_of d)

is_debug-is_form : (o : Option Json) → is_debug o ≡ is_form o
unfolding is_debug is_form is_object
is_debug-is_form none = refl
is_debug-is_form (some null) = refl
is_debug-is_form (some (boolean b)) = refl
is_debug-is_form (some (natural n)) = refl
is_debug-is_form (some (number s)) = refl
is_debug-is_form (some (text s)) = refl
is_debug-is_form (some (array xs)) = refl
is_debug-is_form (some (object members)) = refl

code_back : (c : Code) → is_member c ≡ true → code_in (some (natural (code_number c))) ≡ some c
unfolding code_in code_number code_of_number
code_back Code.canceled h = refl
code_back Code.unknown h = refl
code_back Code.invalid_argument h = refl
code_back Code.deadline_exceeded h = refl
code_back Code.not_found h = refl
code_back Code.already_exists h = refl
code_back Code.permission_denied h = refl
code_back Code.resource_exhausted h = refl
code_back Code.failed_precondition h = refl
code_back Code.aborted h = refl
code_back Code.out_of_range h = refl
code_back Code.unimplemented h = refl
code_back Code.internal h = refl
code_back Code.unavailable h = refl
code_back Code.data_loss h = refl
code_back Code.unauthenticated h = refl
code_back (Code.other n) h = absurd (ground arith)

message_back :
    (message : String) (ds : Fields)
    → lookup "message" ds ≡ none
    → message_in (lookup "message" (message_field message ds)) ≡ some message
unfolding message_in message_field lookup
message_back message ds h = ground (arith, eq_iff message "")

-- The other keys are found behind the message.
behind_message :
    (key message : String) (ds : Fields)
    → str_eq "message" key ≡ false
    → lookup key (message_field message ds) ≡ lookup key ds
unfolding message_field lookup
behind_message key message ds h = ground arith

module _ (coding : JsonCoding) (debug_of : Detail → Option Json)
    (reads : (b : Bytes) → coding.base64_dec (coding.base64_enc b) ≡ ok b) where
  fields_back :
      (type b : String) (debug : Option Json)
      → detail_from_json coding
          (object (field "type" (text type) (debug_field debug (field "value" (text b) no_fields))))
        ≡ (if is_debug debug then decoded_detail type (coding.base64_dec b) else none)
  unfolding detail_from_json detail_of_fields as_text is_debug lookup debug_field
  fields_back type b none = refl
  fields_back type b (some v) = refl

  detail_back :
      (d : Detail)
      → detail_from_json coding (detail_to_json coding debug_of d)
        ≡ (if is_readable debug_of d then some (received d) else none)
  unfolding detail_to_json received decoded_detail
  detail_back (outgoing type value) =
      fields_back type (coding.base64_enc value) (debug_of (outgoing type value))
      ∙ rw (reads value, is_debug-is_form (debug_of (outgoing type value))) refl
  detail_back (incoming type value) =
      fields_back type (coding.base64_enc value) (debug_of (incoming type value))
      ∙ rw (reads value, is_debug-is_form (debug_of (incoming type value))) refl

  details_back :
      (ds : List Detail)
      → details_from_json coding (details_to_json coding debug_of ds)
        ≡ (if all (is_readable debug_of) ds then some (map received ds) else none)
  unfolding details_from_json details_to_json cons_detail
  details_back [] = refl
  details_back (d ∷ ds) = ap₂ cons_detail (detail_back d) (details_back ds) ∙ ground arith

  in_field :
      (ds : List Detail)
      → details_in coding (lookup "details" (details_field coding debug_of ds))
        ≡ (if all (is_readable debug_of) ds then some (map received ds) else none)
  unfolding details_in details_field lookup
  in_field [] = refl
  in_field (d ∷ ds) = details_back (d ∷ ds)

  no_message : (ds : List Detail) → lookup "message" (details_field coding debug_of ds) ≡ none
  unfolding details_field lookup
  no_message [] = refl
  no_message (d ∷ ds) = refl

  pub error_from_json-error_to_json :
      (e fallback : DubboError) (metadata : Headers)
      → is_member e.code ≡ true
      → error_from_json coding (error_to_json coding debug_of e) metadata fallback ≡ (
          if all (is_readable debug_of) e.details
          then ok (new_error e.raw_message e.code metadata (map received e.details))
          else thrown (dubbo (with_metadata metadata fallback)))
  unfolding error_from_json error_to_json error_from_object error_of_parts lookup
  error_from_json-error_to_json e fallback metadata member =
      rw
        (
          code_back e.code member,
          message_back e.raw_message (details_field coding debug_of e.details)
              (no_message e.details),
          behind_message "details" e.raw_message (details_field coding debug_of e.details) refl,
          in_field e.details,
        )
        (ground arith)

  -- errorFromJsonBytes reads what errorToJsonBytes has written as an error with the message, the
  -- code and the details of the first, if the JSON form of each detail, which for a decoded one is
  -- what it carries under "debug", is an object, an array, null or missing, and throws the
  -- fallback otherwise. That is if the code is one of the enumeration, and the JSON text and base
  -- 64 texts are read back.
  pub error_from_json_bytes-error_to_json_bytes :
      (e fallback : DubboError) (metadata : Headers)
      → coding.parse (coding.stringify (error_to_json coding debug_of e))
        ≡ ok (error_to_json coding debug_of e)
      → is_member e.code ≡ true
      → error_from_json_bytes coding (error_to_json_bytes coding debug_of e) metadata fallback ≡ (
          if all (is_readable debug_of) e.details
          then ok (new_error e.raw_message e.code metadata (map received e.details))
          else thrown (dubbo (with_metadata metadata fallback)))
  unfolding error_from_json_bytes error_to_json_bytes error_from_parsed
  error_from_json_bytes-error_to_json_bytes e fallback metadata json member =
      ap (λ o. error_from_parsed coding o metadata fallback) json
      ∙ error_from_json-error_to_json e fallback metadata member
