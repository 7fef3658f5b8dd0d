-- ===== src/Triple/ErrorJson.antt =====
-- packages/dubbo/src/protocol-triple/error-json.ts: an error as a JSON object. `debug_of` is the
-- JSON form of a detail for people to read, if there is one: of a message what `toJson` of
-- @bufbuild/protobuf gives (its errors are passed over), of a decoded detail what it carries under
-- `debug`. A key whose value is undefined is left out, as JSON.stringify does with the object that
-- errorToJson returns.
pub mod RoundTrip
use node_dubbo.Prelude.{
  ℕ, Bool, true, false, not, ◌&&◌, String, List, [], ◌∷◌, Option, none, some, map, str_eq,
  if◌then◌else◌, ◌++◌,
}
use node_dubbo.ByteArray.{Bytes}
use node_dubbo.Headers.{Headers, append_all}
use node_dubbo.Error.{
  Code, code_number, code_of_number, is_member, Detail, outgoing, incoming, DubboError, new_error,
  Outcome, ok, thrown, dubbo, ◌>>=◌,
}
use node_dubbo.Triple.Json.{
  Json, Elements, Fields, null, boolean, natural, number, text, array, object, no_elements, element,
  no_fields, field, lookup, is_object, JsonCoding,
}

-- `fallback.metadata.append(key, value)` for each entry.
unfoldable pub with_metadata : Headers → DubboError → DubboError
with_metadata metadata e = record e { metadata = append_all metadata e.metadata }

unfoldable pub is_debug : Option Json → Bool
is_debug none = true
is_debug (some v) = is_object v

-- A text, or what else there is.
unfoldable pub as_text : Option Json → Option String
as_text none = none
as_text (some null) = none
as_text (some (boolean b)) = none
as_text (some (natural n)) = none
as_text (some (number s)) = none
as_text (some (text s)) = some s
as_text (some (array xs)) = none
as_text (some (object members)) = none

unfoldable pub decoded_detail : String → Outcome Bytes → Option Detail
decoded_detail type (thrown e) = none
decoded_detail type (ok value) = some (incoming type value)

unfoldable pub cons_detail : Option Detail → Option (List Detail) → Option (List Detail)
cons_detail none rest = none
cons_detail (some d) none = none
cons_detail (some d) (some ds) = some (d ∷ ds)

unfoldable pub message_in : Option Json → Option String
message_in none = some ""
message_in (some null) = some ""
message_in (some (text s)) = some s
message_in (some (boolean b)) = none
message_in (some (natural n)) = none
message_in (some (number s)) = none
message_in (some (array xs)) = none
message_in (some (object members)) = none

unfoldable pub code_in : Option Json → Option Code
code_in (some (natural n)) = if is_member (code_of_number n) then some (code_of_number n) else none
code_in none = none
code_in (some null) = none
code_in (some (boolean b)) = none
code_in (some (number s)) = none
code_in (some (text s)) = none
code_in (some (array xs)) = none
code_in (some (object members)) = none

unfoldable pub error_of_parts :
    Headers → DubboError → Option Code → Option String → Option (List Detail) → Outcome DubboError
error_of_parts metadata fallback none message details = thrown (dubbo fallback)
error_of_parts metadata fallback (some code) none details = thrown (dubbo fallback)
error_of_parts metadata fallback (some code) (some message) none = thrown (dubbo fallback)
error_of_parts metadata fallback (some code) (some message) (some details) =
    ok (new_error message code metadata details)

unfoldable pub message_field : String → Fields → Fields
message_field message fields =
    if str_eq message "" then fields else field "message" (text message) fields

unfoldable pub debug_field : Option Json → Fields → Fields
debug_field none fields = fields
debug_field (some v) fields = field "debug" v fields

module _ (coding : JsonCoding) where
  unfoldable pub detail_of_fields : Option String → Option String → Bool → Option Detail
  unfolding decoded_detail
  detail_of_fields none value debug = none
  detail_of_fields (some type) none debug = none
  detail_of_fields (some type) (some value) debug =
      if debug then decoded_detail type (coding.base64_dec value) else none

  -- One detail, `none` where the fallback is thrown.
  unfoldable pub detail_from_json : Json → Option Detail
  unfolding detail_of_fields as_text is_debug
  detail_from_json (object members) =
      detail_of_fields (as_text (lookup "type" members)) (as_text (lookup "value" members))
        (is_debug (lookup "debug" members))
  detail_from_json null = none
  detail_from_json (boolean b) = none
  detail_from_json (natural n) = none
  detail_from_json (number s) = none
  detail_from_json (text s) = none
  detail_from_json (array xs) = none

  unfoldable pub details_from_json : Elements → Option (List Detail)
  unfolding detail_from_json cons_detail
  details_from_json no_elements = some []
  details_from_json (element v vs) = cons_detail (detail_from_json v) (details_from_json vs)

  -- Anything that is not an array is passed over.
  unfoldable pub details_in : Option Json → Option (List Detail)
  unfolding details_from_json
  details_in (some (array vs)) = details_from_json vs
  details_in (some null) = some []
  details_in (some (boolean b)) = some []
  details_in (some (natural n)) = some []
  details_in (some (number s)) = some []
  details_in (some (text s)) = some []
  details_in (some (object members)) = some []
  details_in none = some []

  unfoldable pub error_from_object : Fields → Headers → DubboError → Outcome DubboError
  unfolding error_of_parts code_in message_in details_in
  error_from_object members metadata fallback =
      error_of_parts metadata fallback (code_in (lookup "status" members))
        (message_in (lookup "message" members)) (details_in (lookup "details" members))

  unfoldable pub error_from_json : Json → Headers → DubboError → Outcome DubboError
  unfolding error_from_object with_metadata
  error_from_json (object members) metadata fallback =
      error_from_object members metadata (with_metadata metadata fallback)
  error_from_json null metadata fallback = thrown (dubbo (with_metadata metadata fallback))
  error_from_json (boolean b) metadata fallback = thrown (dubbo (with_metadata metadata fallback))
  error_from_json (natural n) metadata fallback = thrown (dubbo (with_metadata metadata fallback))
  error_from_json (number s) metadata fallback = thrown (dubbo (with_metadata metadata fallback))
  error_from_json (text s) metadata fallback = thrown (dubbo (with_metadata metadata fallback))
  error_from_json (array xs) metadata fallback = thrown (dubbo (with_metadata metadata fallback))

  unfoldable pub error_from_parsed : Outcome Json → Headers → DubboError → Outcome DubboError
  unfolding error_from_json
  error_from_parsed (thrown e) metadata fallback = thrown (dubbo fallback)
  error_from_parsed (ok json) metadata fallback = error_from_json json metadata fallback

  unfoldable pub error_from_json_bytes : Bytes → Headers → DubboError → Outcome DubboError
  unfolding error_from_parsed
  error_from_json_bytes bytes = error_from_parsed (coding.parse bytes)

  module _ (debug_of : Detail → Option Json) where
    unfoldable pub detail_to_json : Detail → Json
    unfolding debug_field
    detail_to_json (outgoing type value) = object (
        field "type" (text type) (
          debug_field (debug_of (outgoing type value))
            (field "value" (text (coding.base64_enc value)) no_fields)))
    detail_to_json (incoming type value) = object (
        field "type" (text type) (
          debug_field (debug_of (incoming type value))
            (field "value" (text (coding.base64_enc value)) no_fields)))

    unfoldable pub details_to_json : List Detail → Elements
    unfolding detail_to_json
    details_to_json [] = no_elements
    details_to_json (d ∷ ds) = element (detail_to_json d) (details_to_json ds)

    unfoldable pub details_field : List Detail → Fields
    unfolding details_to_json
    details_field [] = no_fields
    details_field (d ∷ ds) = field "details" (array (details_to_json (d ∷ ds))) no_fields

    unfoldable pub error_to_json : DubboError → Json
    unfolding message_field details_field
    error_to_json e = object (
        field "status" (natural (code_number e.code))
          (message_field e.raw_message (details_field e.details)))

    unfoldable pub error_to_json_bytes : DubboError → Bytes
    unfolding error_to_json
    error_to_json_bytes e = coding.stringify (error_to_json e)
