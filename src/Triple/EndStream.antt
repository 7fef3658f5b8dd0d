-- ===== src/Triple/EndStream.antt =====
-- packages/dubbo/src/protocol-triple/end-stream.ts, with appendHeaders of http-headers.ts: the
-- EndStreamResponse as a JSON object.
pub mod RoundTrip
use node_dubbo.Prelude.{
  Bool, true, false, String, List, [], ◌∷◌, Option, none, some, if◌then◌else◌, ◌+++◌,
}
use node_dubbo.ByteArray.{Bytes}
use node_dubbo.Headers.{Headers, append, append_all}
use node_dubbo.Error.{
  Code, Detail, DubboError, Reason, dubbo, native, other, out_of_fuel, error, Outcome, ok, thrown,
  raise, ◌>>=◌,
}
use node_dubbo.Iterable.{Serialization}
use node_dubbo.Triple.Json.{
  Json, Elements, Fields, null, boolean, natural, number, text, array, object, no_elements, element,
  no_fields, field, lookup, JsonCoding,
}
use node_dubbo.Triple.ErrorJson.{error_from_json, error_to_json}
use node_dubbo.Triple.StreamHandler.{EndStreamResponse}

-- `appendHeaders(a, b)`.
unfoldable pub append_headers : Headers → Headers → Headers
append_headers a b = append_all b (append_all a [])

-- `md[key] = [value]` for each entry.
unfoldable pub metadata_to_json : Headers → Fields
metadata_to_json [] = no_fields
metadata_to_json ((key, value) ∷ metadata) =
    field key (array (element (text value) no_elements)) (metadata_to_json metadata)

unfoldable pub metadata_field : Headers → Fields
unfolding metadata_to_json
metadata_field [] = no_fields
metadata_field (entry ∷ metadata) =
    field "metadata" (object (metadata_to_json (entry ∷ metadata))) no_fields

-- `metadata.append(key, value)` for each value, `none` where one is no text.
unfoldable pub append_values : String → Elements → Headers → Option Headers
append_values key no_elements h = some h
append_values key (element (text value) values) h = append_values key values (append key value h)
append_values key (element null values) h = none
append_values key (element (boolean b) values) h = none
append_values key (element (natural n) values) h = none
append_values key (element (number s) values) h = none
append_values key (element (array xs) values) h = none
append_values key (element (object members) values) h = none

unfoldable pub then_append : Option Headers → (Headers → Option Headers) → Option Headers
then_append none k = none
then_append (some h) k = k h

unfoldable pub append_entries : Fields → Headers → Option Headers
unfolding append_values then_append
append_entries no_fields h = some h
append_entries (field key (array values) members) h =
    then_append (append_values key values h) (append_entries members)
append_entries (field key null members) h = none
append_entries (field key (boolean b) members) h = none
append_entries (field key (natural n) members) h = none
append_entries (field key (number s) members) h = none
append_entries (field key (text s) members) h = none
append_entries (field key (object values) members) h = none

unfoldable pub metadata_in : Option Json → Option Headers
unfolding append_entries
metadata_in none = some []
metadata_in (some (object members)) = append_entries members []
metadata_in (some null) = none
metadata_in (some (boolean b)) = none
metadata_in (some (natural n)) = none
metadata_in (some (number s)) = none
metadata_in (some (text s)) = none
metadata_in (some (array xs)) = none

abbrev pub invalid_end : DubboError
invalid_end = error "invalid end stream" Code.invalid_argument

abbrev pub message_of : Reason → String
message_of (dubbo e) = e.message
message_of (native name message) = message
message_of (other reason) = reason
message_of out_of_fuel = ""

abbrev pub or_failed : Outcome EndStreamResponse → Outcome EndStreamResponse
or_failed (ok end) = ok end
or_failed (thrown e) =
    raise ("failed to parse EndStreamResponse: " +++ message_of e) Code.invalid_argument

module _ (coding : JsonCoding) where
  unfoldable pub error_in : Option Json → Headers → Outcome (Option DubboError)
  error_in none metadata = ok none
  error_in (some v) metadata = error_from_json coding v metadata invalid_end >>= (λ e. ok (some e))

  unfoldable pub end_of_members : Fields → Option Headers → Outcome EndStreamResponse
  unfolding error_in
  end_of_members members none = thrown (dubbo invalid_end)
  end_of_members members (some metadata) = do
    error ← error_in (lookup "error" members) metadata
    ok (record { metadata = metadata; error = error })

  unfoldable pub end_of_json : Outcome Json → Outcome EndStreamResponse
  unfolding end_of_members metadata_in
  end_of_json (ok (object members)) =
      end_of_members members (metadata_in (lookup "metadata" members))
  end_of_json (thrown e) = thrown (dubbo invalid_end)
  end_of_json (ok null) = thrown (dubbo invalid_end)
  end_of_json (ok (boolean b)) = thrown (dubbo invalid_end)
  end_of_json (ok (natural n)) = thrown (dubbo invalid_end)
  end_of_json (ok (number s)) = thrown (dubbo invalid_end)
  end_of_json (ok (text s)) = thrown (dubbo invalid_end)
  end_of_json (ok (array xs)) = thrown (dubbo invalid_end)

  unfoldable pub end_stream_from_json : Bytes → Outcome EndStreamResponse
  unfolding end_of_json
  end_stream_from_json bytes = end_of_json (coding.parse bytes)

  module _ (debug_of : Detail → Option Json) where
    unfoldable pub end_stream_to_json : Headers → Option DubboError → Json
    unfolding metadata_field append_headers
    end_stream_to_json metadata none = object (metadata_field metadata)
    end_stream_to_json metadata (some e) = object (
        field "error" (error_to_json coding debug_of e)
          (metadata_field (append_headers metadata e.metadata)))

    unfoldable pub create_end_stream_serialization : Serialization EndStreamResponse
    unfolding end_stream_from_json end_stream_to_json
    create_end_stream_serialization = record {
      serialize = λ end. ok (coding.stringify (end_stream_to_json end.metadata end.error));
      parse = λ bytes. or_failed (end_stream_from_json bytes);
    }
