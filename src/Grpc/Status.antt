-- ===== src/Grpc/Status.antt =====
-- packages/dubbo/src/protocol-grpc/trailer-status.ts, with validate-trailer.ts: the status of a
-- call in a trailer. `google.rpc.Status` is a message of @bufbuild/protobuf, written to a header
-- and read from it by http-headers.ts; the coding of URI components is the platform's. Both are
-- parameters.
pub mod TypeUrl
pub mod RoundTrip
use node_dubbo.Prelude.{
  ℕ, Bool, true, false, String, List, [], ◌∷◌, Option, none, some, map, ◌==◌, str_eq, ◌+++◌,
  decimal, if◌then◌else◌, Integer, parse_int,
}
use node_dubbo.Headers.{Headers, get, set}
use node_dubbo.Error.{
  Code, code_number, code_of_number, is_member, Detail, outgoing, incoming, DubboError, new_error,
  Outcome, ok, thrown, dubbo, ◌>>=◌, ◌>>◌,
}
use TypeUrl.{type_of_url}

abbrev pub header_grpc_status : String
header_grpc_status = "Grpc-Status"

abbrev pub header_grpc_message : String
header_grpc_message = "Grpc-Message"

abbrev pub header_status_details_bin : String
header_status_details_bin = "Grpc-Status-Details-Bin"

abbrev pub grpc_status_ok : String
grpc_status_ok = "0"

-- `google.protobuf.Any` and `google.rpc.Status`.
pub record AnyMessage : Type 0 where
  pub type_url : String
  pub value : List ℕ

pub record Status : Type 0 where
  pub code : Code
  pub message : String
  pub details : List AnyMessage

-- `encodeURIComponent`, `decodeURIComponent`, and encodeBinaryHeader and decodeBinaryHeader for a
-- Status.
pub record TextCoding : Type 0 where
  pub encode_component : String → Outcome String
  pub decode_component : String → Outcome String
  pub encode_status : Status → Outcome String
  pub decode_status : String → Outcome Status

-- `Any.pack(value)` of a message, and the Any made from a decoded detail.
unfoldable pub any_of : Detail → AnyMessage
any_of (outgoing type_name bytes) = record {
  type_url = "type.googleapis.com/" +++ type_name;
  value = bytes;
}
any_of (incoming type bytes) = record { type_url = "type.googleapis.com/" +++ type; value = bytes }

unfoldable pub detail_of : AnyMessage → Detail
detail_of any = incoming (type_of_url any.type_url) any.value

unfoldable pub status_of : DubboError → Status
unfolding any_of
status_of e = record { code = e.code; message = e.raw_message; details = map any_of e.details }

unfoldable pub error_of_status : Headers → Status → Option DubboError
unfolding detail_of
error_of_status trailer status =
    if code_number status.code == 0
    then none
    else some (new_error status.message status.code trailer (map detail_of status.details))

abbrev or_empty : Option String → String
or_empty none = ""
or_empty (some text) = text

-- `code in Code` of what parseInt has read.
unfoldable pub member_of : Integer → Option Code
member_of Integer.not_a_number = none
member_of Integer.below_zero = none
member_of (Integer.natural n) =
    if is_member (code_of_number n) then some (code_of_number n) else none

abbrev pub throw_found : Option DubboError → Outcome (Unit {0})
throw_found none = ok tt
throw_found (some e) = thrown (dubbo e)

module _ (coding : TextCoding) where
  unfoldable pub set_details : Headers → DubboError → List Detail → Outcome Headers
  unfolding status_of
  set_details target e [] = ok target
  set_details target e (d ∷ ds) = do
    text ← coding.encode_status (status_of e)
    ok (set header_status_details_bin text target)

  unfoldable pub set_trailer_status : Headers → Option DubboError → Outcome Headers
  unfolding set_details
  set_trailer_status target none = ok (set header_grpc_status grpc_status_ok target)
  set_trailer_status target (some e) = do
    message ← coding.encode_component e.raw_message
    set_details
        (set header_grpc_message message
          (set header_grpc_status (decimal (code_number e.code)) target))
        e e.details

  unfoldable pub error_of_code : Headers → String → Option Code → Outcome (Option DubboError)
  error_of_code trailer grpc_status none =
      ok (some (new_error ("invalid grpc-status: " +++ grpc_status) Code.internal trailer []))
  error_of_code trailer grpc_status (some code) = do
    message ← coding.decode_component (or_empty (get header_grpc_message trailer))
    ok (some (new_error message code trailer []))

  unfoldable pub error_of_text : Headers → Option String → Outcome (Option DubboError)
  unfolding error_of_code member_of
  error_of_text trailer none = ok none
  error_of_text trailer (some grpc_status) =
      if str_eq grpc_status grpc_status_ok
      then ok none
      else error_of_code trailer grpc_status (member_of (parse_int grpc_status))

  unfoldable pub error_in : Headers → Option String → Outcome (Option DubboError)
  unfolding error_of_text error_of_status
  error_in trailer none = error_of_text trailer (get header_grpc_status trailer)
  error_in trailer (some status_bytes) = do
    status ← coding.decode_status status_bytes
    ok (error_of_status trailer status)

  unfoldable pub find_trailer_error : Headers → Outcome (Option DubboError)
  unfolding error_in
  find_trailer_error trailer = error_in trailer (get header_status_details_bin trailer)

  -- validateTrailer.
  unfoldable pub validate_trailer : Headers → Outcome (Unit {0})
  unfolding find_trailer_error
  validate_trailer trailer = find_trailer_error trailer >>= throw_found
