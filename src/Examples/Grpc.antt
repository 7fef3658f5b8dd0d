-- ===== src/Examples/Grpc.antt =====
-- The theorems about the gRPC protocol, at concrete calls.
use node_dubbo.Prelude.{
  ℕ, ◌*◌, ◌<◌, ◌≤◌, ◌≡◌, ◌↔◌, refl, ap, sym, true, false, String, List, [], ◌∷◌, none, some, arith,
  str_eq, eq_iff, if◌then◌else◌, decimal, map, All, lower, lower_char,
}
use node_dubbo.Headers.{Headers, get, set}
use node_dubbo.Error.{
  Code, outgoing, DubboError, new_error, Outcome, ok, thrown, Reason, dubbo, ok_injective, ◌>>=◌,
  ◌>>◌, code_number,
}
use node_dubbo.Headers.Entry
use node_dubbo.ByteArray.{Bytes, set_uint32, set_at, zeros}
use node_dubbo.Stream.{Stream, finished, raised, yields, values, before}
use node_dubbo.Envelope.{encode_envelope, envelope_compress}
use node_dubbo.Iterable.{
  Serialization, map_or_raise, serialize_item, transform_serialize_envelope,
  transform_catch_finally, transform_compress_envelope, transform_join_envelopes,
}
use node_dubbo.Iterable.Cut.{written}
use node_dubbo.Iterable.Split.Chunks.{joined}
use node_dubbo.Pipeline.{ReadsBack}
use node_dubbo.Grpc.Handler.{respond, write_messages, settle, settled}
use node_dubbo.Grpc.Client.{read_messages, then_validate, validated, one_message, required}
use node_dubbo.Grpc.Client.Delivery.{write_message, MessageFits}
use node_dubbo.Triple.StreamHandler.{reported}
use node_dubbo.Grpc.Client.Verdict.{
  verdict, HasCode, unary_result, then_validate-respond, one_message-respond,
}
use node_dubbo.Grpc.Status.{
  validate_trailer, throw_found, TextCoding, AnyMessage, set_trailer_status, find_trailer_error,
  header_status_details_bin, header_grpc_status,
}
use node_dubbo.Grpc.Status.RoundTrip.{ReadsText, received, find_trailer_error-set_trailer_status}
use node_dubbo.Grpc.Timeout.{parse_timeout}
use node_dubbo.Grpc.Timeout.RoundTrip.{parse_timeout-request_header}
use node_dubbo.Grpc.Request.{header_timeout, request_header}

abbrev pub refused : Reason
refused = Reason.other "not a status of the example"

-- A coding of texts as they are, and of the internal errors with no message and one detail without
-- bytes.
abbrev pub any_text : String → List ℕ → Outcome String
any_text url [] = ok url
any_text url (b ∷ bs) = thrown refused

abbrev pub details_text : Code → List AnyMessage → Outcome String
details_text Code.internal (a ∷ []) = any_text a.type_url a.value
details_text _ _ = thrown refused

abbrev pub sample : TextCoding
sample = record {
  encode_component = λ text. ok text;
  decode_component = λ text. ok text;
  encode_status =
      λ s. if str_eq s.message "" then details_text s.code s.details else thrown refused;
  decode_status = λ text. ok (record {
    code = Code.internal;
    message = "";
    details = record { type_url = text; value = [] } ∷ [];
  });
}

any_text-ok :
    (url : String) (value : List ℕ) (e : String)
    → any_text url value ≡ ok e
    → (url ≡ e) × (value ≡ [])
any_text-ok url [] e h = (ok_injective url e h, refl)
any_text-ok url (b ∷ bs) e h = cc

details_text-ok :
    (code : Code) (ds : List AnyMessage) (e : String)
    → details_text code ds ≡ ok e
    → (code ≡ Code.internal) × (ds ≡ (record { type_url = e; value = [] } ∷ []))
details_text-ok Code.internal (a ∷ []) e h = ground (arith, any_text-ok a.type_url a.value e)
details_text-ok code ds e h = ground arith

sample-ReadsText : ReadsText sample
sample-ReadsText = record {
  component = λ text encoded h. ap ok (sym (ok_injective _ _ h));
  status =
      λ s encoded h. ground (arith, details_text-ok s.code s.details encoded, eq_iff s.message "");
}

abbrev broken : DubboError
broken = new_error "" Code.internal [] (outgoing "demo.Reason" [] ∷ [])

abbrev fresh_trailer : Headers
fresh_trailer = ("grpc-status", "0") ∷ []

abbrev broken_trailer : Headers
broken_trailer =
    ("grpc-status", "13")
    ∷ ("grpc-message", "")
    ∷ ("grpc-status-details-bin", "type.googleapis.com/demo.Reason")
    ∷ []

set_broken : set_trailer_status sample fresh_trailer (some broken) ≡ ok broken_trailer
unfolding set_trailer_status new_error set Entry.set lower lower_char decimal code_number
set_broken = refl

no_details : get header_status_details_bin fresh_trailer ≡ none
unfolding get Entry.get lower lower_char
no_details = refl

status_zero : get header_grpc_status fresh_trailer ≡ some "0"
unfolding get Entry.get lower lower_char
status_zero = refl

trailer_example :
    find_trailer_error sample broken_trailer
    ≡ ok (
        some
          (new_error broken.raw_message broken.code broken_trailer (map received broken.details)))
unfolding new_error
trailer_example =
    find_trailer_error-set_trailer_status sample sample-ReadsText fresh_trailer broken_trailer
      broken refl no_details set_broken

grpc_timeout_example :
    (parse_timeout decimal (get header_timeout (request_header true (some 1500) [])) 60000
      ≡ record { timeout_ns = some (1000000 * 1500); error = none })
    ↔ ((1500 < 100000000) × (1500 ≤ 60000))
grpc_timeout_example = parse_timeout-request_header decimal true 1500 60000 []

abbrev pub raw : Serialization Bytes
raw = record { serialize = λ b. ok b; parse = λ b. ok b }

pub raw-ReadsBack : ReadsBack raw
raw-ReadsBack value bytes h = ground arith

abbrev one_and_broken : Stream Bytes
one_and_broken = yields (1 ∷ 2 ∷ []) (raised (dubbo broken))

abbrev cut_body : List Bytes
cut_body = (0 ∷ 0 ∷ 0 ∷ []) ∷ (0 ∷ 2 ∷ 1 ∷ []) ∷ (2 ∷ []) ∷ []

broken_items :
    All (MessageFits raw none 0 100) (written (write_message raw none 0 100) one_and_broken).0
unfolding serialize_item envelope_compress
broken_items = ((λ bytes h. ground arith, λ env h. ground arith), tt)

broken_code : HasCode (written (write_message raw none 0 100) one_and_broken).1
unfolding serialize_item envelope_compress new_error reported
broken_code = refl

broken_final : (respond raw none 0 sample fresh_trailer one_and_broken).1 ≡ ok broken_trailer
unfolding respond serialize_item envelope_compress write_messages settle map_or_raise
    transform_serialize_envelope transform_compress_envelope transform_join_envelopes
    encode_envelope set_uint32 set_at zeros reported set_trailer_status new_error set Entry.set
    lower lower_char decimal code_number
broken_final = refl

broken_bytes :
    joined cut_body ≡ joined (values (respond raw none 0 sample fresh_trailer one_and_broken).0)
unfolding respond serialize_item envelope_compress write_messages settled map_or_raise
    transform_serialize_envelope transform_compress_envelope transform_join_envelopes
    transform_catch_finally encode_envelope set_uint32 set_at zeros settle reported
    set_trailer_status new_error set Entry.set lower lower_char decimal code_number
broken_bytes = refl

grpc_stream_example :
    then_validate false
      (validate_trailer sample broken_trailer)
      (read_messages raw none 100 (before cut_body finished))
    ≡ before (written (write_message raw none 0 100) one_and_broken).0 (
        validated (
          throw_found
            (verdict broken_trailer (written (write_message raw none 0 100) one_and_broken).1)))
grpc_stream_example =
    then_validate-respond sample sample-ReadsText fresh_trailer (no_details, status_zero) raw none 0
      100 one_and_broken broken_trailer cut_body raw-ReadsBack tt (omega arith) broken_items
      broken_code broken_final broken_bytes

grpc_unary_example :
    (do
      message ← one_message none (read_messages raw none 100 (before cut_body finished))
      validate_trailer sample broken_trailer
      required message)
    ≡ unary_result
        (written (write_message raw none 0 100) one_and_broken).0
        (verdict broken_trailer (written (write_message raw none 0 100) one_and_broken).1)
grpc_unary_example =
    one_message-respond sample sample-ReadsText fresh_trailer (no_details, status_zero) raw none 0
      100 one_and_broken broken_trailer cut_body raw-ReadsBack tt (omega arith) broken_items
      broken_code broken_final broken_bytes
