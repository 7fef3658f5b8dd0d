-- ===== src/Grpc/Status/RoundTrip.antt =====
-- What findTrailerError of trailer-status.ts finds behind setTrailerStatus.
use node_dubbo.Prelude.{
  ◌≡◌, refl, subst, lower, ap, ap₂, ◌∙◌, true, false, String, List, [], ◌∷◌, none, some, map, arith,
  ◌==◌, str_eq, decimal, parse_int,
}
use node_dubbo.Headers.{Headers, get, set, get-set, get-set_self}
use node_dubbo.Error.{
  Code, code_number, code_of_number, is_member, Detail, outgoing, incoming, DubboError, new_error,
  ok, >>=-eq-ok, ok_injective,
}
use node_dubbo.Grpc.Status.{
  TextCoding, Status, header_grpc_status, header_grpc_message, header_status_details_bin, any_of,
  detail_of, status_of, set_details, set_trailer_status, error_of_status, member_of, error_of_code,
  error_of_text, error_in, find_trailer_error,
}
use node_dubbo.Grpc.Status.TypeUrl.{type_of_url, type_of_url-prefix}

-- A detail as the other side has it: bytes under the type that its URL names.
unfoldable pub received : Detail → Detail
received (outgoing type_name bytes) = incoming (type_of_url type_name) bytes
received (incoming type bytes) = incoming (type_of_url type) bytes

-- What is written is read back.
pub record ReadsText (coding : TextCoding) : Type 0 where
  pub component :
      (text encoded : String)
      → coding.encode_component text ≡ ok encoded
      → coding.decode_component encoded ≡ ok text
  pub status :
      (s : Status) (encoded : String)
      → coding.encode_status s ≡ ok encoded
      → coding.decode_status encoded ≡ ok s

detail_of-any_of : (d : Detail) → detail_of (any_of d) ≡ received d
unfolding detail_of any_of received
detail_of-any_of (outgoing type_name bytes) =
    ap (λ t. incoming t bytes) (type_of_url-prefix type_name)
detail_of-any_of (incoming type bytes) = ap (λ t. incoming t bytes) (type_of_url-prefix type)

details_back : (ds : List Detail) → map detail_of (map any_of ds) ≡ map received ds
details_back [] = refl
details_back (d ∷ ds) = ap₂ ◌∷◌ (detail_of-any_of d) (details_back ds)

-- The number of a member is written and read in decimal, and is not that of success.
code_text :
    (c : Code)
    → is_member c ≡ true
    → (str_eq (decimal (code_number c)) "0" ≡ false)
      × (member_of (parse_int (decimal (code_number c))) ≡ some c)
      × ((code_number c == 0) ≡ false)
unfolding code_number code_of_number member_of parse_int decimal
code_text Code.canceled h = (refl, refl, refl)
code_text Code.unknown h = (refl, refl, refl)
code_text Code.invalid_argument h = (refl, refl, refl)
code_text Code.deadline_exceeded h = (refl, refl, refl)
code_text Code.not_found h = (refl, refl, refl)
code_text Code.already_exists h = (refl, refl, refl)
code_text Code.permission_denied h = (refl, refl, refl)
code_text Code.resource_exhausted h = (refl, refl, refl)
code_text Code.failed_precondition h = (refl, refl, refl)
code_text Code.aborted h = (refl, refl, refl)
code_text Code.out_of_range h = (refl, refl, refl)
code_text Code.unimplemented h = (refl, refl, refl)
code_text Code.internal h = (refl, refl, refl)
code_text Code.unavailable h = (refl, refl, refl)
code_text Code.data_loss h = (refl, refl, refl)
code_text Code.unauthenticated h = (refl, refl, refl)
code_text (Code.other n) h = absurd (ground arith)

module _ (coding : TextCoding) (reads : ReadsText coding) where
  -- The header with the details decides if it is there.
  in_details :
      (trailer : Headers) (e : DubboError) (text : String)
      → is_member e.code ≡ true
      → coding.encode_status (status_of e) ≡ ok text
      → get header_status_details_bin trailer ≡ some text
      → find_trailer_error coding trailer
        ≡ ok (some (new_error e.raw_message e.code trailer (map received e.details)))
  unfolding find_trailer_error error_in error_of_status status_of
  in_details trailer e text member h there =
      let (_, _, positive) = code_text e.code member in
      rw (there, reads.status (status_of e) text h, positive, details_back e.details) refl

  in_headers :
      (trailer : Headers) (e : DubboError) (message : String)
      → is_member e.code ≡ true
      → coding.encode_component e.raw_message ≡ ok message
      → get header_status_details_bin trailer ≡ none
      → get header_grpc_status trailer ≡ some (decimal (code_number e.code))
      → get header_grpc_message trailer ≡ some message
      → find_trailer_error coding trailer ≡ ok (some (new_error e.raw_message e.code trailer []))
  unfolding find_trailer_error error_in error_of_text error_of_code
  in_headers trailer e message member h absent status there =
      let (positive, known, _) = code_text e.code member in
      rw (absent, status, positive, known, there, reads.component e.raw_message message h) refl

  -- The headers that a trailer has for an error, before its details.
  status_headers : Headers → DubboError → String → Headers
  status_headers target e message =
      set header_grpc_message message (set header_grpc_status (decimal (code_number e.code)) target)

  in_status_headers :
      (target : Headers) (e : DubboError) (message : String)
      → is_member e.code ≡ true
      → get header_status_details_bin target ≡ none
      → coding.encode_component e.raw_message ≡ ok message
      → find_trailer_error coding (status_headers target e message)
        ≡ ok (some (new_error e.raw_message e.code (status_headers target e message) []))
  unfolding status_headers lower
  in_status_headers target e message member absent h =
      in_headers (status_headers target e message) e message member h
        (get-set header_grpc_message header_status_details_bin message with_status
          ∙ get-set header_grpc_status header_status_details_bin number target
          ∙ absent)
        (get-set header_grpc_message header_grpc_status message with_status
          ∙ get-set_self header_grpc_status number target)
        (get-set_self header_grpc_message message with_status)
    where
      number : String
      number = decimal (code_number e.code)

      with_status : Headers
      with_status = set header_grpc_status number target

  by_details :
      (target trailer : Headers) (e : DubboError) (message : String) (ds : List Detail)
      → is_member e.code ≡ true
      → e.details ≡ ds
      → get header_status_details_bin target ≡ none
      → coding.encode_component e.raw_message ≡ ok message
      → set_details coding (status_headers target e message) e ds ≡ ok trailer
      → find_trailer_error coding trailer
        ≡ ok (some (new_error e.raw_message e.code trailer (map received e.details)))
  unfolding set_details status_headers
  by_details target trailer e message [] member ed absent hm h =
      subst
        (λ t.
          find_trailer_error coding t
          ≡ ok (some (new_error e.raw_message e.code t (map received e.details))))
        (ok_injective _ trailer h) (rw ed (in_status_headers target e message member absent hm))
  by_details target trailer e message (d ∷ ds) member ed absent hm h =
      let (text, encoded, same) = >>=-eq-ok (coding.encode_status (status_of e)) _ h in
      in_details trailer e text member encoded (
        subst (λ t. get header_status_details_bin t ≡ some text) (ok_injective _ trailer same)
          (get-set_self header_status_details_bin text (status_headers target e message)))

  -- findTrailerError finds in a trailer the error that setTrailerStatus has set there: its
  -- message, its code and its details, each detail under the type that its URL names. That is if
  -- the code is one of the enumeration, the trailer had no details before, setting them does not
  -- throw, and the codings of URI components and of google.rpc.Status read back what they write.
  pub find_trailer_error-set_trailer_status :
      (target trailer : Headers) (e : DubboError)
      → is_member e.code ≡ true
      → get header_status_details_bin target ≡ none
      → set_trailer_status coding target (some e) ≡ ok trailer
      → find_trailer_error coding trailer
        ≡ ok (some (new_error e.raw_message e.code trailer (map received e.details)))
  unfolding set_trailer_status status_headers
  find_trailer_error-set_trailer_status target trailer e member absent h =
      let (message, encoded, run) = >>=-eq-ok (coding.encode_component e.raw_message) _ h in
      by_details target trailer e message e.details member refl absent encoded run
