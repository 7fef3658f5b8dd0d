-- ===== src/Grpc/Client/Verdict.antt =====
-- How a call ends for a gRPC client, by the trailer of the handler.
use node_dubbo.Prelude.{
  ℕ, ◌<◌, ◌≡◌, refl, sym, ap, ap₂, ◌∙◌, true, false, List, [], ◌∷◌, Option, none, some, All, map,
}
use node_dubbo.ByteArray.{Bytes}
use node_dubbo.Headers.{Headers, get}
use node_dubbo.Error.{
  Code, DubboError, new_error, is_member, Reason, dubbo, Outcome, ok, ok_injective, thrown, raise,
  ◌>>=◌, ◌>>◌,
}
use node_dubbo.Stream.{Stream, finished, yields, values, before}
use node_dubbo.Envelope.{Compression}
use node_dubbo.Envelope.Compressing.{IsLossless?}
use node_dubbo.Iterable.{Serialization}
use node_dubbo.Iterable.Cut.{written}
use node_dubbo.Iterable.Split.Chunks.{joined}
use node_dubbo.Pipeline.{ReadsBack}
use node_dubbo.Triple.StreamHandler.{reported}
use node_dubbo.Grpc.Status.{
  TextCoding, header_grpc_status, header_status_details_bin, find_trailer_error, error_in,
  error_of_text, validate_trailer, throw_found,
}
use node_dubbo.Grpc.Status.RoundTrip.{ReadsText, received, find_trailer_error-set_trailer_status}
use node_dubbo.Grpc.Handler.{settle, respond}
use node_dubbo.Grpc.Client.{read_messages, then_validate, validated, one_message, required}
use node_dubbo.Grpc.Client.Delivery.{write_message, MessageFits, delivered_messages}

-- The error that the client finds for what the handler has caught.
abbrev pub verdict : Headers → Option Reason → Option DubboError
verdict trailer none = none
verdict trailer (some r) = some (
    new_error (reported r).raw_message (reported r).code trailer
      (map received (reported r).details))

-- The status of success is there, and no details.
abbrev pub IsFresh : Headers → Type 0
IsFresh trailer =
    (get header_status_details_bin trailer ≡ none) × (get header_grpc_status trailer ≡ some "0")

-- The code of what is reported is one of the enumeration.
abbrev pub HasCode : Option Reason → Type 0
HasCode none = Unit
HasCode (some r) = is_member (reported r).code ≡ true

ended_validated {ℓ} :
    {O : Type ℓ} (xs : List O) (v : Outcome (Unit {0}))
    → then_validate false v (before xs finished) ≡ before xs (validated v)
unfolding then_validate
ended_validated [] v = refl
ended_validated (x ∷ xs) v = ap (yields x) (ended_validated xs v)

-- The single output of a unary method, and what else the client throws.
abbrev pub unary_result {ℓ} : {O : Type ℓ} → List O → Option DubboError → Outcome O
unary_result [] (some e) = thrown (dubbo e)
unary_result [] none =
    raise "protocol error: missing output message for unary method" Code.invalid_argument
unary_result (x ∷ []) (some e) = thrown (dubbo e)
unary_result (x ∷ []) none = ok x
unary_result (x ∷ y ∷ xs) e =
    raise "protocol error: received extra output message for unary method" Code.invalid_argument

unary_cases {ℓ} :
    {O : Type ℓ} (xs : List O) (e : Option DubboError)
    → (one_message none (before xs finished) >>= (λ message. throw_found e >> required message))
      ≡ unary_result xs e
unfolding one_message
unary_cases [] none = refl
unary_cases [] (some e) = refl
unary_cases (x ∷ []) none = refl
unary_cases (x ∷ []) (some e) = refl
unary_cases (x ∷ y ∷ xs) e = refl

module _ (coding : TextCoding) (reads : ReadsText coding) (trailer : Headers)
    (fresh : IsFresh trailer) where
  found_nothing : find_trailer_error coding trailer ≡ ok none
  unfolding find_trailer_error error_in error_of_text
  found_nothing = rw (fresh.0, fresh.1) refl

  validate_trailer-verdict :
      (t : Headers) (e : Option Reason)
      → HasCode e
      → settle coding trailer e ≡ ok t
      → validate_trailer coding t ≡ throw_found (verdict t e)
  unfolding validate_trailer settle
  validate_trailer-verdict t none c h =
      ap (λ o. o >>= throw_found)
        (ap (find_trailer_error coding) (sym (ok_injective trailer t h)) ∙ found_nothing)
  validate_trailer-verdict t (some r) c h =
      ap (λ o. o >>= throw_found)
        (find_trailer_error-set_trailer_status coding reads trailer t (reported r) c fresh.0 h)

  module _ {ℓ} {O : Type ℓ} (z : Serialization O) (compression : Option Compression) (min max : ℕ)
      (s : Stream O) (t : Headers) (cs : List Bytes) (rz : ReadsBack z)
      (lossless : IsLossless? compression) (hm : max < 4294967296)
      (items : All
        (MessageFits z compression min max)
        (written (write_message z compression min max) s).0)
      (code : HasCode (written (write_message z compression min max) s).1)
      (final : (respond z compression min coding trailer s).1 ≡ ok t)
      (same : joined cs ≡ joined (values (respond z compression min coding trailer s).0)) where
    -- A gRPC client of a streaming call, however the body is cut into chunks, yields the outputs
    -- of the handler up to the first one that cannot be written, and then returns if the handler
    -- has caught nothing, or throws the error that it has caught: its message, code and details.
    -- That is if the header had no status, the serialization of the messages reads back what it
    -- writes, the compression (if any) is lossless, the limit is below 2 ^ 32 and not passed by a
    -- message, the trailer of the implementation has the status of success and no details, the
    -- code of the error is one of the enumeration, setting the trailer does not throw, and the
    -- codings read back what they write.
    pub then_validate-respond :
        then_validate false
          (validate_trailer coding t)
          (read_messages z compression max (before cs finished))
        ≡ before (written (write_message z compression min max) s).0 (
            validated (throw_found (verdict t (written (write_message z compression min max) s).1)))
    then_validate-respond =
        let (messages, settles) =
          delivered_messages z compression min max coding trailer s t cs rz lossless hm items final
            same in
        ap₂ (then_validate false) (validate_trailer-verdict t _ code settles) messages
        ∙ ended_validated _ _

    -- Under the conditions of a streaming call, a gRPC client of a unary call returns the output
    -- of the handler if there is one and no error, throws the error that the handler has caught
    -- behind at most one output, throws that the output is missing if there is none and no error,
    -- and throws that there is an extra output otherwise.
    pub one_message-respond :
        (do
          message ← one_message none (read_messages z compression max (before cs finished))
          validate_trailer coding t
          required message)
        ≡ unary_result
            (written (write_message z compression min max) s).0
            (verdict t (written (write_message z compression min max) s).1)
    one_message-respond =
        let (messages, settles) =
          delivered_messages z compression min max coding trailer s t cs rz lossless hm items final
            same in
        ap₂ (λ ms v. one_message none ms >>= (λ message. v >> required message)) messages
          (validate_trailer-verdict t _ code settles)
        ∙ unary_cases _ _
