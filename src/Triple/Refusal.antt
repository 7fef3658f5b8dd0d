-- ===== src/Triple/Refusal.antt =====
-- Requests that a stream handler refuses before the implementation is called.
use node_dubbo.Prelude.{ℕ, ◌≡◌, refl, [], true, Bool, Option, some, if◌then◌else◌}
use node_dubbo.ByteArray.{Bytes}
use node_dubbo.Headers.{Headers, get, set}
use node_dubbo.Error.{Reason, Outcome, ok, thrown, ◌>>=◌}
use node_dubbo.Stream.{Stream, raised, finished, yields, yields_or_raises}
use node_dubbo.Envelope.{EnvelopedMessage, Compression, envelope_compress, encode_envelope}
use node_dubbo.Compression.{Negotiated, compression_negotiate}
use node_dubbo.Iterable.{
  Serialization, transform_prepend, transform_parse_messages, transform_decompress_envelope,
  map_or_raise, yields_optional, transform_catch_finally, transform_serialize_envelope,
  transform_compress_envelope, transform_join_envelopes,
}
use node_dubbo.Iterable.Split.{transform_split_envelope, split_from}
use node_dubbo.Invoke.{
  MethodImpl, unary, server_streaming, client_streaming, bidi_streaming, Effects, no_effects,
  effects_on, transform_invoke_implementation,
}
use node_dubbo.Triple.Request.{
  ContentType, Timeout, parse_content_type, header_timeout, parse_timeout,
}
use node_dubbo.Triple.StreamHandler.{
  EndStreamResponse, end_stream_flag, reported, end_of, until_first, end_envelope, respond,
  encoding_header, HandlerOptions, byte_stream, ServerRequest, ServerResponse, check_request,
  read_request, handle_body, handle_type, handle_stream, create_stream_handler,
}

-- What the handler makes of the headers of a request.
abbrev pub negotiated : HandlerOptions → Headers → Negotiated
negotiated opt header =
    compression_negotiate opt.accept_compression (get "Connect-Content-Encoding" header)
      (get "Connect-Accept-Encoding" header) "Connect-Accept-Encoding"

abbrev pub timeout_of : HandlerOptions → Headers → Timeout
timeout_of opt header = parse_timeout (get header_timeout header) opt.max_timeout_ms

module _ {ℓ} {I : Type ℓ} (opt : HandlerOptions) (serialization_i : Bool → Serialization I) where
  read_request-check_request :
      (req : ServerRequest) (body : Stream Bytes) (binary : Bool) (c : Negotiated) (t : Timeout)
      (e : Reason)
      → check_request opt serialization_i req c t ≡ thrown e
      → read_request opt serialization_i req body binary c t ≡ raised e
  unfolding read_request transform_prepend transform_split_envelope split_from
      transform_decompress_envelope map_or_raise transform_parse_messages
  read_request-check_request req body binary c t e h = rw h refl

-- The implementation takes one message.
unfoldable pub TakesOne {ℓ κ} : {I : Type ℓ} {R : Type κ} → MethodImpl I R → Type 0
TakesOne (unary f) = Unit
TakesOne (server_streaming f) = Unit
TakesOne (client_streaming f) = ⊥
TakesOne (bidi_streaming f) = ⊥

module _ {ℓ κ} {I : Type ℓ} {R : Type κ} where
  effects_on-raised :
      (impl : MethodImpl I R) (effects : Stream I → Effects) (e : Reason)
      → TakesOne impl
      → effects_on impl effects (raised e) ≡ no_effects
  unfolding effects_on TakesOne
  effects_on-raised (unary f) effects e one = refl
  effects_on-raised (server_streaming f) effects e one = refl
  effects_on-raised (client_streaming f) effects e one = absurd one
  effects_on-raised (bidi_streaming f) effects e one = absurd one

  invoke-raised {μ} :
      {O : Type μ} (normalize : R → Outcome O) (impl : MethodImpl I R) (e : Reason)
      → TakesOne impl
      → transform_invoke_implementation normalize impl (raised e) ≡ raised e
  unfolding transform_invoke_implementation TakesOne
  invoke-raised normalize (unary f) e one = refl
  invoke-raised normalize (server_streaming f) e one = refl
  invoke-raised normalize (client_streaming f) e one = absurd one
  invoke-raised normalize (bidi_streaming f) e one = absurd one

bind_assoc {ℓ κ μ} :
    {A : Type ℓ} {B : Type κ} {C : Type μ} (o : Outcome A) (k : A → Outcome B) (m : B → Outcome C)
    → (o >>= k >>= m) ≡ (o >>= (λ a. k a >>= m))
bind_assoc (thrown e) k m = refl
bind_assoc (ok a) k m = refl

-- One message, in the bytes of a response.
abbrev pub only_message : EnvelopedMessage → Stream Bytes
only_message sent = yields (encode_envelope sent.flags sent.payload) finished

join_one :
    (o : Outcome EnvelopedMessage)
    → until_first (transform_join_envelopes (yields_or_raises o finished))
      ≡ (o >>= (λ sent. ok (only_message sent)))
unfolding until_first transform_join_envelopes map_or_raise
join_one (thrown e) = refl
join_one (ok sent) = refl

compress_one :
    (o : Outcome Bytes) (compression : Option Compression) (n : ℕ)
    → until_first (
        transform_join_envelopes (
          transform_compress_envelope compression n (
            yields_optional
              (o >>= (λ p. ok (some (record { flags = end_stream_flag; payload = p }))))
              finished)))
      ≡ (o
          >>= (λ p.
              envelope_compress (record { flags = end_stream_flag; payload = p }) compression n)
          >>= (λ sent. ok (only_message sent)))
unfolding until_first transform_join_envelopes map_or_raise transform_compress_envelope
compress_one (thrown e) compression n = refl
compress_one (ok p) compression n = join_one _

module _ (opt : HandlerOptions) (end_serialization : Serialization EndStreamResponse) where
  -- The header of the response before an implementation is called.
  abbrev pub first_header : Option Compression → Bool → Headers
  first_header compression binary = encoding_header compression (
      set "Content-Type"
        (if binary then "application/connect+proto" else "application/connect+json") [])

  -- The message at the end, in the form that is sent.
  abbrev pub end_sent : Option Compression → Reason → Outcome EnvelopedMessage
  end_sent compression e = do
    payload ← end_serialization.serialize (record { metadata = []; error = some (reported e) })
    envelope_compress (record { flags = end_stream_flag; payload = payload }) compression
        opt.compress_min_bytes

  -- The answer to a refused request: a response with the message at the end only.
  abbrev pub refusal : ServerRequest → Bool → Reason → Outcome ServerResponse
  refusal req binary e = do
    let compression = (negotiated opt req.header).response
    sent ← end_sent compression e
    ok (record {
      status = 200;
      header = first_header compression binary;
      body = some (only_message sent);
    })

module _ {ℓ} {I : Type ℓ} (opt : HandlerOptions) (serialization_i : Bool → Serialization I) where
  -- The version header, the compression or the timeout of the request is refused.
  abbrev pub IsRefused : ServerRequest → Reason → Type 0
  IsRefused req e =
      check_request opt serialization_i req (negotiated opt req.header) (timeout_of opt req.header)
      ≡ thrown e

module _ {ℓ κ μ} {I : Type ℓ} {R : Type κ} {O : Type μ} (opt : HandlerOptions)
    (serialization_i : Bool → Serialization I) (serialization_o : Bool → Serialization O)
    (end_serialization : Serialization EndStreamResponse) (normalize : R → Outcome O)
    (impl : MethodImpl I R) (effects : Stream I → Effects) where
  respond-raised :
      (binary : Bool) (compression : Option Compression) (e : Reason)
      → until_first (
          respond
            (serialization_o binary)
            end_serialization
            []
            compression
            opt.compress_min_bytes
            (raised e))
        ≡ (end_sent opt end_serialization compression e >>= (λ sent. ok (only_message sent)))
  unfolding respond end_envelope end_of transform_catch_finally transform_serialize_envelope
      map_or_raise
  respond-raised binary compression e =
      compress_one (end_serialization.serialize (end_of [] (some e))) compression
        opt.compress_min_bytes

  body-refusal :
      (req : ServerRequest) (body : Stream Bytes) (binary : Bool) (e : Reason)
      → TakesOne impl
      → IsRefused opt serialization_i req e
      → handle_body opt serialization_i serialization_o end_serialization normalize impl effects req
          body binary
        ≡ refusal opt end_serialization req binary e
  unfolding handle_body
  body-refusal req body binary e one h =
      let compression = (negotiated opt req.header).response in
      rw
        (
          read_request-check_request opt serialization_i req body binary (negotiated opt req.header)
              (timeout_of opt req.header) e h,
          effects_on-raised impl effects e one,
          invoke-raised normalize impl e one,
          respond-raised binary compression e,
        )
        (bind_assoc (end_sent opt end_serialization compression e) _ _)

  type-refusal :
      (req : ServerRequest) (body : Stream Bytes) (type : ContentType) (e : Reason)
      → TakesOne impl
      → IsRefused opt serialization_i req e
      → type.stream ≡ true
      → req.method ≡ "POST"
      → handle_type opt serialization_i serialization_o end_serialization normalize impl effects req
          body
          (some type)
        ≡ refusal opt end_serialization req type.binary e
  unfolding handle_type
  type-refusal req body type e one h stream post =
      rw (stream, post) (body-refusal req body type.binary e one h)

  -- A POST request of a streaming content type whose version header, compression or timeout is
  -- refused, to a method that takes one message: the implementation has no effect on the answer,
  -- which is the status 200 with the header of the content type and of the encoding, and in the
  -- body the message at the end alone, with the error of the refusal and no metadata, compressed
  -- as agreed. If that message cannot be written, the handler throws what its writing throws.
  pub create_stream_handler-check_request :
      (req : ServerRequest) (body : Stream Bytes) (type : ContentType) (e : Reason)
      → TakesOne impl
      → IsRefused opt serialization_i req e
      → req.body ≡ byte_stream body
      → parse_content_type (get "Content-Type" req.header) ≡ some type
      → type.stream ≡ true
      → req.method ≡ "POST"
      → create_stream_handler opt serialization_i serialization_o end_serialization normalize impl
          effects req
        ≡ refusal opt end_serialization req type.binary e
  unfolding create_stream_handler handle_stream
  create_stream_handler-check_request req body type e one h bytes typed stream post =
      rw (bytes, typed) (type-refusal req body type e one h stream post)
