-- ===== src/Web/GrpcTransport.antt =====
-- packages/dubbo-web/src/grpc-web-transport.ts: what is made of a response.
pub mod Delivery
use node_dubbo.Prelude.{ℕ, Bool, true, false, String, [], Option, none, some, ◌==◌, if◌then◌else◌}
use node_dubbo.ByteArray.{Bytes}
use node_dubbo.Headers.{Headers}
use node_dubbo.Error.{other, Outcome, ok, thrown, ◌>>=◌, ◌>>◌}
use node_dubbo.Stream.{Stream, finished, raised, yields}
use node_dubbo.Envelope.{EnvelopedMessage, has_flag, encode_envelope}
use node_dubbo.Envelope.Readable.{create_envelope_readable_stream}
use node_dubbo.Grpc.Status.{TextCoding, validate_trailer}
use node_dubbo.Grpc.Response.{validate_web_response}
use node_dubbo.GrpcWeb.Trailer.{TextCoder, trailer_flag, trailer_parse}
use node_dubbo.GrpcWeb.Client.{valid_or_raises}
use node_dubbo.Triple.ClientRequest.{HttpRequest}
use node_dubbo.Web.{FetchResponse}
use node_dubbo.Web.DubboTransport.{yields_parsed, body_or_missing}

module _ {ℓ} {O : Type ℓ} (coding : TextCoding) (coder : TextCoder)
    (parse : Bytes → Outcome O) where
  -- The loop over the messages of a unary method: its trailer and its message.
  unfoldable pub one_envelope :
      Option Headers → Option O → Stream EnvelopedMessage → Outcome (Option Headers × Option O)
  one_envelope trailer message finished = ok (trailer, message)
  one_envelope trailer message (raised e) = thrown e
  one_envelope none none (yields env s) =
      let trailing = one_envelope (some (trailer_parse coder env.payload)) none s in
      let value = parse env.payload >>= (λ m. one_envelope none (some m) s) in
      if env.flags == trailer_flag then trailing else value
  one_envelope none (some m) (yields env s) =
      let trailing = one_envelope (some (trailer_parse coder env.payload)) (some m) s in
      if env.flags == trailer_flag then trailing else thrown (other "extra message")
  one_envelope (some t) none (yields env s) =
      let value = parse env.payload >>= (λ m. one_envelope (some t) (some m) s) in
      if env.flags == trailer_flag then thrown (other "extra trailer") else value
  one_envelope (some t) (some m) (yields env s) =
      if env.flags == trailer_flag
      then thrown (other "extra trailer")
      else thrown (other "extra message")

  abbrev pub or_missing {κ} : {A : Type κ} → String → Option A → Outcome A
  or_missing name none = thrown (other name)
  or_missing name (some x) = ok x

  unfoldable pub read_unary_response : ℕ → FetchResponse → Outcome (O × Headers)
  unfolding one_envelope
  read_unary_response fuel res = do
    found ← validate_web_response coding res.status res.headers
    body ← body_or_missing res.body
    (trailer, message) ← one_envelope none none (create_envelope_readable_stream fuel body)
    t ← or_missing "missing trailer" trailer
    validate_trailer coding t
    m ← or_missing "missing message" message
    ok (m, t)

  -- The loop of parseResponseBody with its variable `trailerReceived` and the trailer of the
  -- response.
  unfoldable pub read_body : Bool → Headers → Stream EnvelopedMessage → Stream O × Headers
  read_body true trailer finished = (finished, trailer)
  read_body false trailer finished = (raised (other "missing trailer"), trailer)
  read_body received trailer (raised e) = (raised e, trailer)
  read_body true trailer (yields env s) =
      if has_flag env.flags trailer_flag
      then (raised (other "extra trailer"), trailer)
      else (raised (other "extra message"), trailer)
  read_body false trailer (yields env s) =
      let t = trailer_parse coder env.payload in
      let end = valid_or_raises (validate_trailer coding t) t (λ h. read_body true h s) trailer in
      let value = yields_parsed (parse env.payload) trailer (read_body false trailer s) in
      if has_flag env.flags trailer_flag then end else value

  -- A response with its status in the header has no body.
  unfoldable pub read_nothing : Stream EnvelopedMessage → Stream O
  read_nothing finished = finished
  read_nothing (raised e) = raised e
  read_nothing (yields env s) = raised (other "extra data for trailers-only")

  unfoldable pub parse_response_body : Bool → ℕ → Stream Bytes → Stream O × Headers
  unfolding read_body read_nothing
  parse_response_body true fuel body =
      (read_nothing (create_envelope_readable_stream fuel body), [])
  parse_response_body false fuel body =
      read_body false [] (create_envelope_readable_stream fuel body)

  unfoldable pub read_stream_response : ℕ → FetchResponse → Outcome (Stream O × Headers)
  unfolding parse_response_body
  read_stream_response fuel res = do
    found ← validate_web_response coding res.status res.headers
    body ← body_or_missing res.body
    ok (parse_response_body found fuel body)

-- What `fetch` is called with for a unary method.
unfoldable pub fetch_message {ℓ} :
    {I : Type ℓ} → (I → Outcome Bytes) → String → Headers → I → Outcome HttpRequest
fetch_message serialize url header message = do
  bytes ← serialize message
  ok (record { url = url; method = "POST"; header = header; body = some (encode_envelope 0 bytes) })
