-- ===== src/Web/DubboTransport.antt =====
-- packages/dubbo-web/src/dubbo-transport.ts: what is made of a response.
pub mod Delivery
use node_dubbo.Prelude.{ℕ, Bool, true, false, String, [], Option, none, some, if◌then◌else◌}
use node_dubbo.ByteArray.{Bytes}
use node_dubbo.Headers.{Headers, set_all}
use node_dubbo.Error.{DubboError, other, Outcome, ok, thrown, dubbo, ◌>>=◌}
use node_dubbo.Stream.{Stream, finished, raised, yields}
use node_dubbo.Envelope.{EnvelopedMessage, has_flag}
use node_dubbo.Envelope.Readable.{create_envelope_readable_stream}
use node_dubbo.Triple.Json.{Json, JsonCoding}
use node_dubbo.Triple.ErrorJson.{error_from_json}
use node_dubbo.Triple.EndStream.{append_headers, end_stream_from_json}
use node_dubbo.Triple.Mux.{trailer_demux}
use node_dubbo.Triple.StreamHandler.{EndStreamResponse, end_stream_flag}
use node_dubbo.Triple.StreamClient.{and_yields}
use node_dubbo.Triple.UnaryClient.{UnaryResponse, validate_response}
use node_dubbo.Triple.ClientRequest.{HttpRequest, UrlCoding, transform_connect_post_to_get_request}
use node_dubbo.Web.{FetchResponse, create_request_body}

abbrev pub body_or_missing : Option (Stream Bytes) → Outcome (Stream Bytes)
body_or_missing none = thrown (other "missing response body")
body_or_missing (some body) = ok body

module _ {ℓ} {O : Type ℓ} where
  -- What is made of a message that was parsed, and of an EndStreamResponse.
  abbrev pub yields_parsed : Outcome O → Headers → Stream O × Headers → Stream O × Headers
  yields_parsed (ok value) trailer r = and_yields value r
  yields_parsed (thrown e) trailer r = (raised e, trailer)

  abbrev pub at_end :
      Outcome EndStreamResponse → Headers → (Headers → Stream O × Headers) → Stream O × Headers
  at_end (thrown e) trailer k = (raised e, trailer)
  at_end (ok end) trailer k = elim end.error [
    | some e ↦ (raised (dubbo e), trailer)
    | none ↦ k (set_all end.metadata trailer)
  ]

  module _ (parse : Bytes → Outcome O) (parse_end : Bytes → Outcome EndStreamResponse) where
    -- The loop of parseResponseBody with its variable `endStreamReceived` and the trailer of the
    -- response.
    unfoldable pub read_body : Bool → Headers → Stream EnvelopedMessage → Stream O × Headers
    read_body true trailer finished = (finished, trailer)
    read_body false trailer finished = (raised (other "missing EndStreamResponse"), trailer)
    read_body received trailer (raised e) = (raised e, trailer)
    read_body received trailer (yields env s) =
        let end = at_end (parse_end env.payload) trailer (λ t. read_body true t s) in
        let value = yields_parsed (parse env.payload) trailer (read_body received trailer s) in
        if has_flag env.flags end_stream_flag then end else value

    unfoldable pub parse_response_body : ℕ → Stream Bytes → Stream O × Headers
    unfolding read_body
    parse_response_body fuel body = read_body false [] (create_envelope_readable_stream fuel body)

  unfoldable pub read_stream_response :
      (Bytes → Outcome O) → JsonCoding → ℕ → FetchResponse → Outcome (Stream O × Headers)
  unfolding parse_response_body validate_response
  read_stream_response parse coding fuel res = do
    unary_error ← validate_response false res.status res.headers
    body ← body_or_missing res.body
    ok (parse_response_body parse (end_stream_from_json coding) fuel body)

-- `all_bytes` is what `arrayBuffer` or `json` reads: the body of the response, or what it throws.
module _ {ℓ} {O : Type ℓ} (coding : JsonCoding) (parse : Bytes → Outcome O)
    (from_json : Json → Outcome O) where
  unfoldable pub read_message : Bool → Bytes → Outcome O
  read_message true body = parse body
  read_message false body = coding.parse body >>= from_json

  unfoldable pub read_unary :
      Bool → Headers × Headers → Outcome Bytes → Option DubboError → Outcome (UnaryResponse O)
  unfolding read_message append_headers
  read_unary use_binary_format (header, trailer) all_bytes (some unary_error) = do
    body ← all_bytes
    json ← coding.parse body
    e ← error_from_json coding json (append_headers header trailer) unary_error
    thrown (dubbo e)
  read_unary use_binary_format (header, trailer) all_bytes none = do
    body ← all_bytes
    message ← read_message use_binary_format body
    ok (record { header = header; message = message; trailer = trailer })

  unfoldable pub read_unary_response :
      Bool → ℕ → Headers → Outcome Bytes → Outcome (UnaryResponse O)
  unfolding read_unary validate_response trailer_demux
  read_unary_response use_binary_format status headers all_bytes = do
    unary_error ← validate_response true status headers
    read_unary use_binary_format (trailer_demux headers) all_bytes unary_error

-- What `fetch` is called with for a unary method, and for a streaming one. `use_get` is if GET is
-- allowed and the method has no side effects.
unfoldable pub fetch_unary {ℓ} :
    {I : Type ℓ}
    → UrlCoding
    → (I → Outcome Bytes)
    → Bool
    → Bool
    → String
    → Headers
    → I
    → Outcome HttpRequest
unfolding transform_connect_post_to_get_request
fetch_unary coding serialize use_get binary url header message = do
  bytes ← serialize message
  ok (
      if use_get
      then transform_connect_post_to_get_request coding url header bytes binary
      else record { url = url; method = "POST"; header = header; body = some bytes })

unfoldable pub fetch_stream {ℓ} :
    {I : Type ℓ} → (I → Outcome Bytes) → Bool → String → Headers → Stream I → Outcome HttpRequest
unfolding create_request_body
fetch_stream serialize server_streaming url header input = do
  bytes ← create_request_body serialize server_streaming input
  ok (record { url = url; method = "POST"; header = header; body = some bytes })
