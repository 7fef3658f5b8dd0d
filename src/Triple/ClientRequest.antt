-- ===== src/Triple/ClientRequest.antt =====
-- packages/dubbo/src/protocol-triple: request-header.ts and get-request.ts. What the platform and
-- @bufbuild/protobuf code into a URL is a parameter.
use node_dubbo.Prelude.{
  ℕ, Bool, true, false, not, ◌||◌, String, List, [], ◌∷◌, Option, none, some, map, str_eq, decimal,
  ◌+++◌, if◌then◌else◌, ltb, length,
}
use node_dubbo.ByteArray.{Bytes}
use node_dubbo.Headers.{Headers, get, set, delete}
use node_dubbo.Error.{Outcome, ok, ◌>>=◌}
use node_dubbo.Envelope.{Compression}
use node_dubbo.Compression.{join_commas}
use node_dubbo.Iterable.{Serialization}
use node_dubbo.Triple.Request.{header_timeout, header_protocol_version, protocol_version}
use node_dubbo.Triple.Mux.{behind_prefix}

-- `TripleClientServiceOptions`.
pub record ServiceOptions : Type 0 where
  pub service_group : Option String
  pub service_version : Option String

abbrev pub set_optional : String → Option String → Headers → Headers
set_optional name none h = h
set_optional name (some value) h = set name value h

abbrev decimal_of : Option ℕ → Option String
decimal_of none = none
decimal_of (some n) = some (decimal n)

-- The content type by the kind of the method and the format.
abbrev pub content_type_for : Bool → Bool → String
content_type_for true binary = if binary then "application/proto" else "application/json"
content_type_for false binary =
    if binary then "application/connect+proto" else "application/connect+json"

unfoldable pub request_header : Bool → Bool → Option ℕ → Headers → ServiceOptions → Headers
request_header is_unary binary timeout_ms user_headers options =
    set_optional "TRI-Service-Version" options.service_version (
      set_optional "TRI-Service-Group" options.service_group (
        set header_protocol_version protocol_version (
          set "Content-Type" (content_type_for is_unary binary)
            (set_optional header_timeout (decimal_of timeout_ms) user_headers))))

abbrev set_encoding : Bool → Option Compression → Headers → Headers
set_encoding is_unary none h = h
set_encoding is_unary (some c) h =
    set (if is_unary then "Content-Encoding" else "Connect-Content-Encoding") c.name h

abbrev set_accept_encoding : Bool → List Compression → Headers → Headers
set_accept_encoding is_unary [] h = h
set_accept_encoding is_unary (c ∷ cs) h =
    set (if is_unary then "Accept-Encoding" else "Connect-Accept-Encoding")
      (join_commas (map (λ (d : Compression). d.name) (c ∷ cs))) h

unfoldable pub request_header_with_compression :
    Bool
    → Bool
    → Option ℕ
    → Headers
    → List Compression
    → Option Compression
    → ServiceOptions
    → Headers
unfolding request_header
request_header_with_compression is_unary binary timeout_ms user_headers accept send options =
    set_accept_encoding is_unary accept
      (set_encoding is_unary send (request_header is_unary binary timeout_ms user_headers options))

-- What a request is sent as.
pub record HttpRequest : Type 0 where
  pub url : String
  pub method : String
  pub header : Headers
  pub body : Option Bytes

pub record UrlCoding : Type 0 where
  pub encode_component : String → String
  pub decode_text : Bytes → String
  pub base64_url : Bytes → String

module _ (coding : UrlCoding) where
  -- `contentType.slice("application/".length)` of a type that begins so.
  unfoldable pub encoding_query : Option String → String
  unfolding behind_prefix
  encoding_query none = ""
  encoding_query (some content_type) = elim (behind_prefix "application/" content_type) [
    | none ↦ ""
    | some format ↦ "&encoding=" +++ coding.encode_component format
  ]

  unfoldable pub compression_query : Option String → String
  compression_query none = ""
  compression_query (some name) =
      if not (str_eq name "identity") then "&compression=" +++ coding.encode_component name else ""

  -- A compressed payload is always written in base 64.
  unfoldable pub needs_base64 : Bool → Option String → Bool
  needs_base64 use_base64 none = use_base64
  needs_base64 use_base64 (some name) = not (str_eq name "identity") || use_base64

  unfoldable pub encode_message_for_url : Bytes → Bool → String
  encode_message_for_url message use_base64 =
      if use_base64
      then coding.base64_url message
      else coding.encode_component (coding.decode_text message)

  unfoldable pub transform_connect_post_to_get_request :
      String → Headers → Bytes → Bool → HttpRequest
  unfolding encoding_query compression_query needs_base64 encode_message_for_url
  transform_connect_post_to_get_request url header message use_base64 =
      let compression = get "Content-Encoding" header in
      let base64 = needs_base64 use_base64 compression in
      record {
        url =
            url
            +++ ("?triple=v"
                +++ (protocol_version
                    +++ (encoding_query (get "Content-Type" header)
                        +++ (compression_query compression
                            +++ ((if base64 then "&base64=1" else "")
                                +++ ("&message=" +++ encode_message_for_url message base64))))));
        method = "GET";
        header = delete "Accept-Encoding" (
            delete "Content-Encoding" (
              delete "Content-Length"
                (delete "Content-Type" (delete header_protocol_version header))));
        body = none;
      }

  -- The request of a unary call: a long message is compressed, and `use_get` is if GET is allowed
  -- and the method has no side effects.
  abbrev pub compressed_request :
      Option Compression → ℕ → Headers → Bytes → Outcome (Bytes × Headers)
  compressed_request none min header b = ok (b, delete "Content-Encoding" header)
  compressed_request (some c) min header b =
      if ltb min (length b)
      then c.compress b >>= (λ packed. ok (packed, set "Content-Encoding" c.name header))
      else ok (b, delete "Content-Encoding" header)

  unfoldable pub unary_request {ℓ} :
      {I : Type ℓ}
      → Serialization I
      → Option Compression
      → ℕ
      → Bool
      → Bool
      → String
      → Headers
      → I
      → Outcome HttpRequest
  unfolding transform_connect_post_to_get_request
  unary_request serialization send min use_get binary url header message = do
    serialized ← serialization.serialize message
    (body, header') ← compressed_request send min header serialized
    ok (
        if use_get
        then transform_connect_post_to_get_request url header' body binary
        else record { url = url; method = "POST"; header = header'; body = some body })
