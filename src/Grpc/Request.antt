-- ===== src/Grpc/Request.antt =====
-- packages/dubbo/src/protocol-grpc: request-header.ts, content-type.ts and headers.ts.
use node_dubbo.Prelude.{
  ℕ, Bool, true, false, String, List, [], ◌∷◌, Option, none, some, map, str_eq, ◌+++◌, decimal,
  lower, if◌then◌else◌,
}
use node_dubbo.Headers.{Headers, set}
use node_dubbo.Envelope.{Compression}
use node_dubbo.Compression.{join_commas}

abbrev pub header_content_type : String
header_content_type = "Content-Type"

abbrev pub header_encoding : String
header_encoding = "Grpc-Encoding"

abbrev pub header_accept_encoding : String
header_accept_encoding = "Grpc-Accept-Encoding"

abbrev pub header_timeout : String
header_timeout = "Grpc-Timeout"

abbrev pub header_user_agent : String
header_user_agent = "User-Agent"

abbrev pub content_type_proto : String
content_type_proto = "application/grpc+proto"

abbrev pub content_type_json : String
content_type_json = "application/grpc+json"

-- The texts that `contentTypeRegExp` matches, in lower case, and if they stand for binary data.
abbrev pub content_types : List (String × Bool)
content_types =
    ("application/grpc", true)
    ∷ ("application/grpc+proto", true)
    ∷ ("application/grpc+json", false)
    ∷ ("application/grpc+json;charset=utf8", false)
    ∷ ("application/grpc+json;charset=utf-8", false)
    ∷ ("application/grpc+json; charset=utf8", false)
    ∷ ("application/grpc+json; charset=utf-8", false)
    ∷ []

unfoldable pub find_type : List (String × Bool) → String → Option Bool
find_type [] text = none
find_type ((t, binary) ∷ ts) text =
    let rest = find_type ts text in if str_eq t text then some binary else rest

-- The expression ignores the case of letters.
unfoldable pub parse_content_type : Option String → Option Bool
unfolding find_type
parse_content_type none = none
parse_content_type (some value) = find_type content_types (lower value)

abbrev pub content_type_of : Bool → String
content_type_of binary = if binary then content_type_proto else content_type_json

-- `if (timeoutMs !== undefined) result.set(headerTimeout, ...)`.
abbrev pub set_timeout : Option ℕ → Headers → Headers
set_timeout none h = h
set_timeout (some timeout_ms) h = set header_timeout (decimal timeout_ms +++ "m") h

unfoldable pub request_header : Bool → Option ℕ → Headers → Headers
request_header use_binary_format timeout_ms user_provided_headers = set "Te" "trailers" (
    set_timeout timeout_ms (
      set header_user_agent "@apachedubbo/dubbo-web"
        (set header_content_type (content_type_of use_binary_format) user_provided_headers)))

abbrev pub set_encoding : Option Compression → Headers → Headers
set_encoding none h = h
set_encoding (some c) h = set header_encoding c.name h

abbrev pub set_accept_encoding : List Compression → Headers → Headers
set_accept_encoding [] h = h
set_accept_encoding (c ∷ cs) h =
    set header_accept_encoding (join_commas (map (λ (d : Compression). d.name) (c ∷ cs))) h

unfoldable pub request_header_with_compression :
    Bool → Option ℕ → Headers → List Compression → Option Compression → Headers
unfolding request_header
request_header_with_compression use_binary_format timeout_ms user_headers accept send =
    set_accept_encoding accept
      (set_encoding send (request_header use_binary_format timeout_ms user_headers))
