-- ===== src/Triple/Request.antt =====
-- packages/dubbo/src/protocol-triple: the headers of a request: content-type.ts, parse-timeout.ts,
-- version.ts and headers.ts.
use node_dubbo.Prelude.{
  ℕ, suc, Bool, true, false, ◌&&◌, String, List, [], ◌∷◌, Option, none, some, ltb, leb, str_eq,
  if◌then◌else◌, ◌+++◌, lower, is_digit, digits, decimal,
}
use node_dubbo.Headers.{Headers, get}
use node_dubbo.Error.{Code, DubboError, Outcome, ok, raise}
use node_dubbo.Error

abbrev pub header_timeout : String
header_timeout = "TRI-Service-Timeout"

abbrev pub header_protocol_version : String
header_protocol_version = "TRI-Protocol-Version"

abbrev pub protocol_version : String
protocol_version = "1.0.0"

pub record ContentType : Type 0 where
  pub stream : Bool
  pub binary : Bool

-- The texts that `contentTypeRegExp` matches, in lower case.
abbrev pub content_types : List (String × ContentType)
content_types =
    ("application/proto", record { stream = false; binary = true })
    ∷ ("application/json", record { stream = false; binary = false })
    ∷ ("application/json;charset=utf8", record { stream = false; binary = false })
    ∷ ("application/json;charset=utf-8", record { stream = false; binary = false })
    ∷ ("application/json; charset=utf8", record { stream = false; binary = false })
    ∷ ("application/json; charset=utf-8", record { stream = false; binary = false })
    ∷ ("application/connect+proto", record { stream = true; binary = true })
    ∷ ("application/connect+json", record { stream = true; binary = false })
    ∷ ("application/connect+json;charset=utf8", record { stream = true; binary = false })
    ∷ ("application/connect+json;charset=utf-8", record { stream = true; binary = false })
    ∷ ("application/connect+json; charset=utf8", record { stream = true; binary = false })
    ∷ ("application/connect+json; charset=utf-8", record { stream = true; binary = false })
    ∷ []

unfoldable pub look_up : List (String × ContentType) → String → Option ContentType
look_up [] text = none
look_up ((t, type) ∷ ts) text =
    let rest = look_up ts text in if str_eq t text then some type else rest

-- The expression ignores the case of letters.
unfoldable pub parse_content_type : Option String → Option ContentType
unfolding look_up
parse_content_type none = none
parse_content_type (some value) = look_up content_types (lower value)

unfoldable pub parse_encoding_query : Option String → Option ContentType
parse_encoding_query none = none
parse_encoding_query (some encoding) =
    if str_eq encoding "proto"
    then some (record { stream = false; binary = true })
    else if str_eq encoding "json"
    then some (record { stream = false; binary = false })
    else none

pub record Timeout : Type 0 where
  pub timeout_ms : Option ℕ
  pub error : Option DubboError

abbrev all_digits : String → Bool
all_digits String.[] = true
all_digits (String.◌∷◌ c s) = is_digit c && all_digits s

abbrev text_length : String → ℕ
text_length String.[] = 0
text_length (String.◌∷◌ c s) = suc (text_length s)

-- `/^\d{1,10}$/`, and the number that the digits stand for.
unfoldable pub timeout_digits : String → Option ℕ
unfolding digits
timeout_digits value =
    if leb 1 (text_length value) && (leb (text_length value) 10 && all_digits value)
    then digits none value
    else none

unfoldable pub parse_timeout : Option String → ℕ → Timeout
parse_timeout none max_timeout_ms = record { timeout_ms = none; error = none }
parse_timeout (some value) max_timeout_ms = elim (timeout_digits value) [
  | none ↦ record {
    timeout_ms = none;
    error = some (
        Error.error ("protocol error: invalid connect timeout value: " +++ value)
          Code.invalid_argument);
  }
  | some timeout_ms ↦
      if ltb max_timeout_ms timeout_ms
      then record {
        timeout_ms = some timeout_ms;
        error = some (
            Error.error
              ("timeout "
                +++ (decimal timeout_ms +++ ("ms must be <= " +++ decimal max_timeout_ms)))
              Code.invalid_argument);
      }
      else record { timeout_ms = some timeout_ms; error = none }
]

unfoldable pub check_version : Option String → Outcome (Unit {0})
check_version none =
    raise
      ("missing required header: set "
        +++ (header_protocol_version +++ (" to \"" +++ (protocol_version +++ "\""))))
      Code.invalid_argument
check_version (some v) =
    if str_eq v protocol_version
    then ok tt
    else raise
        (header_protocol_version
          +++ (" must be \"" +++ (protocol_version +++ ("\": got \"" +++ (v +++ "\"")))))
        Code.invalid_argument

unfoldable pub require_protocol_version_header : Headers → Outcome (Unit {0})
unfolding check_version get
require_protocol_version_header request_header =
    check_version (get header_protocol_version request_header)
