-- ===== src/GrpcWeb/Trailer.antt =====
-- packages/dubbo/src/protocol-grpc-web/trailer.ts: a trailer as text, one field a line. The text is
-- coded by the platform's TextEncoder and TextDecoder, which are parameters. What the platform does
-- with a name or a value that no header can have is left out.
pub mod RoundTrip
use Prim.Native.Char.{Char, code}
use Prim.Native.String
use node_dubbo.Prelude.{
  ℕ, Bool, true, false, ◌&&◌, String, List, [], ◌∷◌, Option, none, some, ◌==◌, str_eq, ◌+++◌,
  if◌then◌else◌,
}
use node_dubbo.ByteArray.{Bytes}
use node_dubbo.Headers.{Headers, append}
use node_dubbo.Compression.{trim}
use node_dubbo.Error.{ok}
use node_dubbo.Iterable.{Serialization}

abbrev pub trailer_flag : ℕ
trailer_flag = 128

pub record TextCoder : Type 0 where
  pub encode : String → Bytes
  pub decode : Bytes → String

-- `text.split("\r\n")`.
unfoldable pub longer_first : Char → List String → List String
longer_first c [] = String.◌∷◌ c "" ∷ []
longer_first c (line ∷ lines) = String.◌∷◌ c line ∷ lines

unfoldable pub split_crlf : String → List String
unfolding longer_first
split_crlf String.[] = "" ∷ []
split_crlf (String.◌∷◌ c String.[]) = String.◌∷◌ c "" ∷ []
split_crlf (String.◌∷◌ c (String.◌∷◌ d s)) =
    let behind = split_crlf s in
    let longer = longer_first c (split_crlf (String.◌∷◌ d s)) in
    if (code c == 13) && (code d == 10) then "" ∷ behind else longer

-- What is before the first colon and what is behind it.
unfoldable pub named_by : Char → Option (String × String) → Option (String × String)
named_by c none = none
named_by c (some (name, value)) = some (String.◌∷◌ c name, value)

unfoldable pub at_colon : String → Option (String × String)
unfolding named_by
at_colon String.[] = none
at_colon (String.◌∷◌ c s) =
    let rest = named_by c (at_colon s) in if code c == b':' then some ("", s) else rest

-- One line: without a colon, or with nothing before it, it is passed over.
unfoldable pub append_field : Option (String × String) → Headers → Headers
append_field none h = h
append_field (some (name, value)) h =
    if str_eq name "" then h else append (trim name) (trim value) h

unfoldable pub append_lines : List String → Headers → Headers
unfolding at_colon append_field
append_lines [] h = h
append_lines (line ∷ lines) h = append_lines lines (append_field (at_colon line) h)

unfoldable pub trailer_text : Headers → String
trailer_text [] = ""
trailer_text ((key, value) ∷ trailer) =
    (key +++ (": " +++ (value +++ "\r\n"))) +++ trailer_text trailer

module _ (coder : TextCoder) where
  unfoldable pub trailer_parse : Bytes → Headers
  unfolding split_crlf append_lines
  trailer_parse bytes = append_lines (split_crlf (coder.decode bytes)) []

  unfoldable pub trailer_serialize : Headers → Bytes
  unfolding trailer_text
  trailer_serialize trailer = coder.encode (trailer_text trailer)

  unfoldable pub create_trailer_serialization : Serialization Headers
  unfolding trailer_parse trailer_serialize
  create_trailer_serialization = record {
    serialize = λ h. ok (trailer_serialize h);
    parse = λ b. ok (trailer_parse b);
  }
