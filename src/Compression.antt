-- ===== src/Compression.antt =====
-- packages/dubbo/src/protocol/compression.ts: which compressions a request and its response use.
pub mod Agreement
mod Tests
use node_dubbo.Prelude.{
  Bool, true, false, ◌&&◌, String, List, [], ◌∷◌, Option, none, some, map, find, str_eq, ◌==◌,
  if◌then◌else◌, ◌+++◌, is_blank, single,
}
use Prim.Native.Char.{Char, code}
use Prim.Native.String
use node_dubbo.Headers.{Headers, append}
use node_dubbo.Error.{Code, DubboError, new_error}
use node_dubbo.Envelope.{Compression}

-- `text.split(",")`.
unfoldable pub split_from : String → String → List String
split_from part String.[] = part ∷ []
split_from part (String.◌∷◌ c s) =
    let closed = part ∷ split_from "" s in
    let longer = split_from (part +++ single c) s in if code c == b',' then closed else longer

abbrev pub split_commas : String → List String
split_commas text = split_from "" text

-- `text.trim()`.
unfoldable pub trim_start : String → String
trim_start String.[] = ""
trim_start (String.◌∷◌ c s) = let rest = trim_start s in if is_blank c then rest else String.◌∷◌ c s

unfoldable pub reverse_onto : String → String → String
reverse_onto String.[] out = out
reverse_onto (String.◌∷◌ c s) out = reverse_onto s (String.◌∷◌ c out)

unfoldable pub trim : String → String
unfolding trim_start reverse_onto
trim text = reverse_onto (trim_start (reverse_onto (trim_start text) "")) ""

-- `names.join(",")`.
unfoldable pub join_commas : List String → String
join_commas [] = ""
join_commas (n ∷ []) = n
join_commas (n ∷ m ∷ names) = n +++ ("," +++ join_commas (m ∷ names))

-- `available.find((c) => c.name === name)`.
abbrev pub find_named : List Compression → String → Option Compression
find_named available name = find (λ c. str_eq c.name name) available

pub record Negotiated : Type 0 where
  pub request : Option Compression
  pub response : Option Compression
  pub error : Option DubboError

unfoldable pub unknown_compression : List Compression → String → String → DubboError
unfolding join_commas
unknown_compression available requested header_name =
    let acceptable = join_commas (map (λ (c : Compression). c.name) available) in
    new_error
      ("unknown compression \"" +++ (requested +++ ("\": supported encodings are " +++ acceptable)))
      Code.unimplemented (append header_name acceptable []) []

-- The request's compression, and the error if it is not available.
unfoldable pub choose_request :
    List Compression → Option String → String → Option Compression × Option DubboError
choose_request available none header_name = (none, none)
choose_request available (some requested) header_name =
    if str_eq requested "identity" then (none, none) else elim (find_named available requested) [
      | some found ↦ (some found, none)
      | none ↦ (none, some (unknown_compression available requested header_name))
    ]

-- The loop over the accepted names: the first that is available.
unfoldable pub first_available : List Compression → List String → Option Compression
first_available available [] = none
first_available available (name ∷ names) = elim (find_named available name) [
  | some found ↦ some found
  | none ↦ first_available available names
]

unfoldable pub choose_response :
    List Compression → Option Compression → Option String → Option Compression
choose_response available request none = request
choose_response available request (some accepted) =
    if str_eq accepted ""
    then request
    else first_available available (map trim (split_commas accepted))

unfoldable pub compression_negotiate :
    List Compression → Option String → Option String → String → Negotiated
unfolding choose_request choose_response
compression_negotiate available requested accepted header_name =
    let (request, error) = choose_request available requested header_name in
    record {
      request = request;
      response = choose_response available request accepted;
      error = error;
    }
