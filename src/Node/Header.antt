-- ===== src/Node/Header.antt =====
-- packages/dubbo-node/src/node-universal-header.ts: headers of Node.js and of the Fetch API. An
-- object is the list of its entries, in the order in which they were added.
use Prim.Native.Char.{code}
use node_dubbo.Prelude.{
  ℕ, ◌≡◌, refl, sym, ap, ◌∙◌, Bool, true, false, String, List, [], ◌∷◌, ◌++◌, append_assoc,
  append-nil, Option, none, some, lower, str_eq, ◌==◌, decimal, arith, if◌then◌else◌,
}
use node_dubbo.Headers.{Headers, append}
use node_dubbo.Headers.Entry

-- A value of a Node.js header: `undefined`, a text, a number or a list of texts.
pub data NodeValue : Type 0 where
  undefined : NodeValue
  text : String → NodeValue
  number : ℕ → NodeValue
  texts : List String → NodeValue

abbrev pub NodeHeaders : Type 0
NodeHeaders = List (String × NodeValue)

-- `HeadersInit`: pairs, a `Headers`, or an object with names and values.
pub data HeadersInit : Type 0 where
  pairs : List (String × String) → HeadersInit
  headers : Headers → HeadersInit
  fields : List (String × String) → HeadersInit

-- `k.startsWith(":")`.
unfoldable pub is_pseudo : String → Bool
is_pseudo String.[] = false
is_pseudo (String.◌∷◌ c s) = code c == b':'

append_texts : String → List String → Headers → Headers
append_texts k [] header = header
append_texts k (e ∷ es) header = append_texts k es (append k e header)

append_value : String → NodeValue → Headers → Headers
unfolding append_texts
append_value k undefined header = header
append_value k (text v) header = append k v header
append_value k (number n) header = append k (decimal n) header
append_value k (texts v) header = append_texts k v header

append_entries : NodeHeaders → Headers → Headers
append_entries [] header = header
append_entries ((k, v) ∷ rest) header =
    append_entries rest (if is_pseudo k then header else append_value k v header)

pub node_header_to_web_header : NodeHeaders → Headers
node_header_to_web_header node_headers = append_entries node_headers []

-- `o[k] = value`.
put : String → NodeValue → NodeHeaders → NodeHeaders
put k v [] = (k, v) ∷ []
put k v ((j, w) ∷ o) = if str_eq j k then (j, v) ∷ o else (j, w) ∷ put k v o

put_entries : List (String × String) → NodeHeaders → NodeHeaders
put_entries [] o = o
put_entries ((key, value) ∷ rest) o = put_entries rest (put (lower key) (text value) o)

-- `"forEach" in headersInit`, for an object.
has_name : String → List (String × String) → Bool
has_name k [] = false
has_name k ((j, v) ∷ rest) = if str_eq j k then true else has_name k rest

node_headers_of : HeadersInit → NodeHeaders
unfolding put_entries has_name
node_headers_of (pairs entries) = put_entries entries []
node_headers_of (headers h) = put_entries h []
node_headers_of (fields entries) = if has_name "forEach" entries then [] else put_entries entries []

pub web_header_to_node_headers : Option HeadersInit → Option NodeHeaders
unfolding node_headers_of
web_header_to_node_headers none = none
web_header_to_node_headers (some init) = some (node_headers_of init)

-- The entries of a `Headers`, with those before them: each name is in lower case, is none of a
-- pseudo-header, and is there once.
abbrev pub IsPlain : Headers → Headers → Type 0
IsPlain before [] = Unit
IsPlain before ((k, v) ∷ h) =
    (lower k ≡ k)
    × ((is_pseudo k ≡ false) × ((Entry.get k before ≡ none) × IsPlain (before ++ ((k, v) ∷ [])) h))

abbrev pub as_texts : Headers → NodeHeaders
as_texts [] = []
as_texts ((k, v) ∷ h) = (k, text v) ∷ as_texts h

append-absent :
    (k v : String) (h : Headers) → Entry.get k h ≡ none → Entry.append k v h ≡ h ++ ((k, v) ∷ [])
unfolding Entry.append Entry.get
append-absent k v [] e = refl
append-absent k v ((j, w) ∷ h) e = ground (arith, append-absent k v h)

put-absent :
    (k v : String) (h : Headers)
    → Entry.get k h ≡ none
    → put k (text v) (as_texts h) ≡ as_texts (h ++ ((k, v) ∷ []))
unfolding put Entry.get
put-absent k v [] e = refl
put-absent k v ((j, w) ∷ h) e = ground (arith, put-absent k v h)

append_entries-as_texts :
    (h before : Headers) → IsPlain before h → append_entries (as_texts h) before ≡ before ++ h
unfolding append_entries append_value append
append_entries-as_texts [] before plain = sym (append-nil before)
append_entries-as_texts ((k, v) ∷ h) before (low, (real, (absent, plain))) =
    ap (λ b. append_entries (as_texts h) (if b then before else Entry.append (lower k) v before))
      real
    ∙ ap (λ j. append_entries (as_texts h) (Entry.append j v before)) low
    ∙ ap (append_entries (as_texts h)) (append-absent k v before absent)
    ∙ append_entries-as_texts h (before ++ ((k, v) ∷ [])) plain
    ∙ append_assoc before ((k, v) ∷ []) h

put_entries-as_texts :
    (h before : Headers)
    → IsPlain before h
    → put_entries h (as_texts before) ≡ as_texts (before ++ h)
unfolding put_entries
put_entries-as_texts [] before plain = ap as_texts (sym (append-nil before))
put_entries-as_texts ((k, v) ∷ h) before (low, (real, (absent, plain))) =
    ap (λ j. put_entries h (put j (text v) (as_texts before))) low
    ∙ ap (put_entries h) (put-absent k v before absent)
    ∙ put_entries-as_texts h (before ++ ((k, v) ∷ [])) plain
    ∙ ap as_texts (append_assoc before ((k, v) ∷ []) h)

-- For headers of the Fetch API whose names are in lower case, are none of a pseudo-header, and are
-- there once each, webHeaderToNodeHeaders gives an object with the same names and values, and
-- nodeHeaderToWebHeader makes the same headers of it again.
pub node_header_to_web_header-web_header_to_node_headers :
    (h : Headers)
    → IsPlain [] h
    → (web_header_to_node_headers (some (headers h)) ≡ some (as_texts h))
      × (node_header_to_web_header (as_texts h) ≡ h)
unfolding web_header_to_node_headers node_headers_of node_header_to_web_header
node_header_to_web_header-web_header_to_node_headers h plain =
    (ap some (put_entries-as_texts h [] plain), append_entries-as_texts h [] plain)
