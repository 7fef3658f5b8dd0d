-- ===== src/Examples/Protocols.antt =====
-- The theorems about the choice of a protocol, at concrete handlers and requests.
use node_dubbo.Prelude.{
  ◌≡◌, refl, true, false, String, List, [], ◌∷◌, none, some, map, any, str_eq, arith, lower,
  lower_char,
}
use node_dubbo.Headers.{get}
use node_dubbo.Headers.Entry
use node_dubbo.Error.{native, Outcome, ok, thrown}
use node_dubbo.Stream.{finished}
use node_dubbo.Triple.StreamHandler.{ServerRequest, ServerResponse, status_only, byte_stream}
use node_dubbo.Universal.Matcher.{Matcher, match_all, supports, IsSound, match_all_lem}
use node_dubbo.Universal.Negotiate.{
  Handler, protocol_negotiating_handler, chosen, answer_of, allows,
  protocol_negotiating_handler-chosen,
}

abbrev proto_or_json : Matcher
proto_or_json = record {
  supported = (λ t. str_eq t "application/proto") ∷ (λ t. str_eq t "application/json") ∷ [];
  cache = ("application/json", true) ∷ [];
}

asked_example :
    ((match_all proto_or_json (some "application/json" ∷ some "text/html" ∷ none ∷ [])).0
      ≡ map
          (supports proto_or_json.supported)
          (some "application/json" ∷ some "text/html" ∷ none ∷ []))
    × IsSound (match_all proto_or_json (some "application/json" ∷ some "text/html" ∷ none ∷ [])).1
asked_example =
    match_all_lem proto_or_json (some "application/json" ∷ some "text/html" ∷ none ∷ [])
      ((refl, tt), omega arith)

abbrev protocol : String → Outcome ServerResponse → Handler
protocol content_type outcome = record {
  allowed_methods = "POST" ∷ [];
  supported = (λ t. str_eq t content_type) ∷ [];
  run = λ req. outcome;
}

abbrev protocols : List Handler
protocols =
    protocol "application/grpc" (ok (status_only 200))
    ∷ protocol "application/proto" (thrown (native "Error" "broken"))
    ∷ []

abbrev proto_request : ServerRequest
proto_request = record {
  method = "POST";
  header = ("content-type", "application/proto") ∷ [];
  body = byte_stream finished;
}

has_type : get "Content-Type" proto_request.header ≡ some "application/proto"
unfolding get Entry.get lower lower_char
has_type = refl

chosen_example :
    protocol_negotiating_handler protocols false "1.1" proto_request
    ≡ answer_of
        (chosen protocols proto_request "application/proto")
        (any (allows "POST") protocols)
        proto_request
chosen_example =
    protocol_negotiating_handler-chosen protocols false "1.1" "application/proto" proto_request refl
      has_type refl
