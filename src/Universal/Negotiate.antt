-- ===== src/Universal/Negotiate.antt =====
-- packages/dubbo/src/protocol/universal-handler.ts, the handler of negotiateProtocol: it picks one
-- of the handlers of a method, one for each protocol, by the request's method and content type.
-- The collector of metrics is left out.
use node_dubbo.Prelude.{
  ◌≡◌, refl, sym, ap, ◌∙◌, Bool, true, false, ◌&&◌, ◌||◌, String, List, [], ◌∷◌, Option, none, some,
  any, filter, find, str_eq, if◌then◌else◌, arith, Bool-cases, inl, inr,
}
use node_dubbo.Headers.{get}
use node_dubbo.Error.{Reason, Outcome, ok, thrown}
use node_dubbo.Triple.StreamHandler.{ServerRequest, ServerResponse, status_only}
use node_dubbo.Universal.Matcher.{supports}
use Prim.Native.Char.{code}
use node_dubbo.Prelude.{◌==◌}

-- A handler for one protocol: `UniversalHandler`.
pub record Handler : Type 0 where
  pub allowed_methods : List String
  pub supported : List (String → Bool)
  pub run : ServerRequest → Outcome ServerResponse

-- What the promise of the negotiating handler settles with: a response, an error in the place of a
-- response, or a rejection.
pub data Answer : Type 0 where
  response : ServerResponse → Answer
  error_response : Reason → Answer
  rejected : Reason → Answer

-- `onlyMatch(request)`, and `firstMatch(request)` with its `catch`.
abbrev pub settled : Outcome ServerResponse → Answer
settled (ok r) = response r
settled (thrown e) = rejected e

abbrev pub caught : Outcome ServerResponse → Answer
caught (ok r) = response r
caught (thrown e) = error_response e

abbrev pub is_http1 : String → Bool
is_http1 String.[] = false
is_http1 (String.◌∷◌ c String.[]) = false
is_http1 (String.◌∷◌ c (String.◌∷◌ d s)) = (code c == b'1') && (code d == b'.')

abbrev pub allows : String → Handler → Bool
allows method h = any (λ m. str_eq m method) h.allowed_methods

abbrev pub takes : String → Handler → Bool
takes content_type h = supports h.supported (some content_type)

abbrev pub or_empty : Option String → String
or_empty none = ""
or_empty (some t) = t

by_content_type : List Handler → ServerRequest → Answer
by_content_type [] req = response (status_only 415)
by_content_type (h ∷ hs) req = caught (h.run req)

by_method : List Handler → String → ServerRequest → Answer
unfolding by_content_type
by_method [] content_type req = response (status_only 405)
by_method (h ∷ []) content_type req =
    if str_eq content_type ""
    then settled (h.run req)
    else by_content_type (filter (takes content_type) (h ∷ [])) req
by_method (h ∷ g ∷ hs) content_type req =
    by_content_type (filter (takes content_type) (h ∷ g ∷ hs)) req

-- `bidi` is that the method is a bidirectional stream.
unfoldable pub protocol_negotiating_handler : List Handler → Bool → String → ServerRequest → Answer
unfolding by_method
protocol_negotiating_handler handlers bidi http_version req =
    if bidi && is_http1 http_version
    then response (record { status = 505; header = ("connection", "close") ∷ []; body = none })
    else by_method (filter (allows req.method) handlers) (or_empty (get "Content-Type" req.header))
        req

-- The handler that a request with a content type is for: the first that allows its method and takes
-- its content type.
abbrev pub chosen : List Handler → ServerRequest → String → Option Handler
chosen handlers req content_type = find (λ h. allows req.method h && takes content_type h) handlers

abbrev pub answer_of : Option Handler → Bool → ServerRequest → Answer
answer_of (some h) allowed req = caught (h.run req)
answer_of none true req = response (status_only 415)
answer_of none false req = response (status_only 405)

filtered :
    (handlers : List Handler) (content_type : String) (req : ServerRequest)
    → by_content_type (filter (takes content_type) (filter (allows req.method) handlers)) req
      ≡ answer_of (chosen handlers req content_type) true req
unfolding by_content_type
filtered [] content_type req = refl
filtered (h ∷ hs) content_type req = elim (Bool-cases (allows req.method h)) [
  | inl allowed ↦ elim (Bool-cases (takes content_type h)) [
    | inl taken ↦ rw (allowed, taken) refl
    | inr left ↦ rw (allowed, left) (filtered hs content_type req)
  ]
  | inr refused ↦ rw refused (filtered hs content_type req)
]

or_false : (a b : Bool) → (a || b) ≡ false → (a ≡ false) × (b ≡ false)
or_false a b h = ground arith

or_true : (a b : Bool) → a ≡ false → (a || b) ≡ true → b ≡ true
or_true a b h k = ground arith

given_type :
    (g : Handler) (gs : List Handler) (content_type : String) (req : ServerRequest)
    → str_eq content_type "" ≡ false
    → by_method (g ∷ gs) content_type req
      ≡ by_content_type (filter (takes content_type) (g ∷ gs)) req
unfolding by_method
given_type g [] content_type req given = rw given refl
given_type g (k ∷ gs) content_type req given = refl

none_allowed :
    (handlers : List Handler) (content_type : String) (req : ServerRequest)
    → any (allows req.method) handlers ≡ false
    → (filter (allows req.method) handlers ≡ []) × (chosen handlers req content_type ≡ none)
none_allowed [] content_type req h = (refl, refl)
none_allowed (g ∷ gs) content_type req h =
    let (refused, rest) = or_false (allows req.method g) (any (allows req.method) gs) h in
    rw refused (none_allowed gs content_type req rest)

by_method_lem :
    (handlers : List Handler) (content_type : String) (req : ServerRequest)
    → str_eq content_type "" ≡ false
    → any (allows req.method) handlers ≡ true
    → by_method (filter (allows req.method) handlers) content_type req
      ≡ by_content_type (filter (takes content_type) (filter (allows req.method) handlers)) req
by_method_lem [] content_type req given h = cc
by_method_lem (g ∷ gs) content_type req given h = elim (Bool-cases (allows req.method g)) [
  | inl allowed ↦ rw allowed (given_type (g) (filter (allows req.method) gs) content_type req given)
  | inr refused ↦ rw refused (
      by_method_lem gs content_type req given
        (or_true (allows req.method g) (any (allows req.method) gs) refused h))
]

-- A request with a content type, over a version of HTTP that the method can use, gets the answer
-- of the first handler that allows its method and takes its content type, where an error thrown by
-- that handler takes the place of a response. If there is none, the status is 415 if some handler
-- allows the method, and 405 otherwise.
pub protocol_negotiating_handler-chosen :
    (handlers : List Handler) (bidi : Bool) (http_version content_type : String)
    (req : ServerRequest)
    → (bidi && is_http1 http_version) ≡ false
    → get "Content-Type" req.header ≡ some content_type
    → str_eq content_type "" ≡ false
    → protocol_negotiating_handler handlers bidi http_version req
      ≡ answer_of (chosen handlers req content_type) (any (allows req.method) handlers) req
unfolding protocol_negotiating_handler
protocol_negotiating_handler-chosen handlers bidi http_version content_type req usable has given =
    rw (usable, has)
      (elim (Bool-cases (any (allows req.method) handlers)) [
        | inl allowed ↦
            by_method_lem handlers content_type req given allowed
            ∙ filtered handlers content_type req
            ∙ ap (λ b. answer_of (chosen handlers req content_type) b req) (sym allowed)
        | inr refused ↦
            let (empty, unchosen) = none_allowed handlers content_type req refused in
            rw (empty, unchosen, refused) (unfold by_method in refl)
      ])
