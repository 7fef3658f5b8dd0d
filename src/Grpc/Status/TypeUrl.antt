-- ===== src/Grpc/Status/TypeUrl.antt =====
-- The type of a type URL in trailer-status.ts: `url.substring(url.lastIndexOf("/") + 1)`.
use Prim.Native.Char.{Char, code}
use text.Mathlib.TextLemmas.{cons-append, nil-append}
use node_dubbo.Prelude.{
  ◌≡◌, refl, ap, arith, ◌∙◌, String, Option, none, some, ◌==◌, ◌+++◌, if◌then◌else◌,
}

-- What is behind the last slash.
behind_step : Char → String → Option String → Option String
behind_step c s (some rest) = some rest
behind_step c s none = if code c == b'/' then some s else none

behind_slash : String → Option String
unfolding behind_step
behind_slash String.[] = none
behind_slash (String.◌∷◌ c s) = behind_step c s (behind_slash s)

or_all : String → Option String → String
or_all url none = url
or_all url (some rest) = rest

unfoldable pub type_of_url : String → String
unfolding behind_slash or_all
type_of_url url = or_all url (behind_slash url)

joined : String → Option String → Option String → Option String
joined k (some rest) before = some rest
joined k none none = none
joined k none (some rest) = some (rest +++ k)

joined_step :
    (c : Char) (p k : String) (before behind : Option String)
    → behind_step c (p +++ k) (joined k behind before) ≡ joined k behind (behind_step c p before)
unfolding joined behind_step
joined_step c p k none (some rest) = ground arith
joined_step c p k (some r) (some rest) = refl
joined_step c p k (some r) none = refl
joined_step c p k none none = ground arith

behind_cons :
    (c : Char) (s : String) → behind_slash (String.◌∷◌ c s) ≡ behind_step c s (behind_slash s)
unfolding behind_slash
behind_cons c s = refl

behind_slash-append :
    (p k : String) → behind_slash (p +++ k) ≡ joined k (behind_slash k) (behind_slash p)
unfolding behind_slash joined
behind_slash-append String.[] k = rw nil-append (no_slash (behind_slash k))
  where
    no_slash : (o : Option String) → o ≡ joined k o none
    no_slash none = refl
    no_slash (some rest) = refl
behind_slash-append (String.◌∷◌ c p) k =
    ap behind_slash (cons-append c p k)
    ∙ behind_cons c (p +++ k)
    ∙ ap (behind_step c (p +++ k)) (behind_slash-append p k)
    ∙ joined_step c p k (behind_slash p) (behind_slash k)

pub type_of_url-prefix :
    (type : String) → type_of_url ("type.googleapis.com/" +++ type) ≡ type_of_url type
unfolding type_of_url behind_slash joined
type_of_url-prefix type =
    rw (behind_slash-append "type.googleapis.com/" type) (whole (behind_slash type))
  where
    whole :
        (o : Option String)
        → or_all ("type.googleapis.com/" +++ type) (joined type o (some "")) ≡ or_all type o
    whole none = nil-append type
    whole (some rest) = refl
