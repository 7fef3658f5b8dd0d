-- ===== src/Universal/Matcher.antt =====
-- packages/dubbo/src/protocol/content-type-matcher.ts: a matcher of content types with a cache. A
-- regular expression is its test; none of those in use keeps a position between tests.
use mathlib.Core.Option.{none-ne-some, some-injective}
use node_dubbo.Prelude.{
  ℕ, ◌≤◌, ◌≡◌, refl, ap, ap₂, ◌∙◌, Bool, true, false, String, List, [], ◌∷◌, Option, none, some,
  map, length, any, ltb, str_eq, eq_iff, arith, Bool-cases, Option-cases, inl, inr, if◌then◌else◌,
  sym,
}

abbrev pub cache_size : ℕ
cache_size = 1024

pub record Matcher : Type 0 where
  pub supported : List (String → Bool)
  pub cache : List (String × Bool)

unfoldable pub new_matcher : List (String → Bool) → Matcher
new_matcher supported = record { supported = supported; cache = [] }

-- `source.some((re) => re.test(contentType))`.
abbrev pub some_match : List (String → Bool) → String → Bool
some_match supported content_type = any (λ re. re content_type) supported

unfoldable pub cached : List (String × Bool) → String → Option Bool
cached [] content_type = none
cached ((t, b) ∷ cache) content_type =
    let rest = cached cache content_type in if str_eq t content_type then some b else rest

remember : Matcher → String → Bool → Matcher
remember m content_type found =
    if ltb (length m.cache) cache_size
    then record m { cache = (content_type, found) ∷ m.cache }
    else m

match_text : Matcher → String → Bool × Matcher
unfolding cached remember
match_text m content_type = elim (cached m.cache content_type) [
  | some found ↦ (found, m)
  | none ↦ (
    some_match m.supported content_type,
    remember m content_type (some_match m.supported content_type),
  )
]

unfoldable pub match_content_type : Matcher → Option String → Bool × Matcher
unfolding match_text
match_content_type m none = (false, m)
match_content_type m (some content_type) =
    if str_eq content_type "" then (false, m) else match_text m content_type

-- Calls one after another.
unfoldable pub match_all : Matcher → List (Option String) → List Bool × Matcher
match_all m [] = ([], m)
match_all m (t ∷ ts) =
    let (b, after) = match_content_type m t in let (bs, last) = match_all after ts in (b ∷ bs, last)

-- What a matcher without a cache answers.
abbrev pub supports : List (String → Bool) → Option String → Bool
supports supported none = false
supports supported (some content_type) =
    if str_eq content_type "" then false else some_match supported content_type

abbrev pub IsCache : List (String → Bool) → List (String × Bool) → Type 0
IsCache supported [] = Unit
IsCache supported ((t, b) ∷ cache) = (some_match supported t ≡ b) × IsCache supported cache

abbrev pub IsSound : Matcher → Type 0
IsSound m = IsCache m.supported m.cache × (length m.cache ≤ cache_size)

cached_head :
    (t : String) (b : Bool) (cache : List (String × Bool)) (content_type : String)
    → ((str_eq t content_type ≡ true) → cached ((t, b) ∷ cache) content_type ≡ some b)
      × ((str_eq t content_type ≡ false)
          → cached ((t, b) ∷ cache) content_type ≡ cached cache content_type)
unfolding cached
cached_head t b cache content_type = (λ same. rw same refl, λ distinct. rw distinct refl)

cached_right :
    (supported : List (String → Bool)) (cache : List (String × Bool)) (content_type : String)
    (found : Bool)
    → IsCache supported cache
    → cached cache content_type ≡ some found
    → some_match supported content_type ≡ found
unfolding cached
cached_right supported [] content_type found c h = absurd (none-ne-some found h)
cached_right supported ((t, b) ∷ cache) content_type found (right, c) h =
    let (hit, miss) = cached_head t b cache content_type in
    elim (Bool-cases (str_eq t content_type)) [
      | inl same ↦
          ap (some_match supported) (sym ((eq_iff t content_type).0 same))
          ∙ right
          ∙ some-injective b found (sym (hit same) ∙ h)
      | inr distinct ↦ cached_right supported cache content_type found c (sym (miss distinct) ∙ h)
    ]

remember-IsSound :
    (m : Matcher) (t : String)
    → IsSound m
    → ((remember m t (some_match m.supported t)).supported ≡ m.supported)
      × IsSound (remember m t (some_match m.supported t))
unfolding remember
remember-IsSound m t (right, small) = elim (Bool-cases (ltb (length m.cache) 1024)) [
  | inl room ↦ rw room (refl, ((refl, right), ground arith))
  | inr full ↦ rw full (refl, (right, small))
]

match_text-cached :
    (m : Matcher) (t : String)
    → ((found : Bool) → cached m.cache t ≡ some found → match_text m t ≡ (found, m))
      × (cached m.cache t ≡ none
          → match_text m t ≡ (some_match m.supported t, remember m t (some_match m.supported t)))
unfolding match_text
match_text-cached m t = (λ found h. rw (match_text, h) refl, λ h. rw (match_text, h) refl)

text_step :
    (m : Matcher) (t : String)
    → IsSound m
    → ((match_text m t).0 ≡ some_match m.supported t)
      × ((match_text m t).1.supported ≡ m.supported)
      × IsSound (match_text m t).1
text_step m t (right, small) = elim (Option-cases (cached m.cache t)) [
  | inl missing ↦
      let (same, sound) = remember-IsSound m t (right, small) in
      rw ((match_text-cached m t).1 missing) (refl, same, sound)
  | inr (found, h) ↦
      rw ((match_text-cached m t).0 found h)
        (sym (cached_right m.supported m.cache t found right h), refl, (right, small))
]

match_step :
    (m : Matcher) (t : Option String)
    → IsSound m
    → ((match_content_type m t).0 ≡ supports m.supported t)
      × ((match_content_type m t).1.supported ≡ m.supported)
      × IsSound (match_content_type m t).1
unfolding match_content_type
match_step m none sound = (refl, refl, sound)
match_step m (some text) sound = elim (Bool-cases (str_eq text "")) [
  | inl same ↦ rw same (refl, refl, sound)
  | inr distinct ↦ rw distinct (text_step m text sound)
]

-- Whatever was asked before, a matcher with a sound cache answers as one without a cache, and the
-- cache stays sound and within its size.
pub match_all_lem :
    (m : Matcher) (ts : List (Option String))
    → IsSound m
    → ((match_all m ts).0 ≡ map (supports m.supported) ts) × IsSound (match_all m ts).1
unfolding match_all
match_all_lem m [] sound = (refl, sound)
match_all_lem m (t ∷ ts) sound =
    let (answer, same, after) = match_step m t sound in
    let (answers, last) = match_all_lem (match_content_type m t).1 ts after in
    (
      ap₂ (λ (b : Bool) (bs : List Bool). b ∷ bs) answer
          (answers ∙ ap (λ s. map (supports s) ts) same),
      last,
    )
