-- ===== src/Compression/Agreement.antt =====
-- What compressionNegotiate agrees on.
use node_dubbo.Prelude.{
  ◌≡◌, ◌≢◌, ◌↔◌, refl, true, false, String, List, [], ◌∷◌, Option, none, some, map, arith, str_eq,
  eq_iff, eq_refl, Bool-cases, Option-cases, inl, inr, ◌⊎◌, ap, ◌++◌, All, sym, ◌∙◌,
}
use mathlib.Core.Option.{some-injective, none-ne-some}
use mathlib.Core.List.{Memᴰ}
use mathlib.Core.List.Memᴰ
use mathlib.Core.Bool.{true≢false}
use node_dubbo.Envelope.{Compression}
use node_dubbo.Compression.{
  split_commas, trim, find_named, choose_request, first_available, choose_response,
  compression_negotiate,
}

find_named-head :
    (d : Compression) (ds : List Compression) (name : String)
    → ((str_eq d.name name ≡ true) → find_named (d ∷ ds) name ≡ some d)
      × ((str_eq d.name name ≡ false) → find_named (d ∷ ds) name ≡ find_named ds name)
find_named-head d ds name = ground arith

find_named_sound :
    (cs : List Compression) (name : String) (c : Compression)
    → find_named cs name ≡ some c
    → Memᴰ c cs × (c.name ≡ name)
find_named_sound [] name c h = cc
find_named_sound (d ∷ ds) name c h = elim (Bool-cases (str_eq d.name name)) [
  | inl same ↦
      let chosen = some-injective c d (sym h ∙ (find_named-head d ds name).0 same) in
      (Memᴰ.head chosen, ap (λ (x : Compression). x.name) chosen ∙ (eq_iff d.name name).0 same)
  | inr other ↦
      let (m, named) = find_named_sound ds name c (sym ((find_named-head d ds name).1 other) ∙ h) in
      (Memᴰ.tail m, named)
]

find_named_complete :
    (cs : List Compression) (c : Compression) → Memᴰ c cs → find_named cs c.name ≢ none
find_named_complete [] c m h = elim m [ ]
find_named_complete (d ∷ ds) c m h = elim (Bool-cases (str_eq d.name c.name)) [
  | inl same ↦ none-ne-some d (sym h ∙ (find_named-head d ds c.name).0 same)
  | inr other ↦ elim (Memᴰ.cases_cons m) [
    | inl chosen ↦
        elim (true≢false (
          sym (eq_refl c.name) ∙ ap (λ (x : Compression). str_eq x.name c.name) chosen ∙ other)) [ ]
    | inr later ↦ find_named_complete ds c later (sym ((find_named-head d ds c.name).1 other) ∙ h)
  ]
]

first_available-head :
    (cs : List Compression) (n : String) (ns : List String)
    → ((find_named cs n ≡ none) → first_available cs (n ∷ ns) ≡ first_available cs ns)
      × ((c : Compression) → (find_named cs n ≡ some c) → first_available cs (n ∷ ns) ≡ some c)
unfolding first_available
first_available-head cs n ns =
    (λ h. rw (first_available, h) refl, λ c h. rw (first_available, h) refl)

-- The first accepted name that is available is chosen.
first_available_sound :
    (cs : List Compression) (names : List String) (c : Compression)
    → first_available cs names ≡ some c
    → Memᴰ c cs
      × ((better : List String) × (worse : List String) × (names ≡ better ++ c.name ∷ worse)
          × All (λ n. find_named cs n ≡ none) better)
unfolding first_available
first_available_sound cs [] c h = cc
first_available_sound cs (n ∷ ns) c h = elim (Option-cases (find_named cs n)) [
  | inl absent ↦
      let (m, (better, worse, same, missing)) =
        first_available_sound cs ns c (sym ((first_available-head cs n ns).0 absent) ∙ h) in
      (m, (n ∷ better, worse, ap (λ t. n ∷ t) same, (absent, missing)))
  | inr (d, found) ↦
      let chosen = some-injective c d (sym h ∙ (first_available-head cs n ns).1 d found) in
      let (m, named) = find_named_sound cs n c (found ∙ ap (λ x. some x) (sym chosen)) in
      (m, ([], ns, ap (λ t. t ∷ ns) (sym named), tt))
]

first_available-none :
    (cs : List Compression) (names : List String)
    → first_available cs names ≡ none
    → All (λ n. find_named cs n ≡ none) names
unfolding first_available
first_available-none cs [] h = tt
first_available-none cs (n ∷ ns) h = elim (Option-cases (find_named cs n)) [
  | inl absent ↦
      (absent, first_available-none cs ns (sym ((first_available-head cs n ns).0 absent) ∙ h))
  | inr (d, found) ↦ absurd (none-ne-some d (sym h ∙ (first_available-head cs n ns).1 d found))
]

-- What the request may have named so that it is served.
abbrev pub IsServed : List Compression → Option String → Type 0
IsServed cs requested =
    (requested ≡ none)
    ⊎ ((requested ≡ some "identity") ⊎ ((c : Compression) × Memᴰ c cs × (requested ≡ some c.name)))

refused :
    (cs : List Compression) (name : String)
    → str_eq name "identity" ≡ false
    → find_named cs name ≡ none
    → IsServed cs (some name)
    → ⊥
refused cs name other absent (inl e) = none-ne-some name (sym e)
refused cs name other absent (inr (inl e)) =
    true≢false (sym ((eq_iff name "identity").1 (some-injective name "identity" e)) ∙ other)
refused cs name other absent (inr (inr (c, m, e))) =
    find_named_complete cs c m (ap (find_named cs) (sym (some-injective name c.name e)) ∙ absent)

choose_request-cases :
    (cs : List Compression) (requested : Option String) (h : String)
    → (((choose_request cs requested h).1 ≡ none) ↔ IsServed cs requested)
      × ((c : Compression)
          → (choose_request cs requested h).0 ≡ some c
          → Memᴰ c cs × (requested ≡ some c.name))
unfolding choose_request
choose_request-cases cs none h = ((λ _. inl refl, λ _. refl), λ c same. cc)
choose_request-cases cs (some name) h = elim (Bool-cases (str_eq name "identity")) [
  | inl same ↦
      let named = ap (λ n. some n) ((eq_iff name "identity").0 same) in
      rw same ((λ _. inr (inl named), λ _. refl), λ c e. absurd (none-ne-some c e))
  | inr other ↦ elim (Option-cases (find_named cs name)) [
    | inl absent ↦
        rw (other, absent)
          (
            (
              λ e. absurd (none-ne-some _ (sym e)),
              λ served. absurd (refused cs name other absent served),
            ),
            λ c e. absurd (none-ne-some c e),
          )
    | inr (d, found) ↦
        let (m, named) = find_named_sound cs name d found in
        rw (other, found)
          (
            (λ _. inr (inr (d, m, ap (λ n. some n) (sym named))), λ _. refl),
            λ c e.
                let (mc, at) = find_named_sound cs name c (found ∙ e) in
                (mc, ap (λ n. some n) (sym at)),
          )
  ]
]

-- The request's compression, when there is one, is available and has the name requested.
abbrev pub IsNamed : List Compression → Option String → Option Compression → Type 0
IsNamed cs requested none = Unit
IsNamed cs requested (some c) = Memᴰ c cs × (requested ≡ some c.name)

choose_request-IsNamed :
    (cs : List Compression) (requested : Option String) (h : String) (request : Option Compression)
    → (choose_request cs requested h).0 ≡ request
    → IsNamed cs requested request
choose_request-IsNamed cs requested h none same = tt
choose_request-IsNamed cs requested h (some c) same = (choose_request-cases cs requested h).1 c same

-- compressionNegotiate gives no error exactly if the request names no encoding, "identity" or the
-- name of an available compression, and a compression that it gives for the request is available
-- and has the name requested.
compression_negotiate-request :
    (cs : List Compression) (requested accepted : Option String) (h : String)
    → (((compression_negotiate cs requested accepted h).error ≡ none) ↔ IsServed cs requested)
      × IsNamed cs requested (compression_negotiate cs requested accepted h).request
unfolding compression_negotiate
compression_negotiate-request cs requested accepted h =
    ((choose_request-cases cs requested h).0, choose_request-IsNamed cs requested h _ refl)

-- The first accepted name that is available, if there is one.
abbrev pub IsFirst : List Compression → String → Option Compression → Type 0
IsFirst cs accepted none = All (λ n. find_named cs n ≡ none) (map trim (split_commas accepted))
IsFirst cs accepted (some c) =
    Memᴰ c cs
    × ((better : List String) × (worse : List String) × (map trim (split_commas accepted)
          ≡ better ++ c.name ∷ worse)
        × All (λ n. find_named cs n ≡ none) better)

-- What the response's compression is: without an accept header, or with an empty one, the
-- request's, and otherwise the available compression whose name comes first in the header.
abbrev pub IsAgreed :
    List Compression → Option Compression → Option String → Option Compression → Type 0
IsAgreed cs request none response = response ≡ request
IsAgreed cs request (some accepted) response =
    ((accepted ≡ "") → response ≡ request) × ((accepted ≢ "") → IsFirst cs accepted response)

choose_response-step :
    (cs : List Compression) (request : Option Compression) (names : String)
    → ((str_eq names "" ≡ true) → choose_response cs request (some names) ≡ request)
      × ((str_eq names "" ≡ false)
          → choose_response cs request (some names)
            ≡ first_available cs (map trim (split_commas names)))
unfolding choose_response
choose_response-step cs request names =
    (λ same. rw (choose_response, same) refl, λ other. rw (choose_response, other) refl)

first_available-IsFirst :
    (cs : List Compression) (accepted : String) (response : Option Compression)
    → first_available cs (map trim (split_commas accepted)) ≡ response
    → IsFirst cs accepted response
first_available-IsFirst cs accepted none h = first_available-none cs _ h
first_available-IsFirst cs accepted (some c) h = first_available_sound cs _ c h

choose_response-IsAgreed :
    (cs : List Compression) (request : Option Compression) (accepted : Option String)
    → IsAgreed cs request accepted (choose_response cs request accepted)
unfolding choose_response
choose_response-IsAgreed cs request none = refl
choose_response-IsAgreed cs request (some names) = elim (Bool-cases (str_eq names "")) [
  | inl same ↦ (
    λ _. (choose_response-step cs request names).0 same,
    λ other. absurd (other ((eq_iff names "").0 same)),
  )
  | inr other ↦ (
    λ empty. absurd (true≢false (sym ((eq_iff names "").1 empty) ∙ other)),
    λ _. first_available-IsFirst cs names _ (sym ((choose_response-step cs request names).1 other)),
  )
]

-- The compression of the response is the one of the request if there is no accept header or it is
-- empty. With any other accept header it is an available one whose name is accepted while no name
-- before it is available, and there is none only if no accepted name is available.
pub compression_negotiate-response :
    (cs : List Compression) (requested accepted : Option String) (h : String)
    → IsAgreed cs
        (compression_negotiate cs requested accepted h).request
        accepted
        (compression_negotiate cs requested accepted h).response
unfolding compression_negotiate
compression_negotiate-response cs requested accepted h = choose_response-IsAgreed cs _ accepted
