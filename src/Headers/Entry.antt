-- ===== src/Headers/Entry.antt =====
-- `get`, `set`, `append` and `delete` of the Fetch API's `Headers` on a name in lower case.
use node_dubbo.Prelude.{
  ◌≡◌, refl, String, List, [], ◌∷◌, Option, none, some, arith, ◌+++◌, str_eq, eq_iff, if◌then◌else◌,
}

abbrev pub Headers : Type 0
Headers = List (String × String)

unfoldable pub get : String → Headers → Option String
get k [] = none
get k ((j, v) ∷ h) = if str_eq j k then some v else get k h

unfoldable pub set : String → String → Headers → Headers
set k v [] = (k, v) ∷ []
set k v ((j, w) ∷ h) = if str_eq j k then (j, v) ∷ h else (j, w) ∷ set k v h

unfoldable pub append : String → String → Headers → Headers
append k v [] = (k, v) ∷ []
append k v ((j, w) ∷ h) = if str_eq j k then (j, w +++ (", " +++ v)) ∷ h else (j, w) ∷ append k v h

unfoldable pub delete : String → Headers → Headers
delete k [] = []
delete k ((j, w) ∷ h) = let rest = delete k h in if str_eq j k then rest else (j, w) ∷ rest

-- The value of a name after `append`: the first one, or the joined ones.
abbrev pub joined : Option String → String → String
joined none v = v
joined (some w) v = w +++ (", " +++ v)

pub get-set :
    (k j v : String) (h : Headers) → get j (set k v h) ≡ (if str_eq k j then some v else get j h)
unfolding get set
get-set k j v [] = refl
get-set k j v ((i, w) ∷ h) = ground (arith, eq_iff k j, eq_iff i k, eq_iff i j, get-set k j v h)

pub get-append :
    (k j v : String) (h : Headers)
    → get j (append k v h) ≡ (if str_eq k j then some (joined (get k h) v) else get j h)
unfolding get append
get-append k j v [] = refl
get-append k j v ((i, w) ∷ h) =
    ground (arith, eq_iff k j, eq_iff i k, eq_iff i j, get-append k j v h)

pub get-delete :
    (k j : String) (h : Headers) → get j (delete k h) ≡ (if str_eq k j then none else get j h)
unfolding get delete
get-delete k j [] = ground arith
get-delete k j ((i, w) ∷ h) = ground (arith, eq_iff k j, eq_iff i k, eq_iff i j, get-delete k j h)
