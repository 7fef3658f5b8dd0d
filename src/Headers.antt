-- ===== src/Headers.antt =====
-- The Fetch API's `Headers`, as far as the sources use it: a standard class of the platform, not
-- code of the repository. A name is compared in lower case, `append` joins a second value with
-- ", ", and `forEach` visits each name once. Here a collection is the list of its entries in the
-- order in which the names were first written (the platform sorts them by name).
pub mod Entry
use Entry
pub use Entry.{Headers}
use node_dubbo.Prelude.{
  ◌≡◌, Bool, true, false, String, [], ◌∷◌, Option, none, some, lower, str_eq, eq_refl, arith,
  if◌then◌else◌,
}

unfoldable pub get : String → Headers → Option String
unfolding Entry.get
get name h = Entry.get (lower name) h

unfoldable pub set : String → String → Headers → Headers
unfolding Entry.set
set name value h = Entry.set (lower name) value h

unfoldable pub append : String → String → Headers → Headers
unfolding Entry.append
append name value h = Entry.append (lower name) value h

unfoldable pub delete : String → Headers → Headers
unfolding Entry.delete
delete name h = Entry.delete (lower name) h

pub get-set :
    (k j v : String) (h : Headers)
    → get j (set k v h) ≡ (if str_eq (lower k) (lower j) then some v else get j h)
unfolding get set
get-set k j v h = Entry.get-set (lower k) (lower j) v h

pub get-set_self : (k v : String) (h : Headers) → get k (set k v h) ≡ some v
get-set_self k v h = ground (arith, get-set k k v h, eq_refl (lower k))

pub get-delete :
    (k j : String) (h : Headers)
    → get j (delete k h) ≡ (if str_eq (lower k) (lower j) then none else get j h)
unfolding get delete
get-delete k j h = Entry.get-delete (lower k) (lower j) h

abbrev pub is_some : Option String → Bool
is_some none = false
is_some (some v) = true

unfoldable pub has : String → Headers → Bool
unfolding get
has name h = is_some (get name h)

-- `a.forEach((value, key) => b.append(key, value))`, and the same with `set`.
unfoldable pub append_all : Headers → Headers → Headers
append_all [] h = h
append_all ((k, v) ∷ from) h = append_all from (append k v h)

unfoldable pub set_all : Headers → Headers → Headers
set_all [] h = h
set_all ((k, v) ∷ from) h = set_all from (set k v h)
