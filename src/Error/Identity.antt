-- ===== src/Error/Identity.antt =====
-- The numbers, the texts and the HTTP statuses of the codes, and what they lose.
use node_dubbo.Prelude.{
  ℕ, ◌≤◌, ◌≡◌, ◌≢◌, refl, ◌↔◌, ◌⊎◌, inl, inr, Bool, true, false, String, List, [], ◌∷◌, some, arith,
  str_eq, eq_iff, Bool-cases,
}
use node_dubbo.Error.Codes.{Code, code_number, code_of_number, is_member, all_codes}
use node_dubbo.Error.CodeString.{code_to_string, code_from_string, find_string}
use node_dubbo.Error.HttpStatus.{
  code_from_http_status, code_to_http_status, grpc_code_from_http_status,
}

-- The code of a number has that number, and it is a member of the enumeration exactly if the
-- number is one from 1 to 16.
pub code_of_number_lem :
    (n : ℕ)
    → (code_number (code_of_number n) ≡ n)
      × ((is_member (code_of_number n) ≡ true) ↔ ((1 ≤ n) × (n ≤ 16)))
unfolding code_of_number
code_of_number_lem n = ground arith

-- A member is read back from its number.
pub code_of_number-code_number :
    (c : Code) → is_member c ≡ true → code_of_number (code_number c) ≡ c
unfolding code_of_number
code_of_number-code_number (Code.other n) h = cc
code_of_number-code_number Code.canceled h = refl
code_of_number-code_number _ h = refl

abbrev Listed : Code → List Code → Type 0
Listed c [] = ⊥
Listed c (d ∷ ds) = (d ≡ c) ⊎ Listed c ds

find_string_sound :
    (cs : List Code) (s : String) (c : Code)
    → find_string cs s ≡ some c
    → Listed c cs × (code_to_string c ≡ s)
unfolding find_string
find_string_sound [] s c h = cc
find_string_sound (d ∷ ds) s c h = elim (Bool-cases (str_eq (code_to_string d) s)) [
  | inl same ↦ ground (arith, eq_iff (code_to_string d) s)
  | inr other ↦ ground (arith, find_string_sound ds s c)
]

member_of_Listed : (c : Code) → Listed c all_codes → is_member c ≡ true
member_of_Listed (Code.other n) h = ground arith
member_of_Listed Code.canceled h = refl
member_of_Listed _ h = refl

pub code_from_string-code_to_string :
    (c : Code) → is_member c ≡ true → code_from_string (code_to_string c) ≡ some c
unfolding code_from_string code_to_string
code_from_string-code_to_string (Code.other n) h = cc
code_from_string-code_to_string Code.canceled h = refl
code_from_string-code_to_string _ h = refl

-- codeFromString reads a text as a code exactly if the code is a member of the enumeration and
-- codeToString prints it as that text.
pub code_from_string_iff :
    (s : String) (c : Code)
    → (code_from_string s ≡ some c) ↔ ((is_member c ≡ true) × (code_to_string c ≡ s))
code_from_string_iff s c = (to, λ (m, e). subst_name m e)
  where
    to : code_from_string s ≡ some c → (is_member c ≡ true) × (code_to_string c ≡ s)
    to h =
        let (l, e) = find_string_sound all_codes s c (unfold code_from_string in h) in
        (member_of_Listed c l, e)

    subst_name : is_member c ≡ true → code_to_string c ≡ s → code_from_string s ≡ some c
    subst_name m e = rw (← e) (code_from_string-code_to_string c m)

-- The codes that survive the way through an HTTP status of the Triple protocol.
abbrev pub survives : Code → Bool
survives Code.unknown = true
survives Code.invalid_argument = true
survives Code.deadline_exceeded = true
survives Code.permission_denied = true
survives Code.failed_precondition = true
survives Code.aborted = true
survives Code.unimplemented = true
survives Code.unavailable = true
survives Code.unauthenticated = true
survives _ = false

-- A code comes back from the HTTP status that stands for it exactly if it is one of unknown,
-- invalid_argument, deadline_exceeded, permission_denied, failed_precondition, aborted,
-- unimplemented, unavailable and unauthenticated.
pub code_from_http_status-code_to_http_status :
    (c : Code) → (code_from_http_status (code_to_http_status c) ≡ c) ↔ (survives c ≡ true)
unfolding code_from_http_status code_to_http_status
code_from_http_status-code_to_http_status (Code.other n) = ground arith
code_from_http_status-code_to_http_status Code.canceled = ground arith
code_from_http_status-code_to_http_status _ = ground arith

pub code_to_http_status_bounds :
    (c : Code) → (400 ≤ code_to_http_status c) × (code_to_http_status c ≤ 503)
unfolding code_to_http_status
code_to_http_status_bounds (Code.other n) = omega arith
code_to_http_status_bounds Code.canceled = omega arith
code_to_http_status_bounds _ = omega arith

-- The statuses that the two protocols read alike.
abbrev pub Agreeing : ℕ → Type 0
Agreeing status =
    (status ≢ 400)
    × (status ≢ 408)
    × (status ≢ 409)
    × (status ≢ 412)
    × (status ≢ 413)
    × (status ≢ 415)
    × (status ≢ 431)

-- The gRPC and the Triple protocol read a status as the same code exactly if it is none of 400,
-- 408, 409, 412, 413, 415 and 431.
pub grpc_code_from_http_status_iff :
    (status : ℕ)
    → (grpc_code_from_http_status status ≡ code_from_http_status status) ↔ Agreeing status
unfolding grpc_code_from_http_status code_from_http_status
grpc_code_from_http_status_iff status = ground arith
