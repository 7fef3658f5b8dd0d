-- ===== src/Error/Codes.antt =====
-- packages/dubbo/src/code.ts: the enumeration, its numbers, and which numbers are its members.
use node_dubbo.Prelude.{ℕ, Bool, true, false, ◌==◌, if◌then◌else◌, List, [], ◌∷◌}

-- `other n` is a number that the enumeration does not have.
pub data Code : Type 0 where
  canceled unknown invalid_argument deadline_exceeded not_found already_exists : Code
  permission_denied resource_exhausted failed_precondition aborted out_of_range : Code
  unimplemented internal unavailable data_loss unauthenticated : Code
  other : ℕ → Code

unfoldable pub code_number : Code → ℕ
code_number canceled = 1
code_number unknown = 2
code_number invalid_argument = 3
code_number deadline_exceeded = 4
code_number not_found = 5
code_number already_exists = 6
code_number permission_denied = 7
code_number resource_exhausted = 8
code_number failed_precondition = 9
code_number aborted = 10
code_number out_of_range = 11
code_number unimplemented = 12
code_number internal = 13
code_number unavailable = 14
code_number data_loss = 15
code_number unauthenticated = 16
code_number (other n) = n

-- `Object.values(Code)`, the numbers among them, in the order of the declaration.
abbrev pub all_codes : List Code
all_codes =
    canceled ∷ unknown ∷ invalid_argument ∷ deadline_exceeded ∷ not_found ∷ already_exists
    ∷ permission_denied ∷ resource_exhausted ∷ failed_precondition ∷ aborted ∷ out_of_range
    ∷ unimplemented ∷ internal ∷ unavailable ∷ data_loss ∷ unauthenticated ∷ []

-- The member with a number, `other` if there is none.
find_number : List Code → ℕ → Code
find_number [] n = other n
find_number (c ∷ cs) n = let rest = find_number cs n in if code_number c == n then c else rest

unfoldable pub code_of_number : ℕ → Code
unfolding find_number code_number
code_of_number n = find_number all_codes n

-- `code in Code`.
abbrev pub is_member : Code → Bool
is_member (other n) = false
is_member _ = true
