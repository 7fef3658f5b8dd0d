-- ===== src/Error/CodeString.antt =====
-- packages/dubbo/src/protocol-triple/code-string.ts: codes as texts in snake_case.
use node_dubbo.Prelude.{
  String, List, [], ◌∷◌, Option, none, some, ◌+++◌, decimal, str_eq, if◌then◌else◌, leb, ◌&&◌,
  lower_char, single,
}
use Prim.Native.Char.{code}
use node_dubbo.Error.Codes.{Code, all_codes}

-- `Code[value]`, the name of a member.
enum_name : Code → String
enum_name Code.canceled = "Canceled"
enum_name Code.unknown = "Unknown"
enum_name Code.invalid_argument = "InvalidArgument"
enum_name Code.deadline_exceeded = "DeadlineExceeded"
enum_name Code.not_found = "NotFound"
enum_name Code.already_exists = "AlreadyExists"
enum_name Code.permission_denied = "PermissionDenied"
enum_name Code.resource_exhausted = "ResourceExhausted"
enum_name Code.failed_precondition = "FailedPrecondition"
enum_name Code.aborted = "Aborted"
enum_name Code.out_of_range = "OutOfRange"
enum_name Code.unimplemented = "Unimplemented"
enum_name Code.internal = "Internal"
enum_name Code.unavailable = "Unavailable"
enum_name Code.data_loss = "DataLoss"
enum_name Code.unauthenticated = "Unauthenticated"
enum_name (Code.other n) = ""

-- `.replace(/[A-Z]/g, (c) => "_" + c.toLowerCase())`.
snake : String → String
snake String.[] = ""
snake (String.◌∷◌ c s) =
    let rest = snake s in
    if leb b'A' (code c) && leb (code c) b'Z'
    then "_" +++ (single (lower_char c) +++ rest)
    else String.◌∷◌ c rest

snake_name : String → String
snake_name String.[] = ""
snake_name (String.◌∷◌ c s) = String.◌∷◌ (lower_char c) (snake s)

unfoldable pub code_to_string : Code → String
unfolding enum_name snake snake_name lower_char
code_to_string (Code.other n) = decimal n
code_to_string c = snake_name (enum_name c)

-- The table `stringToCode`, read at a text: the last member with that text would win, and no two
-- have the same. The names that the table inherits from `Object.prototype` are left out.
unfoldable pub find_string : List Code → String → Option Code
find_string [] value = none
find_string (c ∷ cs) value =
    let rest = find_string cs value in if str_eq (code_to_string c) value then some c else rest

unfoldable pub code_from_string : String → Option Code
unfolding find_string
code_from_string value = find_string all_codes value
