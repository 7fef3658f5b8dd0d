-- ===== src/Error.antt =====
-- packages/dubbo/src/code.ts, dubbo-error.ts and protocol-triple/code-string.ts: the error codes,
-- the error class, what a `catch` clause receives, and the outcome of code that may throw.
-- The `cause` of an error, which the sources hand to loggers only, is left out. A code is a
-- number in the source, and one that was read from a message may lie outside of the enumeration.
pub mod Codes
pub mod CodeString
pub mod HttpStatus
pub mod Identity
mod Tests
use node_dubbo.Prelude.{ℕ, ◌≡◌, refl, arith, String, List, [], ◌+++◌, str_eq, if◌then◌else◌}
use node_dubbo.Headers.{Headers}
use CodeString.{code_to_string}
pub use Codes.{Code}
unfoldable pub use Codes.{code_number, code_of_number, is_member}

-- A detail is a message of the protobuf library (its type name and `toBinary()`), or a decoded
-- `google.protobuf.Any`.
pub data Detail : Type 0 where
  outgoing : String → List ℕ → Detail
  incoming : String → List ℕ → Detail

pub record DubboError : Type 0 where
  pub message : String
  pub raw_message : String
  pub code : Code
  pub metadata : Headers
  pub details : List Detail

unfoldable pub create_message : String → Code → String
create_message message code =
    if str_eq message ""
    then "[" +++ (code_to_string code +++ "]")
    else "[" +++ (code_to_string code +++ ("] " +++ message))

-- The constructor of the class.
unfoldable pub new_error : String → Code → Headers → List Detail → DubboError
new_error message code metadata details = record {
  message = create_message message code;
  raw_message = message;
  code = code;
  metadata = metadata;
  details = details;
}

-- `new DubboError(message, code)`.
abbrev pub error : String → Code → DubboError
error message code = new_error message code [] []

-- What is thrown: an error of the class, another `Error` with its name and message, any other
-- value with its text, or (the model's own) a loop that has used up its fuel.
pub data Reason : Type 0 where
  dubbo : DubboError → Reason
  native : String → String → Reason
  other : String → Reason
  out_of_fuel : Reason

-- `DubboError.from` and its deprecated copy `dubboErrorFromReason`.
unfoldable pub from : Reason → Code → DubboError
from (dubbo e) code = e
from (native name message) code =
    if str_eq name "AbortError" then error message Code.canceled else error message code
from (other text) code = error text code
from out_of_fuel code = error "" code

pub data Outcome {ℓ} (A : Type ℓ) : Type ℓ where
  ok : A → Outcome A
  thrown : Reason → Outcome A

-- `await`: what comes next runs with the value, and is skipped by a throw.
infixl 5 ◌>>=◌ ◌>>◌
abbrev pub ◌>>=◌ {ℓ κ} : {A : Type ℓ} {B : Type κ} → Outcome A → (A → Outcome B) → Outcome B
thrown reason >>= k = thrown reason
ok value >>= k = k value

abbrev pub ◌>>◌ {ℓ κ} : {A : Type ℓ} {B : Type κ} → Outcome A → Outcome B → Outcome B
thrown reason >> o = thrown reason
ok value >> o = o

-- `throw new DubboError(message, code)`.
abbrev pub raise {ℓ} : {A : Type ℓ} → String → Code → Outcome A
raise message code = thrown (dubbo (error message code))

-- A sequence that does not throw has a first part that does not.
pub >>=-eq-ok {ℓ κ} :
    {B : Type κ} {A : Type ℓ} {y : B} (o : Outcome A) (k : A → Outcome B)
    → (o >>= k) ≡ ok y
    → (x : A) × (o ≡ ok x) × (k x ≡ ok y)
>>=-eq-ok (thrown reason) k run = cc
>>=-eq-ok (ok value) k run = (value, refl, run)

pub ok_injective {ℓ} : {A : Type ℓ} (a b : A) → ok a ≡ ok b → a ≡ b
ok_injective a b h = ground arith
