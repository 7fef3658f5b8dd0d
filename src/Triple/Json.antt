-- ===== src/Triple/Json.antt =====
-- `JsonValue`, as `JSON.parse` gives it. A number that is not a natural one is told apart only.
use node_dubbo.Prelude.{ℕ, Bool, true, false, String, Option, none, some, str_eq, if◌then◌else◌}
use node_dubbo.ByteArray.{Bytes}
use node_dubbo.Error.{Outcome}

mutual
  pub data Json : Type 0 where
    null : Json
    boolean : Bool → Json
    natural : ℕ → Json
    number : String → Json
    text : String → Json
    array : Elements → Json
    object : Fields → Json

  pub data Elements : Type 0 where
    no_elements : Elements
    element : Json → Elements → Elements

  pub data Fields : Type 0 where
    no_fields : Fields
    field : String → Json → Fields → Fields

-- `o[key]`, `none` if `key in o` is false.
unfoldable pub lookup : String → Fields → Option Json
lookup key no_fields = none
lookup key (field k v fields) =
    let found = lookup key fields in if str_eq k key then some v else found

-- `typeof v == "object"`.
unfoldable pub is_object : Json → Bool
is_object null = true
is_object (boolean b) = false
is_object (natural n) = false
is_object (number s) = false
is_object (text s) = false
is_object (array xs) = true
is_object (object members) = true

-- What the sources use of the platform and of @bufbuild/protobuf: `JSON.stringify` and `JSON.parse`
-- with the coding of texts, and `protoBase64`.
pub record JsonCoding : Type 0 where
  pub stringify : Json → Bytes
  pub parse : Bytes → Outcome Json
  pub base64_enc : Bytes → String
  pub base64_dec : String → Outcome Bytes
