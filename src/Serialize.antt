-- ===== src/Serialize.antt =====
-- packages/dubbo/src/protocol/serialization.ts: serializations that keep to the limits, and the
-- four of them for a method.
use node_dubbo.Prelude.{◌≤◌, ◌≡◌, subst, ◌∙◌, Bool, true, length, arith, if◌then◌else◌}
use node_dubbo.ByteArray.{Bytes}
use node_dubbo.Error.{Outcome, ok, ◌>>=◌, ◌>>◌, >>=-eq-ok}
use node_dubbo.Limits.{IoLimits, assert_read_max_bytes, assert_write_max_bytes}
use node_dubbo.Limits.Bounds.{assert_write_max_bytes_iff}
use node_dubbo.Iterable.{Serialization}
use node_dubbo.Pipeline.{ReadsBack}

-- `MethodSerializationLookup`.
pub record Lookup {ℓ κ} (I : Type ℓ) (O : Type κ) : Type (ℓ ⊔ κ) where
  pub get_i : Bool → Serialization I
  pub get_o : Bool → Serialization O

module _ {ℓ} {T : Type ℓ} (serialization : Serialization T) (limits : IoLimits) where
  unfoldable pub write_limited : Bytes → Outcome Bytes
  write_limited bytes = assert_write_max_bytes (limits.write_max_bytes) (length bytes) >> ok bytes

  read_limited : Bytes → Outcome T
  read_limited bytes =
      assert_read_max_bytes (limits.read_max_bytes) (length bytes) true >> serialization.parse bytes

  unfoldable pub limit_serialization : Serialization T
  unfolding write_limited read_limited
  limit_serialization = record {
    serialize = λ value. serialization.serialize value >>= write_limited;
    parse = λ bytes. read_limited bytes;
  }

  write_limited-eq-ok :
      (bytes sent : Bytes)
      → write_limited bytes ≡ ok sent
      → (bytes ≡ sent) × (length bytes ≤ limits.write_max_bytes)
  unfolding write_limited
  write_limited-eq-ok bytes sent h =
      ground (arith, assert_write_max_bytes_iff (limits.write_max_bytes) (length bytes))

  read_limited_within :
      (bytes : Bytes)
      → length bytes ≤ limits.read_max_bytes
      → read_limited bytes ≡ serialization.parse bytes
  unfolding read_limited assert_read_max_bytes
  read_limited_within bytes h = ground arith

module _ {ℓ κ} {I : Type ℓ} {O : Type κ} (input_binary input_json : Serialization I)
    (output_binary output_json : Serialization O) where
  -- The serializations of @bufbuild/protobuf, in binary and in JSON, are parameters.
  unfoldable pub create_method_serialization_lookup : IoLimits → Lookup I O
  unfolding limit_serialization
  create_method_serialization_lookup limits = record {
    get_i = λ binary.
        if binary
        then limit_serialization input_binary limits
        else limit_serialization input_json limits;
    get_o = λ binary.
        if binary
        then limit_serialization output_binary limits
        else limit_serialization output_json limits;
  }

-- What a limited serialization writes is within the write limit, and if that is not above the read
-- limit, a limited serialization reads back what it writes whenever the one beneath it does.
limit_serialization-ReadsBack {ℓ} :
    {T : Type ℓ} (serialization : Serialization T) (limits : IoLimits) (value : T) (bytes : Bytes)
    → limits.write_max_bytes ≤ limits.read_max_bytes
    → ReadsBack serialization
    → (limit_serialization serialization limits).serialize value ≡ ok bytes
    → (length bytes ≤ limits.write_max_bytes)
      × ((limit_serialization serialization limits).parse bytes ≡ ok value)
unfolding limit_serialization
limit_serialization-ReadsBack serialization limits value bytes order back h =
    let (written, run, kept) = >>=-eq-ok (serialization.serialize value) _ h in
    let (same, within) = write_limited-eq-ok serialization limits written bytes kept in
    (
      subst (λ b. length b ≤ limits.write_max_bytes) same within,
      read_limited_within serialization limits bytes
            (omega (arith, subst (λ b. length b ≤ limits.write_max_bytes) same within))
          ∙ subst (λ b. serialization.parse b ≡ ok value) same (back value written run),
    )
