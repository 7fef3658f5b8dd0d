-- ===== src/Iterable.antt =====
-- packages/dubbo/src/protocol/async-iterable.ts: the transforms that are pure pipes. A transform
-- that evaluates its argument function at the end of the stream takes the outcome of that call.
pub mod Writable
pub mod Cut
pub mod Split
pub mod ReadAll
pub mod Inverse
use node_dubbo.Prelude.{ℕ, Bool, true, false, List, [], ◌∷◌, Option, none, some, if◌then◌else◌}
use Prim.Native.Nat.{bit_or}
use node_dubbo.ByteArray.{Bytes}
use node_dubbo.Error.{Code, Reason, dubbo, error, Outcome, ok, thrown, ◌>>=◌}
use node_dubbo.Stream.{Stream, finished, raised, yields, yields_or_raises}
use node_dubbo.Envelope.{
  EnvelopedMessage, Compression, has_flag, envelope_compress, envelope_decompress, encode_envelope,
}

-- `Serialization` of protocol/serialization.ts.
pub record Serialization {ℓ} (T : Type ℓ) : Type ℓ where
  pub serialize : T → Outcome Bytes
  pub parse : Bytes → Outcome T

-- `ParsedEnvelopedMessage`: a message, or the end-of-stream message.
pub data Parsed {ℓ κ} (T : Type ℓ) (E : Type κ) : Type (ℓ ⊔ κ) where
  item : T → Parsed T E
  end_item : E → Parsed T E

-- Yields what a `catchError`, `catchFinally`, `append` or `prepend` function returns, if it is
-- not `undefined`, then goes on.
abbrev pub yields_optional {ℓ} : {A : Type ℓ} → Outcome (Option A) → Stream A → Stream A
yields_optional (ok none) s = s
yields_optional (ok (some a)) s = yields a s
yields_optional (thrown e) s = raised e

module _ {ℓ} {A : Type ℓ} where
  unfoldable pub transform_catch : (Reason → Outcome (Option A)) → Stream A → Stream A
  transform_catch catch_error finished = finished
  transform_catch catch_error (raised e) = yields_optional (catch_error e) finished
  transform_catch catch_error (yields x s) = yields x (transform_catch catch_error s)

  unfoldable pub transform_catch_finally :
      (Option Reason → Outcome (Option A)) → Stream A → Stream A
  transform_catch_finally catch_finally finished = yields_optional (catch_finally none) finished
  transform_catch_finally catch_finally (raised e) =
      yields_optional (catch_finally (some e)) finished
  transform_catch_finally catch_finally (yields x s) =
      yields x (transform_catch_finally catch_finally s)

  unfoldable pub transform_append : Outcome (Option A) → Stream A → Stream A
  transform_append provide finished = yields_optional provide finished
  transform_append provide (raised e) = raised e
  transform_append provide (yields x s) = yields x (transform_append provide s)

  unfoldable pub transform_prepend : Outcome (Option A) → Stream A → Stream A
  transform_prepend provide s = yields_optional provide s

module _ {ℓ κ} {A : Type ℓ} {B : Type κ} where
  -- `for await (const x of iterable) yield f(x)`, where `f` may throw.
  unfoldable pub map_or_raise : (A → Outcome B) → Stream A → Stream B
  map_or_raise f finished = finished
  map_or_raise f (raised e) = raised e
  map_or_raise f (yields x s) = yields_or_raises (f x) (map_or_raise f s)

-- `flags !== undefined && (flags & endStreamFlag) === endStreamFlag`.
abbrev pub is_end : Option ℕ → ℕ → Bool
is_end none flags = false
is_end (some flag) flags = has_flag flags flag

module _ {ℓ} {T : Type ℓ} where
  -- transformSerializeEnvelope without an end flag.
  unfoldable pub serialize_item : Serialization T → T → Outcome EnvelopedMessage
  serialize_item serialization chunk = do
    payload ← serialization.serialize chunk
    ok (record { flags = 0; payload = payload })

  unfoldable pub transform_serialize_envelope : Serialization T → Stream T → Stream EnvelopedMessage
  unfolding serialize_item
  transform_serialize_envelope serialization s = map_or_raise (serialize_item serialization) s

  -- transformParseEnvelope where it yields messages: with an end flag it skips the end-of-stream
  -- message, or throws if the end serialization is `null`.
  unfoldable pub transform_parse_messages :
      Serialization T → Option ℕ → Bool → Stream EnvelopedMessage → Stream T
  transform_parse_messages serialization flag null_end finished = finished
  transform_parse_messages serialization flag null_end (raised e) = raised e
  transform_parse_messages serialization flag null_end (yields env s) =
      let rest = transform_parse_messages serialization flag null_end s in
      if is_end flag env.flags
      then if null_end
        then raised (dubbo (error "unexpected end flag" Code.invalid_argument))
        else rest
      else yields_or_raises (serialization.parse env.payload) rest

module _ {ℓ κ} {T : Type ℓ} {E : Type κ} where
  -- transformSerializeEnvelope with an end flag.
  unfoldable pub serialize_parsed :
      Serialization T → ℕ → Serialization E → Parsed T E → Outcome EnvelopedMessage
  serialize_parsed serialization flag end_serialization (item value) = do
    payload ← serialization.serialize value
    ok (record { flags = 0; payload = payload })
  serialize_parsed serialization flag end_serialization (end_item value) = do
    payload ← end_serialization.serialize value
    ok (record { flags = bit_or 0 flag; payload = payload })

  unfoldable pub transform_serialize_parsed :
      Serialization T → ℕ → Serialization E → Stream (Parsed T E) → Stream EnvelopedMessage
  unfolding serialize_parsed
  transform_serialize_parsed serialization flag end_serialization s =
      map_or_raise (serialize_parsed serialization flag end_serialization) s

  -- transformParseEnvelope where it yields messages and end-of-stream messages.
  unfoldable pub parse_item :
      Serialization T → ℕ → Serialization E → EnvelopedMessage → Outcome (Parsed T E)
  parse_item serialization flag end_serialization env =
      if has_flag env.flags flag
      then end_serialization.parse env.payload >>= (λ v. ok (end_item v))
      else serialization.parse env.payload >>= (λ v. ok (item v))

  unfoldable pub transform_parse_envelope :
      Serialization T → ℕ → Serialization E → Stream EnvelopedMessage → Stream (Parsed T E)
  unfolding parse_item
  transform_parse_envelope serialization flag end_serialization s =
      map_or_raise (parse_item serialization flag end_serialization) s

unfoldable pub transform_compress_envelope :
    Option Compression → ℕ → Stream EnvelopedMessage → Stream EnvelopedMessage
transform_compress_envelope compression compress_min_bytes s =
    map_or_raise (λ env. envelope_compress env compression compress_min_bytes) s

unfoldable pub transform_decompress_envelope :
    Option Compression → ℕ → Stream EnvelopedMessage → Stream EnvelopedMessage
transform_decompress_envelope compression read_max_bytes s =
    map_or_raise (λ env. envelope_decompress env compression read_max_bytes) s

unfoldable pub transform_join_envelopes : Stream EnvelopedMessage → Stream Bytes
transform_join_envelopes s = map_or_raise (λ env. ok (encode_envelope env.flags env.payload)) s
