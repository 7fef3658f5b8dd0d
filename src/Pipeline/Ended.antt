-- ===== src/Pipeline/Ended.antt =====
-- Outputs with an end-of-stream message behind them, as the handlers of protocol-triple and
-- protocol-grpc-web send them: transformSerializeEnvelope, and transformCatchFinally with the
-- message that tells how the outputs have ended.
use node_dubbo.Prelude.{◌≡◌, refl, ap, Option, none, some, ℕ}
use node_dubbo.ByteArray.{Bytes}
use node_dubbo.Error.{Reason, Outcome, ok, thrown, ◌>>=◌}
use node_dubbo.Stream.{Stream, finished, raised, yields, yields_or_raises}
use node_dubbo.Envelope.{EnvelopedMessage}
use Prim.Native.Nat.{bit_or}
use node_dubbo.Iterable.{
  Serialization, Parsed, item, end_item, map_or_raise, yields_optional, serialize_item,
  transform_serialize_envelope, serialize_parsed, transform_serialize_parsed,
  transform_catch_finally,
}

module _ {ℓ κ} {O : Type ℓ} {E : Type κ} (z : Serialization O) (flag : ℕ) (end_z : Serialization E)
    (end_value : Option Reason → Outcome E) where
  abbrev pub ended : Option Reason → Stream (Parsed O E)
  ended e = yields_or_raises (end_value e >>= (λ v. ok (end_item v))) finished

  abbrev pub after : O → Outcome Bytes → Stream (Parsed O E) → Stream (Parsed O E)
  after value (thrown e) s = ended (some e)
  after value (ok bytes) s = yields (item value) s

  -- The outputs up to the first one that cannot be serialized, and then the end-of-stream message.
  abbrev pub sent_items : Stream O → Stream (Parsed O E)
  sent_items (yields value s) = after value (z.serialize value) (sent_items s)
  sent_items (raised e) = ended (some e)
  sent_items finished = ended none

  -- The end-of-stream message as `catchFinally` gives it.
  abbrev pub end_message : Option Reason → Outcome (Option EnvelopedMessage)
  end_message e = do
    value ← end_value e
    payload ← end_z.serialize value
    ok (some (record { flags = flag; payload = payload }))

  module _ (plain : bit_or 0 flag ≡ flag) where
    end_step :
        (o : Outcome E)
        → yields_optional {A = EnvelopedMessage}
            (o >>= (λ v.
              end_z.serialize v >>= (λ p. ok (some (record { flags = flag; payload = p })))))
            finished
          ≡ transform_serialize_parsed z flag end_z
              (yields_or_raises (o >>= (λ v. ok (end_item v))) finished)
    unfolding transform_serialize_parsed map_or_raise serialize_parsed
    end_step (thrown e) = refl
    end_step (ok v) = rw plain (last (end_z.serialize v))
      where
        last :
            (o : Outcome Bytes)
            → yields_optional {A = EnvelopedMessage}
                (o >>= (λ p. ok (some (record { flags = flag; payload = p }))))
                finished
              ≡ yields_or_raises {A = EnvelopedMessage}
                  (o >>= (λ p. ok (record { flags = flag; payload = p })))
                  finished
        last (ok p) = refl
        last (thrown e) = refl

    value_step :
        (value : O) (o : Outcome Bytes) (s : Stream O) (items : Stream (Parsed O E))
        → z.serialize value ≡ o
        → transform_catch_finally end_message (transform_serialize_envelope z s)
          ≡ transform_serialize_parsed z flag end_z items
        → transform_catch_finally end_message (transform_serialize_envelope z (yields value s))
          ≡ transform_serialize_parsed z flag end_z (after value o items)
    unfolding transform_serialize_envelope transform_catch_finally map_or_raise
        transform_serialize_parsed serialize_parsed serialize_item
    value_step value (thrown e) s items h same = rw h (end_step (end_value (some e)))
    value_step value (ok bytes) s items h same =
        let env : EnvelopedMessage = record { flags = 0; payload = bytes } in
        rw h (ap (λ t. yields env t) same)

    pub serialized :
        (s : Stream O)
        → transform_catch_finally end_message (transform_serialize_envelope z s)
          ≡ transform_serialize_parsed z flag end_z (sent_items s)
    unfolding transform_serialize_envelope transform_catch_finally map_or_raise
    serialized (yields value s) =
        value_step value (z.serialize value) s (sent_items s) refl (serialized s)
    serialized (raised e) = end_step (end_value (some e))
    serialized finished = end_step (end_value none)
