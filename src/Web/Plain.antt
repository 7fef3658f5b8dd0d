-- ===== src/Web/Plain.antt =====
-- What a server sends without compression, read by createEnvelopeReadableStream.
use node_dubbo.Prelude.{
  refl, ℕ, ◌<◌, ◌≤◌, ◌≡◌, sym, ap, ◌∙◌, List, [], ◌∷◌, none, length, arith, All,
}
use node_dubbo.ByteArray.{Bytes}
use node_dubbo.Error.{Outcome, ok}
use node_dubbo.Stream.{Stream, finished, raised, yields, values, before}
use node_dubbo.Envelope.{EnvelopedMessage, envelope_compress}
use node_dubbo.Envelope.Encoding.{encode_envelopes_lem}
use node_dubbo.Envelope.Readable.{create_envelope_readable_stream}
use node_dubbo.Envelope.Readable.Delivery.{FitsSigned, create_envelope_readable_stream-frames}
use node_dubbo.Iterable.{
  Serialization, Parsed, map_or_raise, transform_serialize_parsed, transform_parse_envelope,
  transform_compress_envelope, transform_join_envelopes,
}
use node_dubbo.Iterable.Inverse.{AllOf, map_stream, map_stream_same, map_or_raise_back}
use node_dubbo.Iterable.Split.Chunks.{joined}
use node_dubbo.Pipeline.{
  ReadsBack, ReadsAs, Flag, seen_item, ItemFits, send, send_envelopes, parse-serialize,
  transform_join_envelopes-values,
}

AllOf-tt {ℓ} : {A : Type ℓ} (s : Stream A) → AllOf (λ x. Unit {0}) s
AllOf-tt finished = tt
AllOf-tt (raised e) = tt
AllOf-tt (yields x s) = (tt, AllOf-tt s)

map_or_raise-ok {ℓ} : {A : Type ℓ} (s : Stream A) → map_or_raise (λ (x : A). ok x) s ≡ s
unfolding map_or_raise
map_or_raise-ok finished = refl
map_or_raise-ok (raised e) = refl
map_or_raise-ok (yields x s) = ap (yields x) (map_or_raise-ok s)

same_envelope :
    (e y : EnvelopedMessage) (min : ℕ)
    → envelope_compress e none min ≡ ok y
    → ◌≡◌ {A = Outcome EnvelopedMessage} (ok y) (ok e)
unfolding envelope_compress
same_envelope e y min h = ground arith

-- Without a compression the envelopes are sent as they are.
pub uncompressed :
    (min : ℕ) (s : Stream EnvelopedMessage) (sent : List EnvelopedMessage)
    → transform_compress_envelope none min s ≡ before sent finished
    → s ≡ before sent finished
unfolding transform_compress_envelope
uncompressed min s sent h =
    let (_, back) =
      map_or_raise_back (λ e. envelope_compress e none min) (λ e. ok e) (λ e. Unit {0})
        (λ e. Unit {0}) (λ e. e) (λ e y u run. (tt, same_envelope e y min run)) s sent (AllOf-tt s)
        h in
    sym (map_stream_same s) ∙ sym back ∙ map_or_raise-ok (before sent finished)

All-FitsSigned :
    (es : List EnvelopedMessage)
    → All (λ e. (e.flags < 256) × (length e.payload ≤ 2147483647)) es
    → All FitsSigned es
All-FitsSigned [] h = tt
All-FitsSigned (e ∷ es) ((f, l), h) = ((f, omega arith), All-FitsSigned es h)

module _ {ℓ κ} {T : Type ℓ} {E : Type κ} (z : Serialization T) (flag : ℕ) (end_z : Serialization E)
    (seen : E → E) where
  pub received-send :
      (min : ℕ) (s : Stream (Parsed T E)) (sent : List EnvelopedMessage) (cs : List Bytes)
      (fuel : ℕ)
      → ReadsBack z
      → ReadsAs end_z seen
      → Flag flag
      → AllOf (ItemFits z flag end_z none 2147483647) s
      → send_envelopes z flag end_z none min s ≡ before sent finished
      → joined cs ≡ joined (values (send z flag end_z none min s))
      → length sent < fuel
      → (create_envelope_readable_stream fuel (before cs finished) ≡ before sent finished)
        × (transform_parse_envelope z flag end_z (before sent finished)
            ≡ map_stream (seen_item seen) s)
  unfolding send send_envelopes
  received-send min s sent cs fuel rz re ff items sends same enough =
      let serialized = uncompressed min (transform_serialize_parsed z flag end_z s) sent sends in
      let (fits, parsed) =
        parse-serialize z flag end_z none seen rz re ff 2147483647 s sent items serialized in
      let wire =
        same
        ∙ ap (λ t. joined (values (transform_join_envelopes t))) sends
        ∙ transform_join_envelopes-values sent
        ∙ encode_envelopes_lem sent in
      (
        create_envelope_readable_stream-frames sent cs fuel (All-FitsSigned sent fits) wire enough,
        parsed,
      )
