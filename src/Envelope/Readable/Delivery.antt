-- ===== src/Envelope/Readable/Delivery.antt =====
-- What createEnvelopeReadableStream reads, whatever the chunks are.
use node_dubbo.Prelude.{
  ℕ, zero, suc, ◌<◌, ◌≡◌, refl, sym, ap, ◌∙◌, inl, List, [], ◌∷◌, ◌++◌, append_assoc, append-nil,
  none, length, length-append, take, take-append_self, drop-append_self, arith, All,
}
use node_dubbo.ByteArray.{Bytes, set_uint32}
use node_dubbo.Stream.{Stream, finished, yields, before}
use node_dubbo.Envelope.{EnvelopedMessage}
use node_dubbo.Envelope.Encoding.{frame, frames}
use node_dubbo.Envelope.Readable.{
  closed, read_header, is_complete, enqueued, enqueue, pull, messages,
  create_envelope_readable_stream,
}
use node_dubbo.Iterable.Split.Chunks.{joined}
use node_dubbo.Envelope.Readable.Pull.{head_bytes, pull-head_bytes}

-- What this reader can take: four bytes of length without the sign.
abbrev pub FitsSigned : EnvelopedMessage → Type 0
FitsSigned e = (e.flags < 256) × (length e.payload < 2147483648)

frame-head_bytes :
    (e : EnvelopedMessage) (rest : Bytes)
    → e.flags < 256
    → frame e.flags e.payload ++ rest ≡ head_bytes e.flags (length e.payload) (e.payload ++ rest)
unfolding set_uint32
frame-head_bytes e rest h =
    ap (λ (f : ℕ). f ∷ (set_uint32 (length e.payload) ++ (e.payload ++ rest))) (omega arith)

-- Fuel for some messages, and some more.
abbrev pub fuel_for : List EnvelopedMessage → ℕ → ℕ
fuel_for [] more = more
fuel_for (e ∷ es) more = suc (fuel_for es more)

pub enough_fuel :
    (es : List EnvelopedMessage) (fuel : ℕ)
    → length es < fuel
    → (more : ℕ) × (fuel ≡ fuel_for es (suc more))
enough_fuel [] zero h = absurd (omega arith)
enough_fuel [] (suc fuel) h = (fuel, refl)
enough_fuel (e ∷ es) zero h = absurd (omega arith)
enough_fuel (e ∷ es) (suc fuel) h =
    let (more, same) = enough_fuel es fuel (omega arith) in (more, ap suc same)

pub messages-pull :
    (more : ℕ) (b : Bytes) (s : Stream Bytes) (env : EnvelopedMessage) (b' : Bytes)
    (s' : Stream Bytes)
    → pull none b s ≡ enqueued env b' s'
    → messages (suc more) b s ≡ yields env (messages more b' s')
unfolding messages
messages-pull more b s env b' s' h = rw (h, messages) refl

-- The messages are read one by one, and what is behind them is left.
pub messages-frames :
    (es : List EnvelopedMessage) (more : ℕ) (b tail : Bytes) (cs : List Bytes)
    → All FitsSigned es
    → b ++ joined cs ≡ frames es ++ tail
    → (b' : Bytes) × (cs' : List Bytes) × (messages (fuel_for es more) b (before cs finished)
        ≡ before es (messages more b' (before cs' finished)))
      × (b' ++ joined cs' ≡ tail)
messages-frames [] more b tail cs fits whole = (b, cs, refl, whole)
messages-frames (e ∷ es) more b tail cs ((hf, hp), fits) whole =
    let k = length e.payload in
    let q = e.payload ++ (frames es ++ tail) in
    let at : b ++ joined cs ≡ head_bytes e.flags k q =
      whole
      ∙ append_assoc (frame e.flags e.payload) (frames es) tail
      ∙ frame-head_bytes e (frames es ++ tail) hf in
    let (b', cs', pulled, left) =
      pull-head_bytes e.flags k hp cs none b q (inl refl) at
        (omega (arith, length-append e.payload (frames es ++ tail))) in
    let (b'', cs'', read, rest) =
      messages-frames es more b' tail cs' fits
        (left ∙ drop-append_self e.payload (frames es ++ tail)) in
    (
      b'',
      cs'',
      messages-pull (fuel_for es more) b (before cs finished)
            (record { flags = e.flags; payload = take k q }) b' (before cs' finished) pulled
          ∙ ap
              (λ p.
                yields (record { flags = e.flags; payload = p })
                  (messages (fuel_for es more) b' (before cs' finished)))
              (take-append_self e.payload (frames es ++ tail))
          ∙ ap (yields e) read,
      rest,
    )

pull-nothing : (cs : List Bytes) → joined cs ≡ [] → pull none [] (before cs finished) ≡ closed
unfolding pull read_header enqueue is_complete
pull-nothing [] h = refl
pull-nothing ([] ∷ cs) h = pull-nothing cs h
pull-nothing ((x ∷ c) ∷ cs) h = cc

pub messages-nothing :
    (more : ℕ) (b : Bytes) (cs : List Bytes)
    → b ++ joined cs ≡ []
    → messages (suc more) b (before cs finished) ≡ finished
unfolding messages
messages-nothing more [] cs h = rw (pull-nothing cs h, messages) refl
messages-nothing more (x ∷ b) cs h = cc

-- If the chunks of the source together hold the frames of some messages,
-- createEnvelopeReadableStream gives a reader these messages in their order, and then closes, with
-- fuel for one pull more than there are messages. The flags of each are one byte, and its payload
-- is shorter than 2 ^ 31.
pub create_envelope_readable_stream-frames :
    (es : List EnvelopedMessage) (cs : List Bytes) (fuel : ℕ)
    → All FitsSigned es
    → joined cs ≡ frames es
    → length es < fuel
    → create_envelope_readable_stream fuel (before cs finished) ≡ before es finished
unfolding create_envelope_readable_stream
create_envelope_readable_stream-frames es cs fuel fits whole enough =
    let (more, same) = enough_fuel es fuel enough in
    let (b', cs', read, rest) =
      messages-frames es (suc more) [] [] cs fits (whole ∙ sym (append-nil (frames es))) in
    ap (λ n. messages n [] (before cs finished)) same
    ∙ read
    ∙ ap (before es) (messages-nothing more b' cs' rest)
