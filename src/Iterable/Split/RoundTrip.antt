-- ===== src/Iterable/Split/RoundTrip.antt =====
-- transformSplitEnvelope reads back what encodeEnvelopes and transformJoinEnvelopes write.
use node_dubbo.Prelude.{
  ℕ, zero, suc, ◌+◌, ◌-◌, ◌≤◌, ◌<◌, ◌≡◌, ◌≢◌, refl, sym, ap, ◌∙◌, List, [], ◌∷◌, ◌++◌, append_assoc,
  append-nil, length, length-append, take-append_self, drop-append_self, arith, some, All, inl, inr,
}
use node_dubbo.ByteArray.{Bytes, get_uint32-set_uint32, set_uint32}
use node_dubbo.Stream.{Stream, finished, raised, yields, before}
use node_dubbo.Envelope.{EnvelopedMessage, encode_envelopes}
use node_dubbo.Envelope.Encoding.{frame, frames, length-frame, encode_envelopes_lem}
use node_dubbo.Limits.{assert_read_max_bytes}
use node_dubbo.Iterable.Split.{
  peek_header, shift_envelope, round, next, drain, drain_all, continue, split_from,
  transform_split_envelope, stop, incomplete,
}
use node_dubbo.Iterable.Split.Progress.{
  drain-next, drain-stop, Round-cases, round-append_fail, round-append_next, round-stop_same,
}
use node_dubbo.Iterable.Split.Chunks.{joined, transform_split_envelope-chunks}

-- What the wire can carry and the reader accepts.
abbrev pub Fits : ℕ → EnvelopedMessage → Type 0
Fits max e = (e.flags < 256) × (length e.payload ≤ max)

peek_header-frame :
    (flags : ℕ) (p rest : Bytes)
    → flags < 256
    → length p < 4294967296
    → peek_header (frame flags p ++ rest) ≡ some (record { length = length p; flags = flags })
unfolding peek_header set_uint32
peek_header-frame flags p rest hf hp = ground (arith, get_uint32-set_uint32 (length p))

five_more : (n : ℕ) → 5 + n ≡ suc (suc (suc (suc (suc n))))
five_more n = omega arith

minus_five : (n : ℕ) → suc (suc (suc (suc (suc n)))) - 5 ≡ n
minus_five n = omega arith

shift_envelope-frame :
    (flags : ℕ) (p rest : Bytes)
    → shift_envelope (frame flags p ++ rest) (record { length = length p; flags = flags })
      ≡ (some (record { flags = flags; payload = p }), rest)
unfolding shift_envelope set_uint32
shift_envelope-frame flags p rest = rw (five_more (length p)) (
    ground (
      arith,
      length-append p rest,
      take-append_self p rest,
      drop-append_self p rest,
      minus_five (length p),
    ))

round-frame :
    (max : ℕ) (e : EnvelopedMessage) (rest : Bytes)
    → max < 4294967296
    → Fits max e
    → round max (frame e.flags e.payload ++ rest) ≡ next e rest
unfolding round assert_read_max_bytes
round-frame max e rest hm (hf, hp) = ground (
  arith,
  peek_header-frame e.flags e.payload rest hf (omega arith),
  shift_envelope-frame e.flags e.payload rest,
)

drain-frames :
    (f max : ℕ) (es : List EnvelopedMessage) (rest : Bytes) (K : Bytes → Stream EnvelopedMessage)
    → max < 4294967296
    → All (Fits max) es
    → length (frames es ++ rest) < f
    → round max rest ≡ stop rest
    → continue (drain f max (frames es ++ rest)) K ≡ before es (K rest)
drain-frames zero max es rest K hm fits hf settled = absurd (omega arith)
drain-frames (suc f) max [] rest K hm fits hf settled = rw (drain-stop f max rest rest settled)
drain-frames (suc f) max (e ∷ es) rest K hm (fit, fits) hf settled =
    let fr = frame e.flags e.payload in
    rw
      (
        append_assoc fr (frames es) rest,
        drain-next f max (fr ++ (frames es ++ rest)) e (frames es ++ rest)
            (round-frame max e (frames es ++ rest) hm fit),
      )
      (ap (λ s. yields e s)
        (drain-frames f max es rest K hm fits
          (omega (
            arith,
            length-append fr (frames es ++ rest),
            length-frame e.flags e.payload,
            ap length (append_assoc fr (frames es) rest),
          ))
          settled))

split_from-frames :
    (max : ℕ) (es : List EnvelopedMessage) (rest : Bytes) (s : Stream Bytes)
    → max < 4294967296
    → All (Fits max) es
    → round max rest ≡ stop rest
    → split_from max [] (yields (frames es ++ rest) s) ≡ before es (split_from max rest s)
unfolding split_from drain_all
split_from-frames max es rest s hm fits settled =
    drain-frames (suc (length (frames es ++ rest))) max es rest (λ r. split_from max r s) hm fits
      (omega arith) settled

round-nil : (max : ℕ) → round max [] ≡ stop []
unfolding round peek_header
round-nil max = refl

-- Chunks that together hold what encodeEnvelopes writes are read by transformSplitEnvelope as the
-- messages written, in order, if each has flags in one byte and a payload within the limit, and
-- the limit is below 2 ^ 32.
pub transform_split_envelope-encode_envelopes :
    (max : ℕ) (es : List EnvelopedMessage) (cs : List Bytes)
    → max < 4294967296
    → All (Fits max) es
    → joined cs ≡ encode_envelopes es
    → transform_split_envelope max (before cs finished) ≡ before es finished
transform_split_envelope-encode_envelopes max es cs hm fits h =
    transform_split_envelope-chunks max cs ((frames es ++ []) ∷ []) finished
      (h ∙ encode_envelopes_lem es ∙ sym (append-nil _ ∙ append-nil _))
    ∙ unfold transform_split_envelope split_from in
      split_from-frames max es [] finished hm fits (round-nil max)

append-some : (xs : Bytes) (y : ℕ) (ys : Bytes) → xs ++ (y ∷ ys) ≢ []
append-some [] y ys h = cc
append-some (x ∷ xs) y ys h = cc

split_from-rest :
    (max : ℕ) (tail : Bytes) → tail ≢ [] → split_from max tail finished ≡ raised (incomplete tail)
unfolding split_from
split_from-rest max [] h = absurd (h refl)
split_from-rest max (x ∷ xs) h = ground arith

-- The start of a message is no message yet.
round-cut :
    (max : ℕ) (e : EnvelopedMessage) (tail : Bytes) (b : ℕ) (more : Bytes)
    → max < 4294967296
    → Fits max e
    → frame e.flags e.payload ≡ tail ++ (b ∷ more)
    → round max tail ≡ stop tail
round-cut max e tail b more hm fit cut =
    let whole : round max (tail ++ (b ∷ more)) ≡ next e [] =
      ap (round max) (sym cut ∙ sym (append-nil _)) ∙ round-frame max e [] hm fit in
    elim (Round-cases (round max tail)) [
      | inl (rest, st) ↦ st ∙ ap stop (round-stop_same max tail rest st)
      | inr (inl (x, fl)) ↦ cc (whole, round-append_fail max tail (b ∷ more) x fl)
      | inr (inr (env, rest, nx)) ↦
          ground (
            arith,
            whole,
            round-append_next max tail (b ∷ more) env rest nx,
            append-some rest b more,
          )
    ]

-- If the chunks hold what encodeEnvelopes writes for some messages and then a proper, non-empty
-- start of the bytes of one more message, transformSplitEnvelope yields the messages and throws
-- the error of an incomplete envelope. The flags are in one byte, the payloads within the limit,
-- and the limit is below 2 ^ 32.
pub transform_split_envelope_truncated :
    (max : ℕ) (es : List EnvelopedMessage) (e : EnvelopedMessage) (cs : List Bytes) (tail : Bytes)
    (b : ℕ) (more : Bytes)
    → max < 4294967296
    → All (Fits max) es
    → Fits max e
    → frame e.flags e.payload ≡ tail ++ (b ∷ more)
    → tail ≢ []
    → joined cs ≡ encode_envelopes es ++ tail
    → transform_split_envelope max (before cs finished) ≡ before es (raised (incomplete tail))
transform_split_envelope_truncated max es e cs tail b more hm fits fit cut some_tail h =
    transform_split_envelope-chunks max cs ((frames es ++ tail) ∷ []) finished
      (h ∙ ap (λ t. t ++ tail) (encode_envelopes_lem es) ∙ sym (append-nil _))
    ∙ unfold transform_split_envelope split_from in
      split_from-frames max es tail finished hm fits (round-cut max e tail b more hm fit cut)
      ∙ ap (before es) (split_from-rest max tail some_tail)
