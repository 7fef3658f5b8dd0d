-- ===== src/Envelope/Readable/Faults.antt =====
-- What createEnvelopeReadableStream makes of bodies that are cut short, and of a length of 2 ^ 31
-- or more.
use node_dubbo.Prelude.{
  ℕ, zero, suc, ◌+◌, ◌-◌, ◌≤◌, ◌<◌, ◌≡◌, refl, sym, ap, ap₂, ◌∙◌, inl, inr, true, List, [], ◌∷◌,
  ◌++◌, append_assoc, append-nil, Option, none, some, length, length-append, length-drop, get_or,
  take, drop, arith, All,
}
use node_dubbo.ByteArray.{Bytes, get_uint32, set_uint32}
use node_dubbo.Error.{out_of_fuel}
use node_dubbo.Stream.{Stream, finished, raised, yields, before}
use node_dubbo.Envelope.{EnvelopedMessage}
use node_dubbo.Envelope.Encoding.{frames}
use node_dubbo.Envelope.Readable.{
  FrameHeader, below_zero, signed, read_header, is_complete, data_end, enqueued, enqueue, pull,
  messages, create_envelope_readable_stream,
}
use node_dubbo.Envelope.Readable.Pull.{
  head_bytes, head, AtHead, read_header-AtHead, pull-ready, pull-more, is_complete-head_less,
  unread_waits, body-head_bytes,
}
use node_dubbo.Envelope.Readable.Delivery.{
  FitsSigned, messages-pull, messages-frames, messages-nothing, fuel_for,
}
use node_dubbo.Iterable.Split.Chunks.{joined}

take_all : (k : ℕ) (b : Bytes) → length b ≤ k → take k b ≡ b
take_all zero [] h = refl
take_all zero (x ∷ b) h = absurd (omega arith)
take_all (suc k) [] h = refl
take_all (suc k) (x ∷ b) h = ap (λ t. x ∷ t) (take_all k b (omega arith))

drop_all : (k : ℕ) (b : Bytes) → length b ≤ k → drop k b ≡ []
drop_all zero [] h = refl
drop_all zero (x ∷ b) h = absurd (omega arith)
drop_all (suc k) [] h = refl
drop_all (suc k) (x ∷ b) h = drop_all k b (omega arith)

module _ (flags k : ℕ) (small : k < 2147483648) where
  length-short : (b q : Bytes) → b ++ [] ≡ head_bytes flags k q → length b ≡ 5 + length q
  unfolding set_uint32
  length-short b q whole = omega (arith, ap length whole, length-append b [])

  enqueue-short :
      (b q : Bytes)
      → b ++ [] ≡ head_bytes flags k q
      → length q < k
      → enqueue (some (head flags k)) b finished
        ≡ enqueued (record { flags = flags; payload = q }) [] finished
  unfolding enqueue data_end
  enqueue-short b q whole cut =
      let measured = length-short b q whole in
      ap₂ (λ p r. enqueued (record { flags = flags; payload = p }) r finished)
        (take_all (5 + k - 5) (drop 5 b) (omega (arith, length-drop 5 b, measured))
          ∙ sym (append-nil (drop 5 b))
          ∙ body-head_bytes flags k b [] q whole (omega (arith, measured)))
        (drop_all (5 + k) b (omega (arith, measured)))

  pull-short :
      (cs : List Bytes) (header : Option FrameHeader) (b q : Bytes)
      → AtHead flags k small header
      → b ++ joined cs ≡ head_bytes flags k q
      → length q < k
      → pull header b (before cs finished)
        ≡ enqueued (record { flags = flags; payload = q }) [] finished
  unfolding set_uint32
  pull-short [] header b q at whole cut =
      elim (read_header-AtHead flags k small header b [] q at whole) [
        | inl known ↦
            unfold pull in (ap (λ o. enqueue o b finished) known ∙ enqueue-short b q whole cut)
        | inr (unread, short) ↦ absurd (omega (arith, length-short b q whole))
      ]
  pull-short (c ∷ cs) header b q at whole cut =
      let whole' = append_assoc b c (joined cs) ∙ whole in
      elim (read_header-AtHead flags k small header b (c ++ joined cs) q at whole) [
        | inl known ↦
            pull-more flags k small header b c (before cs finished) (
              ap (λ o. is_complete o (length b)) known
              ∙ is_complete-head_less flags k small (length b)
                  (omega (arith, ap length whole, length-append b (c ++ joined cs))))
            ∙ pull-short cs (read_header header b) (b ++ c) q (inr known) whole' cut
        | inr (unread, short) ↦
            pull-more flags k small header b c (before cs finished)
              (ap (λ o. is_complete o (length b)) unread ∙ unread_waits flags k small (length b))
            ∙ pull-short cs (read_header header b) (b ++ c) q (inl unread) whole' cut
      ]

two_more :
    (es : List EnvelopedMessage) (fuel : ℕ)
    → length es + 1 < fuel
    → (more : ℕ) × (fuel ≡ fuel_for es (suc (suc more)))
two_more [] zero h = absurd (omega arith)
two_more [] (suc zero) h = absurd (omega arith)
two_more [] (suc (suc more)) h = (more, refl)
two_more (e ∷ es) zero h = absurd (omega arith)
two_more (e ∷ es) (suc fuel) h =
    let (more, same) = two_more es fuel (omega arith) in (more, ap suc same)

-- If the source ends inside of the payload of a message, createEnvelopeReadableStream gives the
-- reader the messages before it, then a message with the part of the payload that is there, and
-- closes without an error. The flags of the messages before are one byte, and all lengths are
-- below 2 ^ 31.
pub create_envelope_readable_stream_truncated :
    (flags k : ℕ) (es : List EnvelopedMessage) (part : Bytes) (cs : List Bytes) (fuel : ℕ)
    → k < 2147483648
    → All FitsSigned es
    → joined cs ≡ frames es ++ head_bytes flags k part
    → length part < k
    → length es + 1 < fuel
    → create_envelope_readable_stream fuel (before cs finished)
      ≡ before es (yields (record { flags = flags; payload = part }) finished)
unfolding create_envelope_readable_stream
create_envelope_readable_stream_truncated flags k es part cs fuel small fits whole cut enough =
    let (more, same) = two_more es fuel enough in
    let (b, rest, read, left) =
      messages-frames es (suc (suc more)) [] (head_bytes flags k part) cs fits whole in
    let last : EnvelopedMessage = record { flags = flags; payload = part } in
    ap (λ n. messages n [] (before cs finished)) same
    ∙ read
    ∙ ap (before es) (
        messages-pull (suc more) b (before rest finished) last [] finished
          (pull-short flags k small rest none b part (inl refl) left cut)
        ∙ ap (yields last) (messages-nothing more [] [] refl))

-- An empty message, again and again.
abbrev pub endless : ℕ → EnvelopedMessage → Stream EnvelopedMessage
endless zero env = raised out_of_fuel
endless (suc fuel) env = yields env (endless fuel env)

data_end-below_zero : (m n : ℕ) → 5 ≤ n → n + 5 ≤ m → data_end (below_zero m) n ≡ 0
unfolding data_end
data_end-below_zero m n h bound = ground arith

-- The length that five bytes and more promise.
abbrev pub promised : Bytes → ℕ
promised b = get_uint32 (get_or b 1 0) (get_or b 2 0) (get_or b 3 0) (get_or b 4 0)

module _ (b : Bytes) (s : Stream Bytes) (long : 5 ≤ length b) (large : 2147483648 ≤ promised b)
    (bounded : promised b + length b + 5 ≤ 4294967296) where
  large_header : FrameHeader
  large_header = record { flags = get_or b 0 0; length = below_zero (4294967296 - promised b) }

  read_header-large : read_header none b ≡ some large_header
  unfolding read_header signed large_header
  read_header-large = ground arith

  enqueue-large :
      enqueue (some large_header) b s ≡ enqueued (record { flags = get_or b 0 0; payload = [] }) b s
  unfolding enqueue large_header
  enqueue-large =
      ap
        (λ n.
          enqueued (record { flags = get_or b 0 0; payload = take (n - 5) (drop 5 b) }) (drop n b)
            s)
        (data_end-below_zero (4294967296 - promised b) (length b) long (omega arith))

  is_complete-large : is_complete (some large_header) (length b) ≡ true
  unfolding is_complete large_header
  is_complete-large = ground arith

  pull-large : pull none b s ≡ enqueued (record { flags = get_or b 0 0; payload = [] }) b s
  pull-large =
      pull-ready 0 0 (omega arith) none b s
        (ap (λ o. is_complete o (length b)) read_header-large ∙ is_complete-large)
      ∙ ap (λ o. enqueue o b s) read_header-large
      ∙ enqueue-large

  messages-large :
      (fuel : ℕ) → messages fuel b s ≡ endless fuel (record { flags = get_or b 0 0; payload = [] })
  messages-large zero = unfold messages in refl
  messages-large (suc fuel) =
      messages-pull fuel b s (record { flags = get_or b 0 0; payload = [] }) b s pull-large
      ∙ ap (yields (record { flags = get_or b 0 0; payload = [] })) (messages-large fuel)

  messages_first_chunk : (fuel : ℕ) → messages fuel [] (yields b s) ≡ messages fuel b s
  messages_first_chunk zero = unfold messages in refl
  messages_first_chunk (suc fuel) = unfold messages pull read_header is_complete in refl

  -- If the first chunk begins with a header whose length is 2 ^ 31 or more, and is shorter by five
  -- bytes or more than what that length lacks to 2 ^ 32, every pull of
  -- createEnvelopeReadableStream enqueues an empty message and keeps the buffer as it is: the
  -- reader gets empty messages as long as it asks.
  pub create_envelope_readable_stream-endless :
      (fuel : ℕ)
      → create_envelope_readable_stream fuel (yields b s)
        ≡ endless fuel (record { flags = get_or b 0 0; payload = [] })
  unfolding create_envelope_readable_stream
  create_envelope_readable_stream-endless fuel = messages_first_chunk fuel ∙ messages-large fuel
