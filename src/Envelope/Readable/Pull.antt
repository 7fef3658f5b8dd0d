-- ===== src/Envelope/Readable/Pull.antt =====
-- How a pull of createEnvelopeReadableStream takes a message off the bytes.
use node_dubbo.Prelude.{
  ℕ, suc, ◌+◌, ◌-◌, ◌≤◌, ◌<◌, ◌≡◌, refl, sym, ap, ◌∙◌, ◌⊎◌, inl, inr, true, false, List, [], ◌∷◌,
  ◌++◌, append_assoc, Option, none, some, length, length-append, length-drop, take, drop,
  take-append_le, drop-append_le, ltb, leb, arith, Bool-cases,
}
use node_dubbo.ByteArray.{Bytes, set_uint32, get_uint32-set_uint32}
use node_dubbo.Stream.{Stream, finished, raised, yields, before}
use node_dubbo.Envelope.Readable.{
  FrameHeader, positive, signed, read_header, is_complete, data_end, enqueued, enqueue, pull,
}
use node_dubbo.Iterable.Split.Progress.{get_or-append}
use node_dubbo.Iterable.Split.Chunks.{joined}

-- The header of a message, as it is written and as it is read.
abbrev pub head_bytes : ℕ → ℕ → Bytes → Bytes
head_bytes flags k rest = flags ∷ (set_uint32 k ++ rest)

abbrev pub head : ℕ → ℕ → FrameHeader
head flags k = record { flags = flags; length = positive k }

five_more : (n : ℕ) → 5 + n ≡ suc (suc (suc (suc (suc n))))
five_more n = omega arith

minus_five : (n : ℕ) → 5 + n - 5 ≡ n
minus_five n = omega arith

module _ (flags k : ℕ) where
  drop-head_bytes : (q : Bytes) → drop (5 + k) (head_bytes flags k q) ≡ drop k q
  unfolding set_uint32
  drop-head_bytes q = rw (five_more k) refl

  pub body-head_bytes :
      (b c q : Bytes) → b ++ c ≡ head_bytes flags k q → 5 ≤ length b → drop 5 b ++ c ≡ q
  unfolding set_uint32
  body-head_bytes b c q whole h = sym (drop-append_le 5 b c h) ∙ ap (drop 5) whole

module _ (flags k : ℕ) (small : k < 2147483648) where
  read_header-head_bytes :
      (q : Bytes) → read_header none (head_bytes flags k q) ≡ some (head flags k)
  unfolding read_header set_uint32 signed
  read_header-head_bytes q = ground (arith, get_uint32-set_uint32 k)

  read_header-part : (b c : Bytes) → 5 ≤ length b → read_header none b ≡ read_header none (b ++ c)
  unfolding read_header
  read_header-part b c h = ground (
    arith,
    length-append b c,
    get_or-append b c 0,
    get_or-append b c 1,
    get_or-append b c 2,
    get_or-append b c 3,
    get_or-append b c 4,
  )

  -- A header that was not read yet, or that of this message.
  abbrev pub AtHead : Option FrameHeader → Type 0
  AtHead header = (header ≡ none) ⊎ (header ≡ some (head flags k))

  pub read_header-AtHead :
      (header : Option FrameHeader) (b c q : Bytes)
      → AtHead header
      → b ++ c ≡ head_bytes flags k q
      → (read_header header b ≡ some (head flags k))
        ⊎ ((read_header header b ≡ none) × (length b < 5))
  unfolding read_header
  read_header-AtHead (some h) b c q (inl e) whole = cc
  read_header-AtHead (some h) b c q (inr e) whole = inl e
  read_header-AtHead none b c q at whole = elim (Bool-cases (ltb (length b) 5)) [
    | inl short ↦ inr (rw short refl, ground arith)
    | inr long ↦ inl (
        read_header-part b c (ground arith)
        ∙ ap (read_header none) whole
        ∙ read_header-head_bytes q)
  ]

  enqueue-head :
      (b c q : Bytes) (s : Stream Bytes)
      → b ++ c ≡ head_bytes flags k q
      → k + 5 ≤ length b
      → (enqueue (some (head flags k)) b s
          ≡ enqueued (record { flags = flags; payload = take k q }) (drop (5 + k) b) s)
        × (drop (5 + k) b ++ c ≡ drop k q)
  unfolding enqueue data_end
  enqueue-head b c q s whole long = (
    rw (minus_five k) (
        ap (λ p. enqueued (record { flags = flags; payload = p }) (drop (5 + k) b) s)
          (sym (take-append_le k (drop 5 b) c (omega (arith, length-drop 5 b)))
            ∙ ap (take k) (body-head_bytes flags k b c q whole (omega arith)))),
    sym (drop-append_le (5 + k) b c (omega arith))
        ∙ ap (drop (5 + k)) whole
        ∙ drop-head_bytes flags k q,
  )

  -- A pull takes the message off the bytes that are left, of which some are in the buffer.
  abbrev pub TakesOff : List Bytes → Bytes → Option FrameHeader → Bytes → Type 0
  TakesOff cs q header b =
      (b' : Bytes) × (cs' : List Bytes) × (pull header b (before cs finished)
        ≡ enqueued (record { flags = flags; payload = take k q }) b' (before cs' finished))
      × (b' ++ joined cs' ≡ drop k q)

  pub pull-ready :
      (header : Option FrameHeader) (b : Bytes) (s : Stream Bytes)
      → is_complete (read_header header b) (length b) ≡ true
      → pull header b s ≡ enqueue (read_header header b) b s
  unfolding pull
  pull-ready header b finished h = refl
  pull-ready header b (raised e) h = rw h refl
  pull-ready header b (yields c s) h = rw h refl

  is_complete-head : (n : ℕ) → k + 5 ≤ n → is_complete (some (head flags k)) n ≡ true
  unfolding is_complete
  is_complete-head n h = ground arith

  pub is_complete-head_less : (n : ℕ) → n < k + 5 → is_complete (some (head flags k)) n ≡ false
  unfolding is_complete
  is_complete-head_less n h = ground arith

  pub pull-more :
      (header : Option FrameHeader) (b c : Bytes) (s : Stream Bytes)
      → is_complete (read_header header b) (length b) ≡ false
      → pull header b (yields c s) ≡ pull (read_header header b) (b ++ c) s
  unfolding pull
  pull-more header b c s h = rw h refl

  taken_now :
      (header : Option FrameHeader) (b q : Bytes) (cs : List Bytes)
      → read_header header b ≡ some (head flags k)
      → b ++ joined cs ≡ head_bytes flags k q
      → k + 5 ≤ length b
      → TakesOff cs q header b
  taken_now header b q cs known whole long =
      let (now, left) = enqueue-head b (joined cs) q (before cs finished) whole long in
      (
        drop (5 + k) b,
        cs,
        pull-ready header b (before cs finished)
              (ap (λ o. is_complete o (length b)) known ∙ is_complete-head (length b) long)
            ∙ ap (λ o. enqueue o b (before cs finished)) known
            ∙ now,
        left,
      )

  taken_later :
      (header : Option FrameHeader) (b c q : Bytes) (cs : List Bytes)
      → is_complete (read_header header b) (length b) ≡ false
      → TakesOff cs q (read_header header b) (b ++ c)
      → TakesOff (c ∷ cs) q header b
  taken_later header b c q cs waits (b', cs', pulled, left) =
      (b', cs', pull-more header b c (before cs finished) waits ∙ pulled, left)

  pub unread_waits : (n : ℕ) → is_complete none n ≡ false
  unfolding is_complete
  unread_waits n = refl

  pub pull-head_bytes :
      (cs : List Bytes) (header : Option FrameHeader) (b q : Bytes)
      → AtHead header
      → b ++ joined cs ≡ head_bytes flags k q
      → k ≤ length q
      → TakesOff cs q header b
  unfolding set_uint32
  pull-head_bytes [] header b q at whole fits =
      let measured = ap length whole in
      elim (read_header-AtHead header b [] q at whole) [
        | inl known ↦
            taken_now header b q [] known whole (omega (arith, measured, length-append b []))
        | inr (unread, short) ↦ absurd (omega (arith, measured, length-append b []))
      ]
  pull-head_bytes (c ∷ cs) header b q at whole fits =
      let whole' = append_assoc b c (joined cs) ∙ whole in
      elim (read_header-AtHead header b (c ++ joined cs) q at whole) [
        | inl known ↦ elim (Bool-cases (leb (k + 5) (length b))) [
          | inl long ↦ taken_now header b q (c ∷ cs) known whole (ground arith)
          | inr short ↦
              taken_later header b c q cs
                (ap (λ o. is_complete o (length b)) known
                  ∙ is_complete-head_less (length b) (ground arith))
                (pull-head_bytes cs (read_header header b) (b ++ c) q (inr known) whole' fits)
        ]
        | inr (unread, short) ↦
            taken_later header b c q cs
              (ap (λ o. is_complete o (length b)) unread ∙ unread_waits (length b))
              (pull-head_bytes cs (read_header header b) (b ++ c) q (inl unread) whole' fits)
      ]
