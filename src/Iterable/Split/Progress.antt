-- ===== src/Iterable/Split/Progress.antt =====
-- The inner loop of transformSplitEnvelope: it ends, and more bytes do not change what was found.
use node_dubbo.Prelude.{
  ℕ, zero, suc, ◌+◌, ◌-◌, ◌⊎◌, ◌<◌, ◌≡◌, ◌≢◌, ◌∙◌, refl, sym, subst, ap, [], ◌∷◌, ◌++◌, none, some,
  Option-cases, length, get_or, drop, take-append_le, drop-append_le, length-append, length-drop,
  arith, inl, inr,
}
use node_dubbo.ByteArray.{Bytes}
use node_dubbo.Error.{Reason, out_of_fuel}
use node_dubbo.Limits.{assert_read_max_bytes}
use node_dubbo.Stream.{Stream, yields}
use node_dubbo.Envelope.{EnvelopedMessage}
use node_dubbo.Iterable.Split.{
  Header, peek_header, shift_envelope, Round, stop, fail, next, round, Drained, drain, drain_all,
  continue, stops, fails, emits,
}

pub get_or-append : (xs ys : Bytes) (i : ℕ) → i < length xs → get_or (xs ++ ys) i 0 ≡ get_or xs i 0
get_or-append [] ys i h = absurd (omega arith)
get_or-append (x ∷ xs) ys zero h = refl
get_or-append (x ∷ xs) ys (suc i) h = get_or-append xs ys i (omega arith)

peek_header-append :
    (b c : Bytes) (h : Header) → peek_header b ≡ some h → peek_header (b ++ c) ≡ some h
unfolding peek_header
peek_header-append b c h e = ground (
  arith,
  length-append b c,
  get_or-append b c 0,
  get_or-append b c 1,
  get_or-append b c 2,
  get_or-append b c 3,
  get_or-append b c 4,
)

shift_envelope-append :
    (b c : Bytes) (h : Header) (env : EnvelopedMessage) (rest : Bytes)
    → shift_envelope b h ≡ (some env, rest)
    → shift_envelope (b ++ c) h ≡ (some env, rest ++ c)
unfolding shift_envelope
shift_envelope-append b c h env rest e = ground (
  arith,
  length-append b c,
  length-drop 5 b,
  drop-append_le 5 b c,
  drop-append_le (5 + h.length) b c,
  take-append_le (5 + h.length - 5) (drop 5 b) c,
)

pub round-append_fail :
    (max : ℕ) (b c : Bytes) (e : Reason) → round max b ≡ fail e → round max (b ++ c) ≡ fail e
unfolding round
round-append_fail max b c e h = elim (Option-cases (peek_header b)) [
  | inl unread ↦ ground arith
  | inr (header, read) ↦ ground (arith, peek_header-append b c header)
]

pub round-append_next :
    (max : ℕ) (b c : Bytes) (env : EnvelopedMessage) (rest : Bytes)
    → round max b ≡ next env rest
    → round max (b ++ c) ≡ next env (rest ++ c)
unfolding round
round-append_next max b c env rest h = elim (Option-cases (peek_header b)) [
  | inl unread ↦ ground arith
  | inr (header, read) ↦
      ground (arith, peek_header-append b c header, shift_envelope-append b c header env rest)
]

shift_envelope-shrinks :
    (b : Bytes) (h : Header) (env : EnvelopedMessage) (rest : Bytes)
    → shift_envelope b h ≡ (some env, rest)
    → length rest < length b
unfolding shift_envelope
shift_envelope-shrinks b h env rest e = ground (arith, length-drop (5 + h.length) b)

shift_envelope-same :
    (b : Bytes) (h : Header) (rest : Bytes) → shift_envelope b h ≡ (none, rest) → rest ≡ b
unfolding shift_envelope
shift_envelope-same b h rest e = ground arith

round-next_shrinks :
    (max : ℕ) (b : Bytes) (env : EnvelopedMessage) (rest : Bytes)
    → round max b ≡ next env rest
    → length rest < length b
unfolding round
round-next_shrinks max b env rest h = elim (Option-cases (peek_header b)) [
  | inl unread ↦ ground arith
  | inr (header, read) ↦ ground (arith, shift_envelope-shrinks b header env rest)
]

pub round-stop_same : (max : ℕ) (b rest : Bytes) → round max b ≡ stop rest → rest ≡ b
unfolding round
round-stop_same max b rest h = elim (Option-cases (peek_header b)) [
  | inl unread ↦ ground arith
  | inr (header, read) ↦ ground (arith, shift_envelope-same b header rest)
]

-- A split on what a round does, which keeps the equation.
pub Round-cases :
    (r : Round)
    → ((rest : Bytes) × (r ≡ stop rest))
      ⊎ ((e : Reason) × (r ≡ fail e))
      ⊎ ((env : EnvelopedMessage) × (rest : Bytes) × (r ≡ next env rest))
Round-cases (stop rest) = inl (rest, refl)
Round-cases (fail e) = inr (inl (e, refl))
Round-cases (next env rest) = inr (inr (env, rest, refl))

-- One round of the loop.
module _ (f max : ℕ) (b : Bytes) where
  pub drain-stop : (rest : Bytes) → round max b ≡ stop rest → drain (suc f) max b ≡ stops rest
  unfolding drain
  drain-stop rest e = ground arith

  drain_fail : (x : Reason) → round max b ≡ fail x → drain (suc f) max b ≡ fails x
  unfolding drain
  drain_fail x e = ground arith

  pub drain-next :
      (env : EnvelopedMessage) (rest : Bytes)
      → round max b ≡ next env rest
      → drain (suc f) max b ≡ emits env (drain f max rest)
  unfolding drain
  drain-next env rest e = ground arith

-- Fuel above the length of the buffer is enough: more fuel changes nothing.
pub drain_fuel :
    (f g max : ℕ) (b : Bytes) → length b < f → length b < g → drain f max b ≡ drain g max b
drain_fuel zero g max b hf hg = absurd (omega arith)
drain_fuel (suc f) zero max b hf hg = absurd (omega arith)
drain_fuel (suc f) (suc g) max b hf hg = elim (Round-cases (round max b)) [
  | inl (rest, e) ↦ rw (drain-stop f max b rest e, drain-stop g max b rest e)
  | inr (inl (x, e)) ↦ rw (drain_fail f max b x e, drain_fail g max b x e)
  | inr (inr (env, rest, e)) ↦
      let shorter = round-next_shrinks max b env rest e in
      rw (drain-next f max b env rest e, drain-next g max b env rest e)
        (ap (emits env) (drain_fuel f g max rest (omega arith) (omega arith)))
]

-- The loop never runs out of fuel, and what it leaves in the buffer is no whole message.
abbrev pub Settled : ℕ → Drained → Type 0
Settled max (stops rest) = round max rest ≡ stop rest
Settled max (fails e) = e ≢ out_of_fuel
Settled max (emits env d) = Settled max d

round-ne-out_of_fuel : (max : ℕ) (b : Bytes) → round max b ≢ fail out_of_fuel
unfolding round assert_read_max_bytes
round-ne-out_of_fuel max b e = elim (Option-cases (peek_header b)) [
  | inl unread ↦ ground arith
  | inr (header, read) ↦ ground arith
]

pub drain-Settled : (f max : ℕ) (b : Bytes) → length b < f → Settled max (drain f max b)
drain-Settled zero max b h = absurd (omega arith)
drain-Settled (suc f) max b h = elim (Round-cases (round max b)) [
  | inl (rest, e) ↦
      rw (drain-stop f max b rest e)
        (subst (λ z. round max z ≡ stop rest) (sym (round-stop_same max b rest e)) e)
  | inr (inl (x, e)) ↦
      rw (drain_fail f max b x e) (λ same. round-ne-out_of_fuel max b (e ∙ ap fail same))
  | inr (inr (env, rest, e)) ↦
      let shorter = round-next_shrinks max b env rest e in
      rw (drain-next f max b env rest e) (drain-Settled f max rest (omega arith))
]

-- Bytes that come later are read as if they had been in the buffer at once.
continue-drain_append :
    (f g max : ℕ) (b c : Bytes) (K : Bytes → Stream EnvelopedMessage)
    → length b < f
    → length b + length c < g
    → continue (drain g max (b ++ c)) K
      ≡ continue
          (drain f max b)
          (λ rest. continue (drain (suc (length (rest ++ c))) max (rest ++ c)) K)
continue-drain_append zero g max b c K hf hg = absurd (omega arith)
continue-drain_append (suc f) zero max b c K hf hg = absurd (omega arith)
continue-drain_append (suc f) (suc g) max b c K hf hg = elim (Round-cases (round max b)) [
  | inl (rest, e) ↦
      rw (drain-stop f max b rest e, round-stop_same max b rest e)
        (ap (λ d. continue d K)
          (drain_fuel (suc g) (suc (length (b ++ c))) max (b ++ c)
            (omega (arith, length-append b c)) (omega arith)))
  | inr (inl (x, e)) ↦
      rw (drain_fail f max b x e, drain_fail g max (b ++ c) x (round-append_fail max b c x e))
  | inr (inr (env, rest, e)) ↦
      let shorter = round-next_shrinks max b env rest e in
      rw
        (
          drain-next f max b env rest e,
          drain-next g max (b ++ c) env (rest ++ c) (round-append_next max b c env rest e),
        )
        (ap (λ s. yields env s)
          (continue-drain_append f g max rest c K (omega arith) (omega arith)))
]

pub continue-drain_all_append :
    (max : ℕ) (b c : Bytes) (K : Bytes → Stream EnvelopedMessage)
    → continue (drain_all max (b ++ c)) K
      ≡ continue (drain_all max b) (λ rest. continue (drain_all max (rest ++ c)) K)
unfolding drain_all
continue-drain_all_append max b c K =
    continue-drain_append (suc (length b)) (suc (length (b ++ c))) max b c K (omega arith)
      (omega (arith, length-append b c))

-- With more fuel than the buffer has bytes, the inner loop of transformSplitEnvelope comes out as
-- with any other such fuel, it does not run out of fuel, and where it stops no further message can
-- be taken from the buffer.
pub drain_all-Settled :
    (f max : ℕ) (b : Bytes)
    → length b < f
    → (drain f max b ≡ drain_all max b) × Settled max (drain_all max b)
unfolding drain_all
drain_all-Settled f max b h = (
  drain_fuel f (suc (length b)) max b h (omega arith),
  drain-Settled (suc (length b)) max b (omega arith),
)
