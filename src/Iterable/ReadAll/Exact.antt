-- ===== src/Iterable/ReadAll/Exact.antt =====
-- readAllBytes returns exactly the bytes of the source, or throws.
use node_dubbo.Prelude.{
  ℕ, zero, suc, ◌+◌, ◌-◌, le→ltb, ◌≤◌, ◌<◌, ◌≡◌, ◌≢◌, ◌↔◌, refl, sym, ap, ◌∙◌, List, [], ◌∷◌, ◌++◌,
  append_assoc, append-nil, none, some, length, length-append, arith,
}
use node_dubbo.ByteArray.{Bytes, zeros, set_at, set_at-append, overwrite, overwrite-zeros}
use node_dubbo.Error.{ok, ◌>>=◌, >>=-eq-ok}
use node_dubbo.Limits.{assert_read_max_bytes}
use node_dubbo.Stream.{Stream, finished, raised, yields, values, ending}
use node_dubbo.Iterable.Split.Chunks.{joined}
use node_dubbo.Iterable.ReadAll.{
  LengthHint, parse_length_hint, fill, collect, copy, copy_all, read_all_bytes,
}

-- A chunk that fits goes behind what was written.
write_chunk :
    (written chunk : Bytes) (k : ℕ)
    → set_at (written ++ zeros (length chunk + k)) chunk (length written)
      ≡ (written ++ chunk) ++ zeros k
write_chunk written chunk k =
    set_at-append written (zeros (length chunk + k)) chunk 0 (length written) (omega arith)
    ∙ ap (λ t. written ++ t) (set_at_zero ∙ overwrite-zeros chunk k (length chunk + k) refl)
    ∙ sym (append_assoc written chunk (zeros k))
  where
    set_at_zero :
        set_at (zeros (length chunk + k)) chunk 0 ≡ overwrite (zeros (length chunk + k)) chunk
    set_at_zero = unfold set_at in refl

-- `s` returns, and its bytes are `b`.
abbrev pub Reads : Stream Bytes → Bytes → Type 0
Reads s b = (ending s ≡ none) × (joined (values s) ≡ b)

fill_step :
    (hint k : ℕ) (written chunk : Bytes) (s : Stream Bytes)
    → hint ≡ length written + (length chunk + k)
    → fill hint (written ++ zeros (length chunk + k)) (length written) (yields chunk s)
      ≡ fill hint ((written ++ chunk) ++ zeros k) (length (written ++ chunk)) s
unfolding fill
fill_step hint k written chunk s h = rw (
  le→ltb hint (length written + length chunk) (omega arith),
  write_chunk written chunk k,
  length-append written chunk,
)

fill_over :
    (hint offset : ℕ) (buffer chunk b : Bytes) (s : Stream Bytes)
    → fill hint buffer offset (yields chunk s) ≡ ok b
    → offset + length chunk ≤ hint
unfolding fill
fill_over hint offset buffer chunk b s e = ground arith

fill_end :
    (hint : ℕ) (written : Bytes)
    → hint ≡ length written
    → fill hint (written ++ zeros 0) (length written) finished ≡ ok (written ++ [])
unfolding fill zeros
fill_end hint written h = rw (le→ltb (length written) hint (omega arith))

fill_short :
    (hint : ℕ) (buffer : Bytes) (offset : ℕ) (b : Bytes)
    → offset < hint
    → fill hint buffer offset finished ≢ ok b
unfolding fill
fill_short hint buffer offset b h e = ground arith

fill_sound :
    (hint k : ℕ) (written b : Bytes) (s : Stream Bytes)
    → hint ≡ length written + k
    → fill hint (written ++ zeros k) (length written) s ≡ ok b
    → (ending s ≡ none) × (written ++ joined (values s) ≡ b) × (length b ≡ hint)
fill_sound hint zero written b finished h e =
    let same : written ++ [] ≡ b = ground (arith, fill_end hint written (omega arith)) in
    (refl, same, omega (arith, ap length same, length-append written []))
fill_sound hint (suc k) written b finished h e =
    absurd (fill_short hint (written ++ zeros (suc k)) (length written) b (omega arith) e)
fill_sound hint k written b (raised x) h e = unfold fill in cc
fill_sound hint k written b (yields chunk s) h e =
    let fits = fill_over hint (length written) (written ++ zeros k) chunk b s e in
    let rest : k ≡ length chunk + (k - length chunk) = omega arith in
    let found =
      fill_sound hint (k - length chunk) (written ++ chunk) b s
        (omega (arith, length-append written chunk))
        (sym (fill_step hint (k - length chunk) written chunk s (omega arith)) ∙ rw (← rest) e) in
    (found.0, sym (append_assoc written chunk (joined (values s))) ∙ found.1, found.2)

fill_complete :
    (hint k : ℕ) (written : Bytes) (s : Stream Bytes)
    → hint ≡ length written + k
    → ending s ≡ none
    → length (joined (values s)) ≡ k
    → fill hint (written ++ zeros k) (length written) s ≡ ok (written ++ joined (values s))
fill_complete hint k written finished h e l =
    let none_left : k ≡ 0 = omega arith in rw none_left (fill_end hint written (omega arith))
fill_complete hint k written (raised x) h e l = cc
fill_complete hint k written (yields chunk s) h e l =
    let m = length (joined (values s)) in
    let rest : k ≡ length chunk + m = omega (arith, length-append chunk (joined (values s))) in
    rw rest (fill_step hint m written chunk s (omega arith))
    ∙ fill_complete hint m (written ++ chunk) s (omega (arith, length-append written chunk)) e refl
    ∙ ap (λ t. ok t) (append_assoc written chunk (joined (values s)))

read_hinted :
    (s : Stream Bytes) (max n : ℕ) (hint : LengthHint)
    → parse_length_hint hint ≡ some n
    → n ≤ max
    → read_all_bytes s max hint ≡ fill n (zeros n) 0 s
unfolding read_all_bytes
read_hinted s max n hint h le = ground arith

read_over :
    (s : Stream Bytes) (max n : ℕ) (hint : LengthHint) (b : Bytes)
    → parse_length_hint hint ≡ some n
    → read_all_bytes s max hint ≡ ok b
    → n ≤ max
unfolding read_all_bytes assert_read_max_bytes
read_over s max n hint b h e = ground arith

-- Where the length hint is usable, which is so for a safe integer of 0 or more, readAllBytes
-- returns some bytes exactly if the source returns with these bytes, their number is the hint, and
-- the hint is within the read limit. With the hint 0 that is only the empty body.
pub read_all_bytes_hinted :
    (s : Stream Bytes) (max n : ℕ) (hint : LengthHint) (b : Bytes)
    → parse_length_hint hint ≡ some n
    → (read_all_bytes s max hint ≡ ok b) ↔ (Reads s b × (length b ≡ n) × (n ≤ max))
read_all_bytes_hinted s max n hint b h = (to, from)
  where
    to : read_all_bytes s max hint ≡ ok b → Reads s b × (length b ≡ n) × (n ≤ max)
    to e =
        let within = read_over s max n hint b h e in
        let f = fill_sound n n [] b s (omega arith) (sym (read_hinted s max n hint h within) ∙ e) in
        ((f.0, f.1), f.2, within)

    from : Reads s b × (length b ≡ n) × (n ≤ max) → read_all_bytes s max hint ≡ ok b
    from ((returns, same), l, within) =
        read_hinted s max n hint h within
        ∙ fill_complete n n [] s (omega arith) returns (ap length same ∙ l)
        ∙ ap (λ t. ok t) same

collect_sound :
    (max count : ℕ) (chunks cs : List Bytes) (total : ℕ) (s : Stream Bytes)
    → count ≤ max
    → collect max chunks count s ≡ ok (cs, total)
    → (ending s ≡ none)
      × (chunks ++ values s ≡ cs)
      × (total ≡ count + length (joined (values s)))
      × (total ≤ max)
unfolding collect assert_read_max_bytes
collect_sound max count chunks cs total finished h e =
    (refl, ground (arith, append-nil chunks), ground arith, ground arith)
collect_sound max count chunks cs total (raised x) h e = cc
collect_sound max count chunks cs total (yields chunk s) h e = ground (
  arith,
  collect_sound max (count + length chunk) (chunks ++ (chunk ∷ [])) cs total s,
  append_assoc chunks (chunk ∷ []) (values s),
  length-append chunk (joined (values s)),
)

collect_complete :
    (max count : ℕ) (chunks : List Bytes) (s : Stream Bytes)
    → ending s ≡ none
    → count + length (joined (values s)) ≤ max
    → collect max chunks count s ≡ ok (chunks ++ values s, count + length (joined (values s)))
unfolding collect assert_read_max_bytes
collect_complete max count chunks finished e h = ground (arith, append-nil chunks)
collect_complete max count chunks (raised x) e h = cc
collect_complete max count chunks (yields chunk s) e h = ground (
  arith,
  collect_complete max (count + length chunk) (chunks ++ (chunk ∷ [])) s,
  append_assoc chunks (chunk ∷ []) (values s),
  length-append chunk (joined (values s)),
)

copy_lem :
    (written : Bytes) (chunks : List Bytes) (offset k : ℕ)
    → offset ≡ length written
    → k ≡ length (joined chunks)
    → copy (written ++ zeros k) offset chunks ≡ written ++ joined chunks
unfolding copy
copy_lem written [] offset k ho hk = rw hk (unfold zeros in refl)
copy_lem written (chunk ∷ chunks) offset k ho hk =
    let m = length (joined chunks) in
    let rest : k ≡ length chunk + m = omega (arith, length-append chunk (joined chunks)) in
    rw (ho, rest, write_chunk written chunk m)
      (copy_lem (written ++ chunk) chunks (length written + length chunk) m
          (omega (arith, length-append written chunk)) refl
        ∙ append_assoc written chunk (joined chunks))

read_plain :
    (s : Stream Bytes) (max : ℕ) (hint : LengthHint)
    → parse_length_hint hint ≡ none
    → read_all_bytes s max hint ≡ (collect max [] 0 s >>= copy_all)
unfolding read_all_bytes
read_plain s max hint h = ground arith

copy-values :
    (s : Stream Bytes) (cs : List Bytes) (total : ℕ)
    → values s ≡ cs
    → total ≡ 0 + length (joined (values s))
    → copy (zeros total) 0 cs ≡ joined (values s)
copy-values s cs total same h = rw (← same) (copy_lem [] (values s) 0 total refl (omega arith))

ok_inj : (a b : Bytes) → ok a ≡ ok b → a ≡ b
ok_inj a b h = ground arith

-- Where there is no usable length hint, readAllBytes returns some bytes exactly if the source
-- returns with these bytes and their number is within the read limit.
pub read_all_bytes_unhinted :
    (s : Stream Bytes) (max : ℕ) (hint : LengthHint) (b : Bytes)
    → parse_length_hint hint ≡ none
    → (read_all_bytes s max hint ≡ ok b) ↔ (Reads s b × (length b ≤ max))
read_all_bytes_unhinted s max hint b h = (to, from)
  where
    to : read_all_bytes s max hint ≡ ok b → Reads s b × (length b ≤ max)
    to e =
        let ((cs, total), collected, copied) =
          >>=-eq-ok (collect max [] 0 s) copy_all (sym (read_plain s max hint h) ∙ e) in
        let c = collect_sound max 0 [] cs total s (omega arith) collected in
        let same : joined (values s) ≡ b =
          sym (copy-values s cs total c.1 c.2) ∙ ok_inj _ b copied in
        ((c.0, same), omega (arith, c.2, c.3, ap length same))

    from : Reads s b × (length b ≤ max) → read_all_bytes s max hint ≡ ok b
    from ((returns, same), within) =
        read_plain s max hint h
        ∙ ap (λ m. m >>= copy_all)
            (collect_complete max 0 [] s returns (omega (arith, ap length same)))
        ∙ ap (λ t. ok t) (copy-values s (values s) _ refl refl ∙ same)
