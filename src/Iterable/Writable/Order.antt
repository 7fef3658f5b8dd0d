-- ===== src/Iterable/Writable/Order.antt =====
-- Who gets what is written to a writable iterable of async-iterable.ts.
use node_dubbo.Prelude.{
  ℕ, ◌+◌, ◌≡◌, ◌≢◌, String, refl, sym, ap, ◌∙◌, Bool, true, false, List, [], ◌∷◌, ◌++◌, Option,
  none, some, length, append_assoc, length-append, append-nil, arith, ◌⊎◌, inl, inr,
}
use node_dubbo.Iterable.Writable.{
  Result, value, done, Settled, resolved, read, rejected, Writable, Call, write, close, next, throw,
  settle, hand_over, process_in, process, take_first, step,
}

abbrev pub one_at_most : Option ℕ → ℕ
one_at_most none = 0
one_at_most (some r) = 1

module _ {A : Type 0} where
  -- What the readers have got, in order.
  unfoldable pub reads : List (ℕ × Settled A) → List (Result A)
  reads [] = []
  reads ((promise, resolved) ∷ settled) = reads settled
  reads ((promise, read r) ∷ settled) = r ∷ reads settled
  reads ((promise, rejected e) ∷ settled) = reads settled

  -- What is still queued.
  unfoldable pub queued : List (Result A × ℕ) → List (Result A)
  queued [] = []
  queued ((payload, writer) ∷ queue) = payload ∷ queued queue

  -- The payloads of a course of calls, up to the first close.
  unfoldable pub accepted : Bool → List (Call A) → List (Result A)
  accepted closed [] = []
  accepted false (write x ∷ cs) = value x ∷ accepted false cs
  accepted false (close ∷ cs) = done ∷ accepted true cs
  accepted true (write x ∷ cs) = accepted true cs
  accepted true (close ∷ cs) = accepted true cs
  accepted closed (next ∷ cs) = accepted closed cs
  accepted closed (throw e ∷ cs) = accepted closed cs

  unfoldable pub nexts : List (Call A) → ℕ
  nexts [] = 0
  nexts (next ∷ cs) = nexts cs + 1
  nexts (write x ∷ cs) = nexts cs
  nexts (close ∷ cs) = nexts cs
  nexts (throw e ∷ cs) = nexts cs

  -- Nothing is thrown in, and no reader asks while another one waits.
  abbrev pub IsCalm : Call A → Writable A → Type 0
  IsCalm (write x) w = Unit
  IsCalm close w = Unit
  IsCalm next w = w.reader ≡ none
  IsCalm (throw e) w = ⊥

  abbrev pub AllCalm : Writable A → List (Call A) → Type 0
  AllCalm w [] = Unit
  AllCalm w (c ∷ cs) = IsCalm c w × AllCalm (step c w) cs

  reads-append :
      (xs : List (ℕ × Settled A)) (ys : List (ℕ × Settled A))
      → reads (xs ++ ys) ≡ reads xs ++ reads ys
  unfolding reads
  reads-append [] ys = refl
  reads-append ((promise, resolved) ∷ xs) ys = reads-append xs ys
  reads-append ((promise, read r) ∷ xs) ys = ap (λ t. r ∷ t) (reads-append xs ys)
  reads-append ((promise, rejected e) ∷ xs) ys = reads-append xs ys

  queued-append : (xs ys : List (Result A × ℕ)) → queued (xs ++ ys) ≡ queued xs ++ queued ys
  unfolding queued
  queued-append [] ys = refl
  queued-append ((payload, writer) ∷ xs) ys = ap (λ t. payload ∷ t) (queued-append xs ys)

  -- What has come out and is still to come, with nobody waiting for what is there.
  pub record Holds (w : Writable A) (all_payloads : List (Result A)) (asked : ℕ) : Type 0 where
    pub no_error : w.error ≡ none
    pub in_order : reads w.settled ++ queued w.queue ≡ all_payloads
    pub in_turn : (w.reader ≡ none) ⊎ (w.queue ≡ [])
    pub counted : length (reads w.settled) + one_at_most w.reader ≡ asked

  pub process-eq :
      (w : Writable A) (p : Result A) (promise : ℕ)
      → w.error ≡ none
      → process p promise w ≡ hand_over p promise w w.reader
  unfolding process process_in
  process-eq w p promise h = ap (process_in p promise w) h

  empty_of_reader :
      (w : Writable A) (r : ℕ)
      → (w.reader ≡ none) ⊎ (w.queue ≡ [])
      → w.reader ≡ some r
      → w.queue ≡ []
  empty_of_reader w r (inl free) e = absurd (none-ne-some r (sym free ∙ e))
    where
      none-ne-some : (r : ℕ) → ◌≢◌ {A = Option ℕ} none (some r)
      none-ne-some r h = cc
  empty_of_reader w r (inr empty) e = empty

  reads_last :
      (xs : List (ℕ × Settled A)) (promise : ℕ) (p : Result A) (r : ℕ)
      → reads ((xs ++ ((r, read p) ∷ [])) ++ ((promise, resolved) ∷ [])) ≡ reads xs ++ (p ∷ [])
  unfolding reads
  reads_last xs promise p r =
      reads-append (xs ++ ((r, read p) ∷ [])) ((promise, resolved) ∷ [])
      ∙ append-nil (reads (xs ++ ((r, read p) ∷ [])))
      ∙ reads-append xs ((r, read p) ∷ [])

  reads_taken :
      (xs : List (ℕ × Settled A)) (promise : ℕ) (p : Result A) (writer : ℕ)
      → reads ((xs ++ ((writer, resolved) ∷ [])) ++ ((promise, read p) ∷ [])) ≡ reads xs ++ (p ∷ [])
  unfolding reads
  reads_taken xs promise p writer =
      reads-append (xs ++ ((writer, resolved) ∷ [])) ((promise, read p) ∷ [])
      ∙ ap (λ t. t ++ (p ∷ [])) (reads-append xs ((writer, resolved) ∷ []) ∙ append-nil (reads xs))

  pub handed-Holds :
      (w : Writable A) (p : Result A) (promise : ℕ) (ps : List (Result A)) (asked : ℕ)
      (o : Option ℕ)
      → w.reader ≡ o
      → Holds w ps asked
      → Holds (hand_over p promise w o) (ps ++ (p ∷ [])) asked
  unfolding hand_over settle queued
  handed-Holds w p promise ps asked none e h = record {
    no_error = h.no_error;
    in_order =
        ap (λ t. reads w.settled ++ t) (queued-append w.queue ((p, promise) ∷ []))
        ∙ sym (append_assoc (reads w.settled) (queued w.queue) (p ∷ []))
        ∙ ap (λ t. t ++ (p ∷ [])) h.in_order;
    in_turn = inl e;
    counted = h.counted;
  }
  handed-Holds w p promise ps asked (some r) e h =
      let empty = empty_of_reader w r h.in_turn e in
      let got = reads_last w.settled promise p r in
      let before = ap (λ q. reads w.settled ++ queued q) (sym empty) ∙ h.in_order in
      record {
        no_error = h.no_error;
        in_order =
            ap
              (λ q.
                reads ((w.settled ++ ((r, read p) ∷ [])) ++ ((promise, resolved) ∷ [])) ++ queued q)
              empty
            ∙ append-nil _
            ∙ got
            ∙ ap (λ t. t ++ (p ∷ [])) (sym (append-nil (reads w.settled)) ∙ before);
        in_turn = inl refl;
        counted =
            ap (λ t. length t + 0) got
            ∙ omega (arith, length-append (reads w.settled) (p ∷ []), h.counted, ap one_at_most e);
      }

  -- A rejected call changes nothing.
  pub rejected-Holds :
      (w : Writable A) (promise : ℕ) (e : String) (ps : List (Result A)) (asked : ℕ)
      → Holds w ps asked
      → Holds (settle promise (rejected e) w) ps asked
  unfolding settle reads
  rejected-Holds w promise e ps asked h =
      let same =
        reads-append w.settled ((promise, rejected e) ∷ []) ∙ append-nil (reads w.settled) in
      record {
        no_error = h.no_error;
        in_order = ap (λ t. t ++ queued w.queue) same ∙ h.in_order;
        in_turn = h.in_turn;
        counted = ap (λ t. length t + one_at_most w.reader) same ∙ h.counted;
      }

  pub taken-Holds :
      (w : Writable A) (promise : ℕ) (ps : List (Result A)) (asked : ℕ) (q : List (Result A × ℕ))
      → w.queue ≡ q
      → w.reader ≡ none
      → Holds w ps asked
      → Holds (take_first promise w q) ps (asked + 1)
  unfolding take_first settle queued
  taken-Holds w promise ps asked [] e free h = record {
    no_error = h.no_error;
    in_order = h.in_order;
    in_turn = inr e;
    counted = omega (arith, h.counted, ap one_at_most free);
  }
  taken-Holds w promise ps asked ((p, writer) ∷ q) e free h =
      let got = reads_taken w.settled promise p writer in
      record {
        no_error = h.no_error;
        in_order =
            ap (λ t. t ++ queued q) got
            ∙ append_assoc (reads w.settled) (p ∷ []) (queued q)
            ∙ ap (λ t. reads w.settled ++ queued t) (sym e)
            ∙ h.in_order;
        in_turn = inl free;
        counted =
            ap (λ t. length t + one_at_most w.reader) got
            ∙ omega (arith, length-append (reads w.settled) (p ∷ []), h.counted);
      }
