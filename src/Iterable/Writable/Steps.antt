-- ===== src/Iterable/Writable/Steps.antt =====
-- What a single call does to a writable iterable of async-iterable.ts.
use node_dubbo.Prelude.{
  ℕ, ◌+◌, ◌≡◌, refl, sym, ap, subst, ◌∙◌, String, Bool, true, false, List, [], ◌∷◌, ◌++◌, Option,
  none, some, append-nil, arith, if◌then◌else◌,
}
use node_dubbo.Iterable.Writable.{
  Result, value, done, rejected, Writable, Call, write, close, next, throw, settle, hand_over,
  process_in, process, on_write, on_close, take_first, next_in, on_next, call, step,
}
use node_dubbo.Iterable.Writable.Order.{
  accepted, nexts, IsCalm, Holds, process-eq, handed-Holds, rejected-Holds, taken-Holds,
}

module _ {A : Type 0} where
  process-Holds :
      (w : Writable A) (p : Result A) (promise : ℕ) (ps : List (Result A)) (asked : ℕ)
      → Holds w ps asked
      → Holds (process p promise w) (ps ++ (p ∷ [])) asked
  process-Holds w p promise ps asked h =
      subst (λ v. Holds v (ps ++ (p ∷ [])) asked) (sym (process-eq w p promise h.no_error))
        (handed-Holds w p promise ps asked w.reader refl h)

  closed-hand_over :
      (w : Writable A) (p : Result A) (promise : ℕ) (o : Option ℕ)
      → (hand_over p promise w o).closed ≡ w.closed
  unfolding hand_over settle
  closed-hand_over w p promise none = refl
  closed-hand_over w p promise (some r) = refl

  closed-process :
      (w : Writable A) (p : Result A) (promise : ℕ) (o : Option String)
      → (process_in p promise w o).closed ≡ w.closed
  unfolding process_in settle
  closed-process w p promise none = closed-hand_over w p promise w.reader
  closed-process w p promise (some e) = refl

  closed-take_first :
      (w : Writable A) (promise : ℕ) (q : List (Result A × ℕ))
      → (take_first promise w q).closed ≡ w.closed
  unfolding take_first settle
  closed-take_first w promise [] = refl
  closed-take_first w promise ((p, writer) ∷ q) = refl

  closed-next_in :
      (w : Writable A) (promise : ℕ) (o : Option String) → (next_in promise w o).closed ≡ w.closed
  unfolding next_in settle
  closed-next_in w promise none = closed-take_first w promise w.queue
  closed-next_in w promise (some e) = refl

  -- The promises have numbers, which nothing depends on.
  called : Writable A → Writable A
  called w = record w { calls = w.calls + 1 }

  called-Holds :
      (w : Writable A) (ps : List (Result A)) (asked : ℕ)
      → Holds w ps asked
      → Holds (called w) ps asked
  unfolding called
  called-Holds w ps asked h = record {
    no_error = h.no_error;
    in_order = h.in_order;
    in_turn = h.in_turn;
    counted = h.counted;
  }

  closing-Holds :
      (w : Writable A) (ps : List (Result A)) (asked : ℕ)
      → Holds w ps asked
      → Holds (record w { closed = true }) ps asked
  closing-Holds w ps asked h = record {
    no_error = h.no_error;
    in_order = h.in_order;
    in_turn = h.in_turn;
    counted = h.counted;
  }

  -- If the iterable is closed behind a call.
  unfoldable pub closes : Bool → Call A → Bool
  closes b (write x) = b
  closes b close = true
  closes b next = b
  closes b (throw e) = b

  unfoldable pub Stepped : Call A → Writable A → List (Result A) → ℕ → Bool → Type 0
  unfolding closes
  Stepped c w ps asked b =
      Holds (step c w) (ps ++ accepted b (c ∷ [])) (asked + nexts (c ∷ []))
      × ((step c w).closed ≡ closes b c)

  -- A payload is handed over.
  delivers :
      (v w : Writable A) (p : Result A) (promise : ℕ) (ps : List (Result A)) (asked : ℕ)
      → v ≡ process p promise w
      → Holds w ps asked
      → Holds v (ps ++ (p ∷ [])) (asked + 0) × (v.closed ≡ w.closed)
  unfolding process
  delivers v w p promise ps asked e h = (
    subst (λ u. Holds u (ps ++ (p ∷ [])) (asked + 0)) (sym e)
        (subst (Holds (process p promise w) (ps ++ (p ∷ []))) (omega arith)
          (process-Holds w p promise ps asked h)),
    ap (λ (u : Writable A). u.closed) e ∙ closed-process w p promise w.error,
  )

  refuses :
      (v w : Writable A) (promise : ℕ) (text : String) (ps : List (Result A)) (asked : ℕ)
      → v ≡ settle promise (rejected text) w
      → Holds w ps asked
      → Holds v (ps ++ []) (asked + 0) × (v.closed ≡ w.closed)
  unfolding settle
  refuses v w promise text ps asked e h = (
    subst (λ u. Holds u (ps ++ []) (asked + 0)) (sym e)
        (subst (λ k. Holds (settle promise (rejected text) w) (ps ++ []) k) (omega arith)
          (subst (λ qs. Holds (settle promise (rejected text) w) qs asked) (sym (append-nil ps))
            (rejected-Holds w promise text ps asked h))),
    ap (λ (u : Writable A). u.closed) e,
  )

  pub step-Holds :
      (c : Call A) (w : Writable A) (ps : List (Result A)) (asked : ℕ) (b : Bool)
      → w.closed ≡ b
      → Holds w ps asked
      → IsCalm c w
      → Stepped c w ps asked b
  unfolding Stepped step call on_write on_close on_next next_in accepted nexts closes called
  step-Holds (write x) w ps asked true e h calm =
      let (held, same) =
        refuses (step (write x) w) (called w) w.calls "cannot write, already closed" ps asked
          (ap
            (λ b.
              if b
              then settle w.calls (rejected "cannot write, already closed") (called w)
              else process (value x) w.calls (called w))
            e)
          (called-Holds w ps asked h) in
      (held, same ∙ e)
  step-Holds (write x) w ps asked false e h calm =
      let (held, same) =
        delivers (step (write x) w) (called w) (value x) w.calls ps asked
          (ap
            (λ b.
              if b
              then settle w.calls (rejected "cannot write, already closed") (called w)
              else process (value x) w.calls (called w))
            e)
          (called-Holds w ps asked h) in
      (held, same ∙ e)
  step-Holds close w ps asked true e h calm =
      let (held, same) =
        refuses (step close w) (called w) w.calls "cannot close, already closed" ps asked
          (ap
            (λ b.
              if b
              then settle w.calls (rejected "cannot close, already closed") (called w)
              else process done w.calls (record (called w) { closed = true }))
            e)
          (called-Holds w ps asked h) in
      (held, same ∙ e)
  step-Holds close w ps asked false e h calm =
      delivers (step close w) (record (called w) { closed = true }) done w.calls ps asked
        (ap
          (λ b.
            if b
            then settle w.calls (rejected "cannot close, already closed") (called w)
            else process done w.calls (record (called w) { closed = true }))
          e)
        (closing-Holds (called w) ps asked (called-Holds w ps asked h))
  step-Holds next w ps asked b e h calm =
      let asks = ap (next_in w.calls (called w)) h.no_error in
      (
        subst (λ u. Holds u (ps ++ []) (asked + 1)) (sym asks)
            (subst (λ qs. Holds (take_first w.calls (called w) w.queue) qs (asked + 1))
              (sym (append-nil ps))
              (taken-Holds (called w) w.calls ps asked w.queue refl calm
                (called-Holds w ps asked h))),
        closed-next_in (called w) w.calls w.error ∙ e,
      )
  step-Holds (throw text) w ps asked b e h calm = absurd calm
