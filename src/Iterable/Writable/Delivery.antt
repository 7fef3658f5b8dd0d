-- ===== src/Iterable/Writable/Delivery.antt =====
-- Whole courses of calls of a writable iterable of async-iterable.ts.
use node_dubbo.Prelude.{
  ℕ, ◌+◌, ◌≤◌, ◌≡◌, refl, sym, ap, subst, ◌∙◌, Bool, true, false, List, [], ◌∷◌, ◌++◌, Option, none,
  some, length, append_assoc, length-append, append-nil, arith, inl, inr,
}
use node_dubbo.Iterable.Writable.{
  Result, Writable, Call, write, close, next, throw, create_writable_iterable, step, run,
}
use node_dubbo.Iterable.Writable.Order.{reads, queued, accepted, nexts, one_at_most, AllCalm, Holds}
use node_dubbo.Iterable.Writable.Steps.{closes, Stepped, step-Holds}

no_reader : (o : Option ℕ) → one_at_most o ≡ 0 → o ≡ none
no_reader none h = refl
no_reader (some r) h = absurd (omega arith)

module _ {A : Type 0} where
  accepted-cons :
      (b : Bool) (c : Call A) (cs : List (Call A))
      → accepted b (c ∷ []) ++ accepted (closes b c) cs ≡ accepted b (c ∷ cs)
  unfolding accepted closes
  accepted-cons true (write x) cs = refl
  accepted-cons false (write x) cs = refl
  accepted-cons true close cs = refl
  accepted-cons false close cs = refl
  accepted-cons true next cs = refl
  accepted-cons false next cs = refl
  accepted-cons true (throw e) cs = refl
  accepted-cons false (throw e) cs = refl

  nexts-cons : (c : Call A) (cs : List (Call A)) → nexts (c ∷ cs) ≡ nexts (c ∷ []) + nexts cs
  unfolding nexts
  nexts-cons (write x) cs = omega arith
  nexts-cons close cs = omega arith
  nexts-cons next cs = omega arith
  nexts-cons (throw e) cs = omega arith

  run-Holds :
      (cs : List (Call A)) (w : Writable A) (ps : List (Result A)) (asked : ℕ) (b : Bool)
      → w.closed ≡ b
      → Holds w ps asked
      → AllCalm w cs
      → Holds (run w cs) (ps ++ accepted b cs) (asked + nexts cs)
  unfolding run Stepped accepted nexts
  run-Holds [] w ps asked b e h calm =
      subst (λ k. Holds w (ps ++ []) k) (omega arith)
        (subst (λ qs. Holds w qs asked) (sym (append-nil ps)) h)
  run-Holds (c ∷ cs) w ps asked b e h (calm, rest) =
      let (held, closed) = step-Holds c w ps asked b e h calm in
      subst (Holds (run (step c w) cs) (ps ++ accepted b (c ∷ cs))) (omega (arith, nexts-cons c cs))
        (subst (λ qs. Holds (run (step c w) cs) qs ((asked + nexts (c ∷ [])) + nexts cs))
          (append_assoc ps (accepted b (c ∷ [])) (accepted (closes b c) cs)
            ∙ ap (λ t. ps ++ t) (accepted-cons b c cs))
          (run-Holds cs (step c w) (ps ++ accepted b (c ∷ [])) (asked + nexts (c ∷ [])) (closes b c)
            closed held rest))

  start-Holds : Holds (create_writable_iterable {A = A}) [] 0
  unfolding create_writable_iterable reads queued
  start-Holds = record {
    no_error = refl;
    in_order = refl;
    in_turn = inl refl;
    counted = omega arith;
  }

  nothing_queued : (q : List (Result A × ℕ)) → length (queued q) ≡ 0 → q ≡ []
  unfolding queued
  nothing_queued [] h = refl
  nothing_queued ((p, writer) ∷ q) h = absurd (omega arith)

  sum_lem :
      (w : Writable A) (ps : List (Result A)) (asked : ℕ)
      → Holds w ps asked
      → length (reads w.settled) + length (queued w.queue) ≡ length ps
  sum_lem w ps asked h =
      sym (length-append (reads w.settled) (queued w.queue)) ∙ ap length h.in_order

  all_read :
      (w : Writable A) (ps : List (Result A)) (asked : ℕ)
      → Holds w ps asked
      → (reads w.settled ++ queued w.queue ≡ ps)
        × (asked ≤ length ps → w.reader ≡ none)
        × (length ps ≤ asked → w.queue ≡ [])
  unfolding queued
  all_read w ps asked h = (
    h.in_order,
    λ enough. elim h.in_turn [
      | inl free ↦ free
      | inr empty ↦
          no_reader w.reader
            (omega (arith, sum_lem w ps asked h, h.counted, ap (λ q. length (queued q)) empty))
    ],
    λ enough. elim h.in_turn [
      | inl free ↦
          nothing_queued w.queue
            (omega (arith, sum_lem w ps asked h, h.counted, ap one_at_most free))
      | inr empty ↦ empty
    ],
  )

  -- For any course of calls without a throw in which no reader asks while another one waits, the
  -- readers of a writable iterable have got, with what is still queued behind it, the payloads
  -- that were accepted (those written before the first close, and the close) in their order and
  -- once each. No reader is left waiting if there were at least as many payloads as readers asked,
  -- and nothing is left queued if readers asked at least as often as there were payloads.
  pub run-create_writable_iterable :
      (cs : List (Call A))
      → AllCalm create_writable_iterable cs
      → let w = run create_writable_iterable cs in
        (reads w.settled ++ queued w.queue ≡ accepted false cs)
        × (nexts cs ≤ length (accepted false cs) → w.reader ≡ none)
        × (length (accepted false cs) ≤ nexts cs → w.queue ≡ [])
  unfolding create_writable_iterable
  run-create_writable_iterable cs calm =
      all_read (run create_writable_iterable cs) (accepted false cs) (nexts cs) (
        subst (Holds (run create_writable_iterable cs) (accepted false cs)) (omega arith)
          (run-Holds cs create_writable_iterable [] 0 false refl start-Holds calm))
