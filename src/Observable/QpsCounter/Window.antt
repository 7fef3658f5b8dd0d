-- ===== src/Observable/QpsCounter/Window.antt =====
-- How many seconds the counter of qps-counter.ts remembers.
use node_dubbo.Prelude.{
  ℕ, suc, ◌+◌, ◌-◌, ◌<◌, ◌≤◌, ◌≡◌, inl, inr, false, List, [], ◌∷◌, ltb, filter, length, Bool-cases,
  arith,
}
use node_dubbo.Observable.QpsCounter.{
  QpsCounter, has_key, replace_at, set_at, is_kept, current_second, cleanup, tick, stop, increment,
  start,
}
use node_dubbo.Observable.QpsCounter.Counts.{current_second_mono}
use node_dubbo.Observable.QpsCounter.Requests.{
  Event, request, fired, stopped, asked, step, run, IsOrdered,
}

-- The keys go down from below `bound`, none under `low`.
Descends : ℕ → ℕ → List (ℕ × ℕ) → Type 0
Descends low bound [] = Unit
Descends low bound ((k, n) ∷ rest) = (low ≤ k) × (k < bound) × Descends low k rest

length-Descends : (low bound : ℕ) (c : List (ℕ × ℕ)) → Descends low bound c → length c ≤ bound - low
unfolding Descends
length-Descends low bound [] d = omega arith
length-Descends low bound ((k, n) ∷ rest) (le, lt, d) = omega (arith, length-Descends low k rest d)

wider-Descends :
    (low bound wider : ℕ) (c : List (ℕ × ℕ))
    → bound ≤ wider
    → Descends low bound c
    → Descends low wider c
unfolding Descends
wider-Descends low bound wider [] h d = d
wider-Descends low bound wider ((k, n) ∷ rest) h (le, lt, d) = (le, omega arith, d)

filter-Descends :
    (low bound cs : ℕ) (c : List (ℕ × ℕ))
    → Descends low bound c
    → Descends low bound (filter (is_kept cs) c)
unfolding Descends is_kept
filter-Descends low bound cs [] d = d
filter-Descends low bound cs ((k, n) ∷ rest) (le, lt, d) = elim (Bool-cases (ltb (k + 5) cs)) [
  | inl e ↦ rw e (wider-Descends low k bound _ (omega arith) (filter-Descends low k cs rest d))
  | inr e ↦ rw e (le, lt, filter-Descends low k cs rest d)
]

-- What a cleanup leaves is not under `cs - 5`.
kept-Descends :
    (low bound cs : ℕ) (c : List (ℕ × ℕ))
    → Descends low bound c
    → Descends (cs - 5) bound (filter (is_kept cs) c)
unfolding Descends is_kept
kept-Descends low bound cs [] d = d
kept-Descends low bound cs ((k, n) ∷ rest) (le, lt, d) = elim (Bool-cases (ltb (k + 5) cs)) [
  | inl e ↦ rw e (wider-Descends (cs - 5) k bound _ (omega arith) (kept-Descends low k cs rest d))
  | inr e ↦ rw e (ground arith, lt, kept-Descends low k cs rest d)
]

replace_at-Descends :
    (low bound key value : ℕ) (c : List (ℕ × ℕ))
    → Descends low bound c
    → Descends low bound (replace_at c key value)
unfolding Descends replace_at
replace_at-Descends low bound key value [] d = d
replace_at-Descends low bound key value ((k, n) ∷ rest) (le, lt, d) =
    (le, lt, replace_at-Descends low k key value rest d)

-- A key that is missing and at most the newest one would not keep the order: the clock does not
-- go back, so that the key is the newest one or above.
below-Descends :
    (low cs : ℕ) (c : List (ℕ × ℕ))
    → has_key c cs ≡ false
    → Descends low (suc cs) c
    → Descends low cs c
unfolding Descends has_key
below-Descends low cs [] h d = d
below-Descends low cs ((k, n) ∷ rest) h (le, lt, d) = (le, ground arith, d)

set_at-Descends :
    (low cs value : ℕ) (c : List (ℕ × ℕ))
    → low ≤ cs
    → Descends low (suc cs) c
    → Descends low (suc cs) (set_at c cs value)
unfolding Descends set_at
set_at-Descends low cs value c le d = elim (Bool-cases (has_key c cs)) [
  | inl e ↦ rw e (replace_at-Descends low (suc cs) cs value c d)
  | inr e ↦ rw e (le, omega arith, below-Descends low cs c e d)
]

-- The keys lie between `low` and the current second.
InWindow : ℕ → ℕ → QpsCounter → Type 0
InWindow low now c = (low ≤ current_second now) × Descends low (suc (current_second now)) c.counter

later-InWindow :
    (low now next : ℕ) (c : QpsCounter) → now ≤ next → InWindow low now c → InWindow low next c
unfolding InWindow
later-InWindow low now next c h (le, d) = (
  omega (arith, current_second_mono now next h),
  wider-Descends low (suc (current_second now)) (suc (current_second next)) c.counter
      (omega (arith, current_second_mono now next h)) d,
)

step-InWindow :
    (low now : ℕ) (e : Event) (c : QpsCounter)
    → InWindow low now c
    → InWindow low now (step now e c)
unfolding InWindow step tick cleanup increment stop
step-InWindow low now request c (le, d) =
    (le, set_at-Descends low (current_second now) _ c.counter le d)
step-InWindow low now fired c (le, d) = elim (Bool-cases c.is_scheduled) [
  | inl e ↦
      rw e (le, filter-Descends low (suc (current_second now)) (current_second now) c.counter d)
  | inr e ↦ rw e (le, d)
]
step-InWindow low now stopped c w = w
step-InWindow low now asked c w = w

-- The time of the last event.
abbrev pub end_time : ℕ → List (ℕ × Event) → ℕ
end_time now [] = now
end_time now ((next, e) ∷ events) = end_time next events

run-InWindow :
    (low now : ℕ) (c : QpsCounter) (events : List (ℕ × Event))
    → InWindow low now c
    → IsOrdered now events
    → InWindow low (end_time now events) (run c events)
unfolding run
run-InWindow low now c [] w h = w
run-InWindow low now c ((next, e) ∷ events) w (le, h) =
    run-InWindow low next (step next e c) events
      (step-InWindow low next e c (later-InWindow low now next c le w)) h

start-InWindow : (now : ℕ) → InWindow 0 now start
unfolding InWindow start Descends
start-InWindow now = (omega arith, tt)

cleanup-InWindow :
    (low now : ℕ) (c : QpsCounter)
    → InWindow low now c
    → InWindow (current_second now - 5) now (cleanup now c)
unfolding InWindow cleanup
cleanup-InWindow low now c (le, d) =
    (omega arith, kept-Descends low (suc (current_second now)) (current_second now) c.counter d)

-- With a clock that does not go back, the number of seconds that a QpsCounter remembers is at most
-- six and the number of seconds since the last cleanup, whatever happened before and after it.
pub cleanup-bounded :
    (now : ℕ) (before : List (ℕ × Event)) (later : ℕ) (after : List (ℕ × Event))
    → IsOrdered now before
    → end_time now before ≤ later
    → IsOrdered later after
    → length (run (cleanup later (run start before)) after).counter
      ≤ 6 + (current_second (end_time later after) - current_second later)
unfolding InWindow
cleanup-bounded now before later after hb hl ha = omega (
  arith,
  window.0,
  length-Descends (current_second later - 5) (suc (current_second (end_time later after))) _
      window.1,
)
  where
    window :
        InWindow
          (current_second later - 5)
          (end_time later after)
          (run (cleanup later (run start before)) after)
    window =
        run-InWindow (current_second later - 5) later (cleanup later (run start before)) after
          (cleanup-InWindow 0 later (run start before) (
            later-InWindow 0 (end_time now before) later (run start before) hl
              (run-InWindow 0 now start before (start-InWindow now) hb)))
          ha
