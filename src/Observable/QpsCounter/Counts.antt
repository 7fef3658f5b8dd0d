-- ===== src/Observable/QpsCounter/Counts.antt =====
-- What the operations on `counter` in qps-counter.ts do to the count of one second.
use node_dubbo.Prelude.{
  ℕ, ◌+◌, ◌≤◌, ◌≡◌, refl, List, [], ◌∷◌, ◌&&◌, ◌==◌, if◌then◌else◌, filter, arith,
}
use node_dubbo.Observable.QpsCounter.{
  current_second, count_at, has_key, replace_at, set_at, is_kept,
}

count_at-replace_at :
    (c : List (ℕ × ℕ)) (key value j : ℕ)
    → count_at (replace_at c key value) j
      ≡ (if (key == j) && has_key c key then value else count_at c j)
unfolding count_at has_key replace_at
count_at-replace_at [] key value j = ground arith
count_at-replace_at ((k, n) ∷ rest) key value j =
    ground (arith, count_at-replace_at rest key value j)

pub count_at-set_at :
    (c : List (ℕ × ℕ)) (key value j : ℕ)
    → count_at (set_at c key value) j ≡ (if key == j then value else count_at c j)
unfolding count_at set_at
count_at-set_at c key value j = ground (arith, count_at-replace_at c key value j)

-- A second that is kept has the count that it had.
pub count_at-filter :
    (cs : ℕ) (c : List (ℕ × ℕ)) (key : ℕ)
    → cs ≤ key + 5
    → count_at (filter (is_kept cs) c) key ≡ count_at c key
unfolding count_at is_kept
count_at-filter cs [] key h = refl
count_at-filter cs ((k, n) ∷ rest) key h = ground (arith, count_at-filter cs rest key h)

pub current_second_mono : (now next : ℕ) → now ≤ next → current_second now ≤ current_second next
unfolding current_second
current_second_mono now next h = omega arith
