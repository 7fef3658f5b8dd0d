-- ===== src/Observable/QpsCounter.antt =====
-- packages/dubbo-observable/src/qps-counter.ts: requests counted by second. The clock is a
-- number of milliseconds, read once by each call.
pub mod Counts
pub mod Requests
pub mod Window
pub mod Refinement
use node_dubbo.Prelude.{
  ℕ, zero, suc, ◌+◌, ◌-◌, ◌/◌, Bool, true, false, not, List, [], ◌∷◌, ltb, ◌==◌, if◌then◌else◌,
  filter,
}

-- `counter` by its keys; the interval of the cleanup is set until it is cleared.
pub record QpsCounter : Type 0 where
  pub counter : List (ℕ × ℕ)
  pub is_scheduled : Bool

pub start : QpsCounter
start = record { counter = []; is_scheduled = true }

pub current_second : ℕ → ℕ
current_second now = now / 1000

-- `this.counter[key]`; a missing key reads as 0, which the code does not tell from a count of 0.
pub count_at : List (ℕ × ℕ) → ℕ → ℕ
count_at [] key = 0
count_at ((k, n) ∷ rest) key = let found = count_at rest key in if k == key then n else found

-- `this.counter[key] = value`, a new key in front.
has_key : List (ℕ × ℕ) → ℕ → Bool
has_key [] key = false
has_key ((k, n) ∷ rest) key = let found = has_key rest key in if k == key then true else found

replace_at : List (ℕ × ℕ) → ℕ → ℕ → List (ℕ × ℕ)
replace_at [] key value = []
replace_at ((k, n) ∷ rest) key value =
    (k, (if k == key then value else n)) ∷ replace_at rest key value

pub set_at : List (ℕ × ℕ) → ℕ → ℕ → List (ℕ × ℕ)
set_at counter key value =
    if has_key counter key then replace_at counter key value else (key, value) ∷ counter

-- What the interval runs: the seconds before `cs - 5` are deleted.
pub is_kept : ℕ → ℕ × ℕ → Bool
is_kept cs (key, n) = not (ltb (key + 5) cs)

pub cleanup : ℕ → QpsCounter → QpsCounter
cleanup now c = record c { counter = filter (is_kept (current_second now)) c.counter }

-- The interval fires when a second has passed, as long as it is set.
pub tick : ℕ → QpsCounter → QpsCounter
tick now c = if c.is_scheduled then cleanup now c else c

pub stop : QpsCounter → QpsCounter
stop c = record c { is_scheduled = false }

-- In second 0 the key is -1, which no call sets.
pub get_qps : ℕ → QpsCounter → ℕ
get_qps now c = if current_second now == 0 then 0 else count_at c.counter (current_second now - 1)

pub increment : ℕ → QpsCounter → QpsCounter
increment now c =
    let cs = current_second now in
    let n = count_at c.counter cs in
    record c { counter = set_at c.counter cs (if n == 0 then 1 else n + 1) }
