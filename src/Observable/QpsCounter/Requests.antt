-- ===== src/Observable/QpsCounter/Requests.antt =====
-- What a counter of requests is for, without the memory of qps-counter.ts: all requests are
-- remembered, and those of the last second are counted.
use node_dubbo.Prelude.{ℕ, ◌+◌, ◌-◌, ◌≤◌, List, [], ◌∷◌, ◌==◌, if◌then◌else◌}
use node_dubbo.Observable.QpsCounter.{QpsCounter, current_second, tick, stop, get_qps, increment}

-- The calls of a counter, and the firing of its interval.
pub data Event : Type 0 where
  request : Event
  fired : Event
  stopped : Event
  asked : Event

-- The seconds of all requests so far, the last one in front.
abbrev pub Requests : Type 0
Requests = List ℕ

unfoldable pub requests_at : Requests → ℕ → ℕ
requests_at [] second = 0
requests_at (s ∷ rest) second = let n = requests_at rest second in if s == second then n + 1 else n

-- The requests of the second before the current one.
unfoldable pub last_second : ℕ → Requests → ℕ
unfolding requests_at current_second
last_second now log =
    if current_second now == 0 then 0 else requests_at log (current_second now - 1)

-- The answers to what is asked, by the remembered requests.
unfoldable pub answers : Requests → List (ℕ × Event) → List ℕ
unfolding last_second
answers log [] = []
answers log ((now, request) ∷ events) = answers (current_second now ∷ log) events
answers log ((now, fired) ∷ events) = answers log events
answers log ((now, stopped) ∷ events) = answers log events
answers log ((now, asked) ∷ events) = last_second now log ∷ answers log events

-- One event on the counter of the code.
unfoldable pub step : ℕ → Event → QpsCounter → QpsCounter
unfolding tick stop increment
step now request c = increment now c
step now fired c = tick now c
step now stopped c = stop c
step now asked c = c

unfoldable pub run : QpsCounter → List (ℕ × Event) → QpsCounter
unfolding step
run c [] = c
run c ((now, e) ∷ events) = run (step now e c) events

-- The answers of the code.
unfoldable pub replies : QpsCounter → List (ℕ × Event) → List ℕ
unfolding step get_qps
replies c [] = []
replies c ((now, asked) ∷ events) = get_qps now c ∷ replies c events
replies c ((now, request) ∷ events) = replies (increment now c) events
replies c ((now, fired) ∷ events) = replies (tick now c) events
replies c ((now, stopped) ∷ events) = replies (stop c) events

-- The clock starts at `now` and does not go back.
abbrev pub IsOrdered : ℕ → List (ℕ × Event) → Type 0
IsOrdered now [] = Unit
IsOrdered now ((next, e) ∷ events) = (now ≤ next) × IsOrdered next events
