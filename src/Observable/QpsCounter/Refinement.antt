-- ===== src/Observable/QpsCounter/Refinement.antt =====
-- The counter of qps-counter.ts against one that remembers all requests.
use node_dubbo.Prelude.{ℕ, ◌+◌, ◌-◌, ◌≤◌, ◌≡◌, refl, ap₂, List, [], ◌∷◌, ◌==◌, if◌then◌else◌, arith}
use node_dubbo.Observable.QpsCounter.{
  QpsCounter, count_at, current_second, start, cleanup, tick, stop, get_qps, increment,
}
use node_dubbo.Observable.QpsCounter.Counts.{current_second_mono, count_at-set_at, count_at-filter}
use node_dubbo.Observable.QpsCounter.Requests.{
  Event, request, fired, stopped, asked, Requests, requests_at, last_second, answers, replies,
  IsOrdered,
}

-- The counts of the seconds that a cleanup at `now` keeps are those of the requests.
unfoldable pub Counts : ℕ → Requests → QpsCounter → Type 0
Counts now log c =
    (key : ℕ) → current_second now ≤ key + 5 → count_at c.counter key ≡ requests_at log key

pub later-Counts :
    {now next : ℕ} (log : Requests) (c : QpsCounter)
    → now ≤ next
    → Counts now log c
    → Counts next log c
unfolding Counts
later-Counts {now} {next} log c h sim key le =
    sim key (omega (arith, current_second_mono now next h))

pub increment-Counts :
    (now : ℕ) (log : Requests) (c : QpsCounter)
    → Counts now log c
    → Counts now (current_second now ∷ log) (increment now c)
unfolding Counts increment requests_at
increment-Counts now log c sim key le = ground (
  arith,
  count_at-set_at c.counter (current_second now)
      (if count_at c.counter (current_second now) == 0
        then 1
        else count_at c.counter (current_second now) + 1)
      key,
  sim key le,
  sim (current_second now) (omega arith),
)

pub tick-Counts :
    (now : ℕ) (log : Requests) (c : QpsCounter) → Counts now log c → Counts now log (tick now c)
unfolding Counts tick cleanup
tick-Counts now log c sim key le =
    ground (arith, count_at-filter (current_second now) c.counter key le, sim key le)

pub stop-Counts :
    (now : ℕ) (log : Requests) (c : QpsCounter) → Counts now log c → Counts now log (stop c)
unfolding Counts stop
stop-Counts now log c sim = sim

pub get_qps-Counts :
    (now : ℕ) (log : Requests) (c : QpsCounter)
    → Counts now log c
    → get_qps now c ≡ last_second now log
unfolding Counts get_qps last_second
get_qps-Counts now log c sim = ground (arith, sim (current_second now - 1))

replies-Counts :
    (now : ℕ) (log : Requests) (c : QpsCounter) (events : List (ℕ × Event))
    → Counts now log c
    → IsOrdered now events
    → replies c events ≡ answers log events
unfolding replies answers
replies-Counts now log c [] sim h = refl
replies-Counts now log c ((next, request) ∷ events) sim (le, h) =
    replies-Counts next (current_second next ∷ log) (increment next c) events
      (increment-Counts next log c (later-Counts log c le sim)) h
replies-Counts now log c ((next, fired) ∷ events) sim (le, h) =
    replies-Counts next log (tick next c) events
      (tick-Counts next log c (later-Counts log c le sim)) h
replies-Counts now log c ((next, stopped) ∷ events) sim (le, h) =
    replies-Counts next log (stop c) events (stop-Counts next log c (later-Counts log c le sim)) h
replies-Counts now log c ((next, asked) ∷ events) sim (le, h) =
    ap₂ ◌∷◌ (get_qps-Counts next log c (later-Counts log c le sim))
      (replies-Counts next log c events (later-Counts log c le sim) h)

pub start-Counts : (now : ℕ) → Counts now [] start
unfolding Counts start count_at requests_at
start-Counts now key le = refl

-- For any course of requests, cleanups, stops and questions with a clock that does not go back, a
-- QpsCounter answers what a counter would that remembers all requests: the number of those in the
-- second before the current one.
pub replies-answers :
    (now : ℕ) (events : List (ℕ × Event))
    → IsOrdered now events
    → replies start events ≡ answers [] events
replies-answers now events h = replies-Counts now [] start events (start-Counts now) h
