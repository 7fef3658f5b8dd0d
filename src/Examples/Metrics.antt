-- ===== src/Examples/Metrics.antt =====
-- The theorems about the metrics of dubbo-observable, at concrete courses of events.
use node_dubbo.Prelude.{ℕ, ◌+◌, ◌-◌, ◌≤◌, ◌≡◌, List, [], ◌∷◌, none, some, String, length, arith}
use node_dubbo.Observable.QpsCounter
use node_dubbo.Observable.QpsCounter.{start, cleanup, current_second}
use node_dubbo.Observable.QpsCounter.Requests
use node_dubbo.Observable.QpsCounter.Requests.{
  Event, request, fired, asked, stopped, replies, answers, last_second,
}
use node_dubbo.Observable.QpsCounter.Refinement.{replies-answers}
use node_dubbo.Observable.QpsCounter.Window.{cleanup-bounded}
use node_dubbo.Observable.Collector.{Call, Meter}
use node_dubbo.Observable.Collector.Provider.{
  ProviderMeterCollector, create_provider_meter_collector,
}
use node_dubbo.Observable.Collector.Provider.Events.{
  Collected, received, succeeded, failed, elapsed, shut_down, run, observed,
}
use node_dubbo.Observable.Collector.Provider.Observed.{received_log, run-observed}

abbrev some_seconds : List (ℕ × Event)
some_seconds =
    (9200, request)
    ∷ (9900, request)
    ∷ (10100, asked)
    ∷ (10300, fired)
    ∷ (16200, request)
    ∷ (17000, fired)
    ∷ (17500, asked)
    ∷ (17600, stopped)
    ∷ []

qps_example : replies start some_seconds ≡ answers [] some_seconds
qps_example = replies-answers 9000 some_seconds (omega arith)

window_example :
    length
      (QpsCounter.Requests.run
        (cleanup 17700 (QpsCounter.Requests.run start some_seconds))
        ((18000, request) ∷ [])).counter
    ≤ 6 + (current_second 18000 - current_second 17700)
window_example =
    cleanup-bounded 9000 some_seconds 17700 ((18000, request) ∷ []) (omega arith) (omega arith)
      (omega arith)

-- A meter that makes a new instrument for each name: its number is that of the calls before.
abbrev numbering : Meter ℕ String
numbering = record {
  create_counter = λ calls name options. some (count calls);
  create_observable_counter = λ calls name options. some (count calls);
}
  where
    count : List (Call ℕ String) → ℕ
    count [] = 0
    count (c ∷ calls) = count calls + 1

abbrev course : List (ℕ × Collected String)
course =
    (1100, received none)
    ∷ (1200, received none)
    ∷ (1300, succeeded none)
    ∷ (1800, elapsed)
    ∷ (1900, failed none)
    ∷ (2100, shut_down)
    ∷ []

abbrev provider : ProviderMeterCollector ℕ String
provider = create_provider_meter_collector numbering

observed_example :
    observed 2500 (run provider course).qps_counter ≡ last_second 2500 (received_log [] course)
observed_example = run-observed 1000 numbering course 2500 (omega arith) (omega arith)
