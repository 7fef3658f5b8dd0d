-- ===== src/Observable/Collector/Provider/Observed.antt =====
-- What the callback of a provider's collector in meter-collector.ts observes.
use node_dubbo.Prelude.{ℕ, ◌≤◌, ◌≡◌, refl, List, [], ◌∷◌, Option, none, some, arith}
use node_dubbo.Observable.QpsCounter
use node_dubbo.Observable.QpsCounter.{QpsCounter, current_second, count_at}
use node_dubbo.Observable.QpsCounter.Requests.{Requests, requests_at, last_second}
use node_dubbo.Observable.QpsCounter.Refinement.{
  Counts, get_qps-Counts, increment-Counts, tick-Counts, stop-Counts, later-Counts, start-Counts,
}
use node_dubbo.Observable.Collector.{Meter}
use node_dubbo.Observable.Collector.Provider.{
  ProviderMeterCollector, provider_request, provider_request_succeed, provider_request_failed,
  provider_shutdown, create_provider_meter_collector, counted_provider, stopped_provider,
}
use node_dubbo.Observable.Collector.Provider.Events.{
  Collected, received, succeeded, failed, elapsed, shut_down, ticked, observed, step, run,
}

-- The clock starts at `now` and does not go back.
abbrev pub IsOrdered : {A : Type 0} → ℕ → List (ℕ × Collected A) → Type 0
IsOrdered now [] = Unit
IsOrdered now ((next, e) ∷ events) = (now ≤ next) × IsOrdered next events

abbrev pub end_time : {A : Type 0} → ℕ → List (ℕ × Collected A) → ℕ
end_time now [] = now
end_time now ((next, e) ∷ events) = end_time next events

-- The seconds of the requests received, after those in a log.
pub received_log : {A : Type 0} → Requests → List (ℕ × Collected A) → Requests
received_log log [] = log
received_log log ((now, received attributes) ∷ events) =
    received_log (current_second now ∷ log) events
received_log log ((now, succeeded attributes) ∷ events) = received_log log events
received_log log ((now, failed attributes) ∷ events) = received_log log events
received_log log ((now, elapsed) ∷ events) = received_log log events
received_log log ((now, shut_down) ∷ events) = received_log log events

-- Before the first request there is no counter.
Reports : ℕ → Requests → Option QpsCounter → Type 0
Reports now log none = log ≡ []
Reports now log (some q) = Counts now log q

later-Reports :
    (now next : ℕ) (log : Requests) (o : Option QpsCounter)
    → now ≤ next
    → Reports now log o
    → Reports next log o
unfolding Reports
later-Reports now next log none h r = r
later-Reports now next log (some q) h r = later-Counts log q h r

counted-Reports :
    {I A : Type 0} (now : ℕ) (log : Requests) (c : ProviderMeterCollector I A)
    (o : Option QpsCounter)
    → Reports now log o
    → Reports now (current_second now ∷ log) (counted_provider now c o).qps_counter
unfolding Reports counted_provider
counted-Reports now log c none r =
    increment-Counts now log QpsCounter.start (rw r (start-Counts now))
counted-Reports now log c (some q) r = increment-Counts now log q r

ticked-Reports :
    (now : ℕ) (log : Requests) (o : Option QpsCounter)
    → Reports now log o
    → Reports now log (ticked now o)
unfolding Reports ticked
ticked-Reports now log none r = r
ticked-Reports now log (some q) r = tick-Counts now log q r

stopped-Reports :
    (now : ℕ) (log : Requests) (o : Option QpsCounter)
    → Reports now log o
    → Reports now log (stopped_provider o)
unfolding Reports stopped_provider
stopped-Reports now log none r = r
stopped-Reports now log (some q) r = stop-Counts now log q r

observed-Reports :
    (now : ℕ) (log : Requests) (o : Option QpsCounter)
    → Reports now log o
    → observed now o ≡ last_second now log
unfolding Reports observed last_second requests_at
observed-Reports now log none r = rw r (ground arith)
observed-Reports now log (some q) r = get_qps-Counts now log q r

run-Reports :
    {I A : Type 0} (now : ℕ) (log : Requests) (c : ProviderMeterCollector I A)
    (events : List (ℕ × Collected A))
    → Reports now log c.qps_counter
    → IsOrdered now events
    → Reports (end_time now events) (received_log log events) (run c events).qps_counter
unfolding run received_log step provider_request provider_request_succeed provider_request_failed
    provider_shutdown
run-Reports now log c [] r h = r
run-Reports now log c ((next, received attributes) ∷ events) r (le, h) =
    run-Reports next (current_second next ∷ log) (provider_request next attributes c) events
      (counted-Reports next log _ c.qps_counter (later-Reports now next log c.qps_counter le r)) h
run-Reports now log c ((next, succeeded attributes) ∷ events) r (le, h) =
    run-Reports next log (provider_request_succeed attributes c) events
      (later-Reports now next log c.qps_counter le r) h
run-Reports now log c ((next, failed attributes) ∷ events) r (le, h) =
    run-Reports next log (provider_request_failed attributes c) events
      (later-Reports now next log c.qps_counter le r) h
run-Reports now log c ((next, elapsed) ∷ events) r (le, h) =
    run-Reports next log (step next elapsed c) events
      (ticked-Reports next log c.qps_counter (later-Reports now next log c.qps_counter le r)) h
run-Reports now log c ((next, shut_down) ∷ events) r (le, h) =
    run-Reports next log (provider_shutdown c) events
      (stopped-Reports next log c.qps_counter (later-Reports now next log c.qps_counter le r)) h

-- With a clock that does not go back, what the callback of a new collector of a provider observes
-- after any course of events is the number of requests in the second before, also after a
-- shutdown.
pub run-observed :
    {I A : Type 0} (now : ℕ) (m : Meter I A) (events : List (ℕ × Collected A)) (later : ℕ)
    → IsOrdered now events
    → end_time now events ≤ later
    → observed later (run (create_provider_meter_collector m) events).qps_counter
      ≡ last_second later (received_log [] events)
unfolding create_provider_meter_collector Reports
run-observed now m events later h le = observed-Reports later log q (
    later-Reports (end_time now events) later log q le
      (run-Reports now [] (create_provider_meter_collector m) events refl h))
  where
    log : Requests
    log = received_log [] events

    q : Option QpsCounter
    q = (run (create_provider_meter_collector m) events).qps_counter
