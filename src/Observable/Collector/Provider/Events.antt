-- ===== src/Observable/Collector/Provider/Events.antt =====
-- Courses of events at the collector of a provider in meter-collector.ts.
use node_dubbo.Prelude.{ℕ, ◌+◌, Bool, true, false, List, [], ◌∷◌, Option, none, some, if◌then◌else◌}
use node_dubbo.Observable.QpsCounter
use node_dubbo.Observable.QpsCounter.{QpsCounter}
use node_dubbo.Observable.Collector.{
  Call, created_counter, created_observable_counter, added, added_callback,
}
use node_dubbo.Observable.Collector.Provider.{
  ProviderMeterCollector, provider_request, provider_request_succeed, provider_request_failed,
  provider_shutdown,
}

-- What happens to a collector: its methods, and the firing of the interval of its counter.
pub data Collected (A : Type 0) : Type 0 where
  received : Option A → Collected A
  succeeded : Option A → Collected A
  failed : Option A → Collected A
  elapsed : Collected A
  shut_down : Collected A

unfoldable pub ticked : ℕ → Option QpsCounter → Option QpsCounter
ticked now none = none
ticked now (some q) = some (QpsCounter.tick now q)

-- What the callback given to the instrument observes, if there is one.
unfoldable pub observed : ℕ → Option QpsCounter → ℕ
observed now none = 0
observed now (some q) = QpsCounter.get_qps now q

module _ {I A : Type 0} where
  -- The sum of what was added to the instruments that pass a test.
  unfoldable pub total_of : (I → Bool) → List (Call I A) → ℕ
  total_of p [] = 0
  total_of p (created_counter name options ∷ calls) = total_of p calls
  total_of p (created_observable_counter name options ∷ calls) = total_of p calls
  total_of p (added i n attributes ∷ calls) =
      let sum = total_of p calls in if p i then n + sum else sum
  total_of p (added_callback i ∷ calls) = total_of p calls

  unfoldable pub callbacks : List (Call I A) → ℕ
  callbacks [] = 0
  callbacks (created_counter name options ∷ calls) = callbacks calls
  callbacks (created_observable_counter name options ∷ calls) = callbacks calls
  callbacks (added i n attributes ∷ calls) = callbacks calls
  callbacks (added_callback i ∷ calls) = callbacks calls + 1

  unfoldable pub step : ℕ → Collected A → ProviderMeterCollector I A → ProviderMeterCollector I A
  step now (received attributes) c = provider_request now attributes c
  step now (succeeded attributes) c = provider_request_succeed attributes c
  step now (failed attributes) c = provider_request_failed attributes c
  step now elapsed c = record c { qps_counter = ticked now c.qps_counter }
  step now shut_down c = provider_shutdown c

  unfoldable pub run :
      ProviderMeterCollector I A → List (ℕ × Collected A) → ProviderMeterCollector I A
  run c [] = c
  run c ((now, e) ∷ events) = run (step now e c) events

unfoldable pub count_of : {A : Type 0} → (Collected A → Bool) → List (ℕ × Collected A) → ℕ
count_of q [] = 0
count_of q ((now, e) ∷ events) = let n = count_of q events in if q e then n + 1 else n

unfoldable pub is_received : {A : Type 0} → Collected A → Bool
is_received (received attributes) = true
is_received (succeeded attributes) = false
is_received (failed attributes) = false
is_received elapsed = false
is_received shut_down = false

unfoldable pub is_succeeded : {A : Type 0} → Collected A → Bool
is_succeeded (received attributes) = false
is_succeeded (succeeded attributes) = true
is_succeeded (failed attributes) = false
is_succeeded elapsed = false
is_succeeded shut_down = false

unfoldable pub is_failed : {A : Type 0} → Collected A → Bool
is_failed (received attributes) = false
is_failed (succeeded attributes) = false
is_failed (failed attributes) = true
is_failed elapsed = false
is_failed shut_down = false
