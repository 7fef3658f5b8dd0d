-- ===== src/Observable/Collector/Provider/Totals.antt =====
-- What the collectors of meter-collector.ts report, over any course of events.
use node_dubbo.Prelude.{
  ℕ, ◌+◌, ◌≡◌, refl, Bool, List, [], ◌∷◌, Option, none, some, if◌then◌else◌, arith,
}
use node_dubbo.Observable.QpsCounter.{QpsCounter}
use node_dubbo.Observable.Collector.{shutdown, MeterCollector, add_one, add_callback}
use node_dubbo.Observable.Collector.Provider.{
  ProviderMeterCollector, provider_request, provider_request_succeed, provider_request_failed,
  provider_shutdown, counted_provider,
}
use node_dubbo.Observable.Collector.Provider.Events.{
  Collected, received, succeeded, failed, elapsed, shut_down, total_of, step, run, count_of,
  is_received, is_succeeded, is_failed,
}

-- `n` for an instrument that passes the test.
pub weight : {I : Type 0} → (I → Bool) → Option I → ℕ → ℕ
weight p none n = 0
weight p (some i) n = if p i then n else 0

weight-suc :
    {I : Type 0} (p : I → Bool) (i : Option I) (n : ℕ)
    → weight p i (n + 1) ≡ weight p i 1 + weight p i n
unfolding weight
weight-suc p none n = refl
weight-suc p (some i) n = ground arith

weight-zero : {I : Type 0} (p : I → Bool) (i : Option I) → weight p i 0 ≡ 0
unfolding weight
weight-zero p none = refl
weight-zero p (some i) = ground arith

total_of-add_one :
    {I A : Type 0} (p : I → Bool) (i : Option I) (attributes : Option A) (c : MeterCollector I A)
    → total_of p (add_one i attributes c).calls ≡ weight p i 1 + total_of p c.calls
unfolding total_of add_one weight
total_of-add_one p none attributes c = omega arith
total_of-add_one p (some i) attributes c = ground arith

total_of-add_callback :
    {I A : Type 0} (p : I → Bool) (i : Option I) (c : MeterCollector I A)
    → total_of p (add_callback i c).calls ≡ total_of p c.calls
unfolding total_of add_callback
total_of-add_callback p none c = refl
total_of-add_callback p (some i) c = refl

total_of-counted :
    {I A : Type 0} (p : I → Bool) (now : ℕ) (c : ProviderMeterCollector I A) (q : Option QpsCounter)
    → total_of p (counted_provider now c q).base.calls ≡ total_of p c.base.calls
unfolding counted_provider
total_of-counted p now c none = total_of-add_callback p c.provider_request_qps c.base
total_of-counted p now c (some q) = refl

-- The instruments stay as they are.
totals-counted :
    {I A : Type 0} (now : ℕ) (c : ProviderMeterCollector I A) (q : Option QpsCounter)
    → let d = counted_provider now c q in
      (d.provider_request_total ≡ c.provider_request_total)
      × (d.provider_request_succeed_total ≡ c.provider_request_succeed_total)
      × (d.provider_request_failed_total ≡ c.provider_request_failed_total)
unfolding counted_provider
totals-counted now c none = (refl, refl, refl)
totals-counted now c (some q) = (refl, refl, refl)

module _ {I A : Type 0} (p : I → Bool) where
  step_total :
      (now : ℕ) (e : Collected A) (c : ProviderMeterCollector I A)
      → total_of p (step now e c).base.calls
        ≡ total_of p c.base.calls
          + ((if is_received e then weight p c.provider_request_total 1 else 0)
              + (if is_succeeded e then weight p c.provider_request_succeed_total 1 else 0)
              + (if is_failed e then weight p c.provider_request_failed_total 1 else 0))
  unfolding step provider_request provider_request_succeed provider_request_failed provider_shutdown
      is_received is_succeeded is_failed shutdown
  step_total now (received attributes) c = omega (
    arith,
    total_of-counted p now (record c { base = add_one c.provider_request_total attributes c.base })
        c.qps_counter,
    total_of-add_one p c.provider_request_total attributes c.base,
  )
  step_total now (succeeded attributes) c =
      omega (arith, total_of-add_one p c.provider_request_succeed_total attributes c.base)
  step_total now (failed attributes) c =
      omega (arith, total_of-add_one p c.provider_request_failed_total attributes c.base)
  step_total now elapsed c = omega arith
  step_total now shut_down c = omega arith

  step_instruments :
      (now : ℕ) (e : Collected A) (c : ProviderMeterCollector I A)
      → let d = step now e c in
        (d.provider_request_total ≡ c.provider_request_total)
        × (d.provider_request_succeed_total ≡ c.provider_request_succeed_total)
        × (d.provider_request_failed_total ≡ c.provider_request_failed_total)
  unfolding step provider_request provider_request_succeed provider_request_failed provider_shutdown
  step_instruments now (received attributes) c =
      totals-counted now (record c { base = add_one c.provider_request_total attributes c.base })
        c.qps_counter
  step_instruments now (succeeded attributes) c = (refl, refl, refl)
  step_instruments now (failed attributes) c = (refl, refl, refl)
  step_instruments now elapsed c = (refl, refl, refl)
  step_instruments now shut_down c = (refl, refl, refl)

  -- Over any course of events at the collector of a provider, what is added to the instruments
  -- that pass a test is one for each request if the instrument of all requests passes it, one for
  -- each success if that of the successes does, and one for each failure if that of the failures
  -- does.
  run_total :
      (c : ProviderMeterCollector I A) (events : List (ℕ × Collected A))
      → total_of p (run c events).base.calls
        ≡ total_of p c.base.calls
          + (weight p c.provider_request_total (count_of is_received events)
              + weight p c.provider_request_succeed_total (count_of is_succeeded events)
              + weight p c.provider_request_failed_total (count_of is_failed events))
  unfolding run count_of
  run_total c [] = omega (
    arith,
    weight-zero p c.provider_request_total,
    weight-zero p c.provider_request_succeed_total,
    weight-zero p c.provider_request_failed_total,
  )
  run_total c ((now, e) ∷ events) = ground (
    arith,
    run_total (step now e c) events,
    step_total now e c,
    step_instruments now e c,
    weight-suc p c.provider_request_total (count_of is_received events),
    weight-suc p c.provider_request_succeed_total (count_of is_succeeded events),
    weight-suc p c.provider_request_failed_total (count_of is_failed events),
  )
