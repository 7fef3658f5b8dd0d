-- ===== src/Observable/Collector/Provider/Callback.antt =====
-- How often the collector of a provider in meter-collector.ts gives a callback to its instrument.
use node_dubbo.Prelude.{
  ℕ, ◌+◌, ◌≡◌, refl, sym, ◌∙◌, List, [], ◌∷◌, Option, none, some, if◌then◌else◌, arith, ◌==◌,
}
use node_dubbo.Observable.QpsCounter
use node_dubbo.Observable.QpsCounter.{QpsCounter}
use node_dubbo.Observable.Collector.{MeterCollector, shutdown, add_one, add_callback}
use node_dubbo.Observable.Collector.Provider.{
  ProviderMeterCollector, provider_request, provider_request_succeed, provider_request_failed,
  provider_shutdown, counted_provider, stopped_provider,
}
use node_dubbo.Observable.Collector.Provider.Events.{
  Collected, received, succeeded, failed, elapsed, shut_down, ticked, callbacks, step, run,
  count_of, is_received,
}

-- Among `n` requests, the first one registers the callback, if there is an instrument and no
-- counter yet.
registered : {I : Type 0} → Option I → Option QpsCounter → ℕ → ℕ
registered none q n = 0
registered (some i) none n = if n == 0 then 0 else 1
registered (some i) (some q) n = 0

callbacks-add_one :
    {I A : Type 0} (i : Option I) (attributes : Option A) (c : MeterCollector I A)
    → callbacks (add_one i attributes c).calls ≡ callbacks c.calls
unfolding callbacks add_one
callbacks-add_one none attributes c = refl
callbacks-add_one (some i) attributes c = refl

registered-some : {I : Type 0} (i : Option I) (q : QpsCounter) (n : ℕ) → registered i (some q) n ≡ 0
unfolding registered
registered-some none q n = refl
registered-some (some i) q n = refl

callbacks-add_callback :
    {I A : Type 0} (i : Option I) (c : MeterCollector I A) (n : ℕ)
    → callbacks (add_callback i c).calls ≡ callbacks c.calls + registered i none (n + 1)
unfolding registered callbacks add_callback
callbacks-add_callback none c n = omega arith
callbacks-add_callback (some i) c n = ground arith

registered-zero : {I : Type 0} (i : Option I) (o : Option QpsCounter) → registered i o 0 ≡ 0
unfolding registered
registered-zero none o = refl
registered-zero (some i) none = refl
registered-zero (some i) (some q) = refl

registered-ticked :
    {I : Type 0} (i : Option I) (now : ℕ) (o : Option QpsCounter) (n : ℕ)
    → registered i (ticked now o) n ≡ registered i o n
unfolding ticked
registered-ticked i now none n = refl
registered-ticked i now (some q) n =
    registered-some i (QpsCounter.tick now q) n ∙ sym (registered-some i q n)

registered-stopped :
    {I : Type 0} (i : Option I) (o : Option QpsCounter) (n : ℕ)
    → registered i (stopped_provider o) n ≡ registered i o n
unfolding stopped_provider
registered-stopped i none n = refl
registered-stopped i (some q) n =
    registered-some i (QpsCounter.stop q) n ∙ sym (registered-some i q n)

module _ {I A : Type 0} where
  request_callbacks :
      (now : ℕ) (attributes : Option A) (c : ProviderMeterCollector I A) (o : Option QpsCounter)
      (n : ℕ)
      → let d =
          counted_provider now
            (record c { base = add_one c.provider_request_total attributes c.base })
            o in
        callbacks d.base.calls + registered d.provider_request_qps d.qps_counter n
        ≡ callbacks c.base.calls + registered c.provider_request_qps o (n + 1)
  unfolding counted_provider
  request_callbacks now attributes c none n = omega (
    arith,
    registered-some c.provider_request_qps (QpsCounter.increment now QpsCounter.start) n,
    callbacks-add_callback c.provider_request_qps
        (add_one c.provider_request_total attributes c.base) n,
    callbacks-add_one c.provider_request_total attributes c.base,
  )
  request_callbacks now attributes c (some q) n = omega (
    arith,
    registered-some c.provider_request_qps (QpsCounter.increment now q) n,
    registered-some c.provider_request_qps q (n + 1),
    callbacks-add_one c.provider_request_total attributes c.base,
  )

  -- Over any course of events at the collector of a provider, a callback is given to the
  -- instrument of the requests per second once, at the first request, if there is an instrument
  -- and no counter yet, and never otherwise.
  run_callbacks :
      (c : ProviderMeterCollector I A) (events : List (ℕ × Collected A))
      → callbacks (run c events).base.calls
        ≡ callbacks c.base.calls
          + registered c.provider_request_qps c.qps_counter (count_of is_received events)
  unfolding run count_of is_received step provider_request provider_request_succeed
      provider_request_failed provider_shutdown shutdown
  run_callbacks c [] = omega (arith, registered-zero c.provider_request_qps c.qps_counter)
  run_callbacks c ((now, received attributes) ∷ events) = omega (
    arith,
    run_callbacks (provider_request now attributes c) events,
    request_callbacks now attributes c c.qps_counter (count_of is_received events),
  )
  run_callbacks c ((now, succeeded attributes) ∷ events) = omega (
    arith,
    run_callbacks (provider_request_succeed attributes c) events,
    callbacks-add_one c.provider_request_succeed_total attributes c.base,
  )
  run_callbacks c ((now, failed attributes) ∷ events) = omega (
    arith,
    run_callbacks (provider_request_failed attributes c) events,
    callbacks-add_one c.provider_request_failed_total attributes c.base,
  )
  run_callbacks c ((now, elapsed) ∷ events) = omega (
    arith,
    run_callbacks (step now elapsed c) events,
    registered-ticked c.provider_request_qps now c.qps_counter (count_of is_received events),
  )
  run_callbacks c ((now, shut_down) ∷ events) = omega (
    arith,
    run_callbacks (provider_shutdown c) events,
    registered-stopped c.provider_request_qps c.qps_counter (count_of is_received events),
  )
