-- ===== src/Observable/Collector.antt =====
-- packages/dubbo-observable/src/meter-collector.ts: `MeterCollector`, which keeps the instruments
-- of a meter in a cache, and in child modules the collectors of a provider and of a consumer.
-- The meter is an object of OpenTelemetry: what it creates is a parameter, and the calls that are
-- made on it and on its instruments are recorded, the last one in front.
pub mod Provider
pub mod Consumer
pub mod Cache
use node_dubbo.Prelude.{
  Bool, true, false, String, List, [], ◌∷◌, Option, none, some, ◌+++◌, str_eq, if◌then◌else◌, ℕ,
}

-- The metric options that the collectors give: all of them ask for the value type INT.
pub record MetricOptions : Type 0 where
  pub description : String

pub data Call (I A : Type 0) : Type 0 where
  created_counter : String → Option MetricOptions → Call I A
  created_observable_counter : String → Option MetricOptions → Call I A
  added : I → ℕ → Option A → Call I A
  added_callback : I → Call I A

-- What the meter creates, with what was called before.
pub record Meter (I A : Type 0) : Type 0 where
  pub create_counter : List (Call I A) → String → Option MetricOptions → Option I
  pub create_observable_counter : List (Call I A) → String → Option MetricOptions → Option I

pub record MeterCollector (I A : Type 0) : Type 0 where
  pub meter : Option (Meter I A)
  pub meter_cache : Option (List (String × I))
  pub calls : List (Call I A)

module _ {I : Type 0} where
  pub cached : List (String × I) → String → Option I
  cached [] key = none
  cached ((k, i) ∷ rest) key = let found = cached rest key in if str_eq k key then some i else found

  emptied : Option (List (String × I)) → Option (List (String × I))
  emptied none = none
  emptied (some cache) = some []

module _ {I A : Type 0} where
  -- The meter comes from `metrics.getMeter`.
  unfoldable pub create_meter_collector : Meter I A → MeterCollector I A
  create_meter_collector m = record { meter = some m; meter_cache = some []; calls = [] }

  remembered :
      String → Option I × MeterCollector I A → List (String × I) → Option I × MeterCollector I A
  remembered key (none, c) cache = (none, c)
  remembered key (some i, c) cache = (some i, record c { meter_cache = some ((key, i) ∷ cache) })

  -- `__getCachedMeter`; the creator does not touch the cache.
  looked_up :
      String
      → (MeterCollector I A → Option I × MeterCollector I A)
      → MeterCollector I A
      → List (String × I)
      → Option I
      → Option I × MeterCollector I A
  unfolding remembered
  looked_up key creator c cache (some i) = (some i, c)
  looked_up key creator c cache none = remembered key (creator c) cache

  get_cached_in :
      String
      → (MeterCollector I A → Option I × MeterCollector I A)
      → MeterCollector I A
      → Option (Meter I A)
      → Option (List (String × I))
      → Option I × MeterCollector I A
  unfolding looked_up cached
  get_cached_in key creator c none cache = (none, c)
  get_cached_in key creator c (some m) none = (none, c)
  get_cached_in key creator c (some m) (some cache) =
      looked_up key creator c cache (cached cache key)

  pub get_cached_meter :
      String
      → (MeterCollector I A → Option I × MeterCollector I A)
      → MeterCollector I A
      → Option I × MeterCollector I A
  unfolding get_cached_in
  get_cached_meter key creator c = get_cached_in key creator c c.meter c.meter_cache

  -- `this.meter?.createCounter(name, options)`, and the same for an observable counter.
  new_counter :
      String
      → Option MetricOptions
      → MeterCollector I A
      → Option (Meter I A)
      → Option I × MeterCollector I A
  new_counter name options c none = (none, c)
  new_counter name options c (some m) = (
    m.create_counter c.calls name options,
    record c { calls = created_counter name options ∷ c.calls },
  )

  new_observable_counter :
      String
      → Option MetricOptions
      → MeterCollector I A
      → Option (Meter I A)
      → Option I × MeterCollector I A
  new_observable_counter name options c none = (none, c)
  new_observable_counter name options c (some m) = (
    m.create_observable_counter c.calls name options,
    record c { calls = created_observable_counter name options ∷ c.calls },
  )

  unfoldable pub get_counter :
      String → Option MetricOptions → MeterCollector I A → Option I × MeterCollector I A
  unfolding get_cached_meter new_counter
  get_counter name options =
      get_cached_meter ("counter-" +++ name) (λ c. new_counter name options c c.meter)

  pub get_observable_counter :
      String → Option MetricOptions → MeterCollector I A → Option I × MeterCollector I A
  get_observable_counter name options =
      get_cached_meter ("observable-counter-" +++ name)
        (λ c. new_observable_counter name options c c.meter)

  -- Every key of the cache is deleted.
  pub shutdown : MeterCollector I A → MeterCollector I A
  shutdown c = record c { meter_cache = emptied c.meter_cache }

  -- `instrument?.add(1, attributes)` and `instrument?.addCallback(...)`.
  pub add_one : Option I → Option A → MeterCollector I A → MeterCollector I A
  add_one none attributes c = c
  add_one (some i) attributes c = record c { calls = added i 1 attributes ∷ c.calls }

  pub add_callback : Option I → MeterCollector I A → MeterCollector I A
  add_callback none c = c
  add_callback (some i) c = record c { calls = added_callback i ∷ c.calls }
