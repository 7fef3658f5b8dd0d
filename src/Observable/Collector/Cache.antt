-- ===== src/Observable/Collector/Cache.antt =====
-- The cache of instruments in `MeterCollector` of meter-collector.ts.
use node_dubbo.Prelude.{◌≡◌, refl, subst, String, List, ◌∷◌, Option, none, some, ◌+++◌, eq_refl}
use node_dubbo.Observable.Collector.{
  MetricOptions, Meter, MeterCollector, cached, remembered, looked_up, get_cached_in,
  get_cached_meter, new_counter, get_counter,
}

cached_front :
    {I : Type 0} (key : String) (i : I) (cache : List (String × I))
    → cached ((key, i) ∷ cache) key ≡ some i
unfolding cached
cached_front key i cache = rw (eq_refl key) refl

module _ {I A : Type 0} where
  -- A collector that has its meter, and an instrument in its cache.
  Holds : String → I → MeterCollector I A → Type 0
  Holds key i d =
      (m : Meter I A) × ((cache : List (String × I)) × (d.meter ≡ some m)
        × (d.meter_cache ≡ some cache)
        × (cached cache key ≡ some i))

  held_meter :
      (key : String) (i : I) (creator : MeterCollector I A → Option I × MeterCollector I A)
      (d : MeterCollector I A)
      → Holds key i d
      → get_cached_meter key creator d ≡ (some i, d)
  unfolding Holds get_cached_meter get_cached_in looked_up
  held_meter key i creator d (m, (cache, em, ec, e)) = rw (em, ec, e) refl

  -- What is returned is held.
  IsHeld : String → Option I × MeterCollector I A → Type 0
  IsHeld key (none, d) = Unit
  IsHeld key (some i, d) = Holds key i d

  remembered-IsHeld :
      (key : String) (m : Meter I A) (o : Option I) (d : MeterCollector I A)
      (cache : List (String × I))
      → d.meter ≡ some m
      → IsHeld key (remembered key (o, d) cache)
  unfolding IsHeld Holds remembered
  remembered-IsHeld key m none d cache e = tt
  remembered-IsHeld key m (some i) d cache e =
      (m, ((key, i) ∷ cache, e, refl, cached_front key i cache))

  created-IsHeld :
      (key name : String) (options : Option MetricOptions) (c : MeterCollector I A)
      (o : Option (Meter I A)) (cache : List (String × I))
      → c.meter ≡ o
      → IsHeld key (remembered key (new_counter name options c o) cache)
  unfolding IsHeld remembered new_counter
  created-IsHeld key name options c none cache e = tt
  created-IsHeld key name options c (some m) cache e =
      remembered-IsHeld key m (m.create_counter c.calls name options) _ cache e

  looked_up-IsHeld :
      (key name : String) (options : Option MetricOptions) (c : MeterCollector I A) (m : Meter I A)
      (cache : List (String × I)) (o : Option I)
      → c.meter ≡ some m
      → c.meter_cache ≡ some cache
      → cached cache key ≡ o
      → IsHeld key (looked_up key (λ c. new_counter name options c c.meter) c cache o)
  unfolding IsHeld Holds looked_up new_counter
  looked_up-IsHeld key name options c m cache (some i) em ec e = (m, (cache, em, ec, e))
  looked_up-IsHeld key name options c m cache none em ec e =
      created-IsHeld key name options c c.meter cache refl

  get_cached_in-IsHeld :
      (key name : String) (options : Option MetricOptions) (c : MeterCollector I A)
      (m : Option (Meter I A)) (cache : Option (List (String × I)))
      → c.meter ≡ m
      → c.meter_cache ≡ cache
      → IsHeld key (get_cached_in key (λ c. new_counter name options c c.meter) c m cache)
  unfolding get_cached_in IsHeld
  get_cached_in-IsHeld key name options c none cache em ec = tt
  get_cached_in-IsHeld key name options c (some m) none em ec = tt
  get_cached_in-IsHeld key name options c (some m) (some cache) em ec =
      looked_up-IsHeld key name options c m cache (cached cache key) em ec refl

  -- A counter that a MeterCollector has returned for a name is returned again for that name,
  -- whatever the options, and nothing is called on the meter for it.
  pub get_counter-again :
      (name : String) (options later : Option MetricOptions) (c d : MeterCollector I A) (i : I)
      → get_counter name options c ≡ (some i, d)
      → get_counter name later d ≡ (some i, d)
  unfolding get_counter get_cached_meter IsHeld
  get_counter-again name options later c d i e =
      held_meter ("counter-" +++ name) i (λ c. new_counter name later c c.meter) d
        (subst (IsHeld ("counter-" +++ name)) e (
          get_cached_in-IsHeld ("counter-" +++ name) name options c c.meter c.meter_cache refl
            refl))
