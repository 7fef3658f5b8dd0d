-- ===== src/Observable/Collector/Provider.antt =====
-- packages/dubbo-observable/src/meter-collector.ts: `ProviderMeterCollector`.
pub mod Events
pub mod Totals
pub mod Callback
pub mod Observed
use node_dubbo.Prelude.{ℕ, Option, none, some, String}
use node_dubbo.Observable.QpsCounter
use node_dubbo.Observable.QpsCounter.{QpsCounter}
use node_dubbo.Observable.Collector
use node_dubbo.Observable.Collector.{
  Meter, MeterCollector, MetricOptions, create_meter_collector, get_counter, get_observable_counter,
  add_one, add_callback,
}

pub record ProviderMeterCollector (I A : Type 0) : Type 0 where
  pub base : MeterCollector I A
  pub provider_request_total : Option I
  pub provider_request_succeed_total : Option I
  pub provider_request_failed_total : Option I
  pub provider_request_qps : Option I
  pub qps_counter : Option QpsCounter

described : String → Option MetricOptions
described text = some (record { description = text })

stopped_provider : Option QpsCounter → Option QpsCounter
stopped_provider none = none
stopped_provider (some q) = some (QpsCounter.stop q)

module _ {I A : Type 0} where
  pub create_provider_meter_collector : Meter I A → ProviderMeterCollector I A
  create_provider_meter_collector m =
      let (total, c1) =
        get_counter "dubbo_provider_requests_total"
          (described "The total number of received requests by the provider")
          (create_meter_collector m) in
      let (succeed, c2) =
        get_counter "dubbo_provider_requests_succeed_total"
          (described "The total number of successfully received requests by the provider") c1 in
      let (failed, c3) =
        get_counter "dubbo_provider_requests_failed_total"
          (described "The total number of unsuccessfully received requests by the provider") c2 in
      let (qps, c4) =
        get_observable_counter "dubbo_provider_qps_total"
          (described "The number of requests received by the provider per second") c3 in
      record {
        base = c4;
        provider_request_total = total;
        provider_request_succeed_total = succeed;
        provider_request_failed_total = failed;
        provider_request_qps = qps;
        qps_counter = none;
      }

  -- The first request makes the counter and the callback that reads it.
  counted_provider : ℕ → ProviderMeterCollector I A → Option QpsCounter → ProviderMeterCollector I A
  counted_provider now c none = record c {
    base = add_callback c.provider_request_qps c.base;
    qps_counter = some (QpsCounter.increment now QpsCounter.start);
  }
  counted_provider now c (some q) = record c { qps_counter = some (QpsCounter.increment now q) }

  pub provider_request : ℕ → Option A → ProviderMeterCollector I A → ProviderMeterCollector I A
  provider_request now attributes c =
      counted_provider now (record c { base = add_one c.provider_request_total attributes c.base })
        c.qps_counter

  pub provider_request_succeed : Option A → ProviderMeterCollector I A → ProviderMeterCollector I A
  provider_request_succeed attributes c = record c {
    base = add_one c.provider_request_succeed_total attributes c.base;
  }

  pub provider_request_failed : Option A → ProviderMeterCollector I A → ProviderMeterCollector I A
  provider_request_failed attributes c = record c {
    base = add_one c.provider_request_failed_total attributes c.base;
  }

  pub provider_shutdown : ProviderMeterCollector I A → ProviderMeterCollector I A
  provider_shutdown c = record c {
    base = Collector.shutdown c.base;
    qps_counter = stopped_provider c.qps_counter;
  }
