-- ===== src/Observable/Collector/Consumer.antt =====
-- packages/dubbo-observable/src/meter-collector.ts: `ConsumerMeterCollector`.
use node_dubbo.Prelude.{ℕ, Option, none, some, String}
use node_dubbo.Observable.QpsCounter
use node_dubbo.Observable.QpsCounter.{QpsCounter}
use node_dubbo.Observable.Collector
use node_dubbo.Observable.Collector.{
  Meter, MeterCollector, MetricOptions, create_meter_collector, get_counter, get_observable_counter,
  add_one, add_callback,
}

pub record ConsumerMeterCollector (I A : Type 0) : Type 0 where
  pub base : MeterCollector I A
  pub consumer_request_total : Option I
  pub consumer_request_succeed_total : Option I
  pub consumer_request_failed_total : Option I
  pub consumer_request_qps : Option I
  pub qps_counter : Option QpsCounter

described : String → Option MetricOptions
described text = some (record { description = text })

stopped_consumer : Option QpsCounter → Option QpsCounter
stopped_consumer none = none
stopped_consumer (some q) = some (QpsCounter.stop q)

module _ {I A : Type 0} where
  pub create_consumer_meter_collector : Meter I A → ConsumerMeterCollector I A
  create_consumer_meter_collector m =
      let (total, c1) =
        get_counter "dubbo_consumer_requests_total"
          (described "The total number of received requests by the consumer")
          (create_meter_collector m) in
      let (succeed, c2) =
        get_counter "dubbo_consumer_requests_succeed_total"
          (described "The total number of successfully received requests by the consumer") c1 in
      let (failed, c3) =
        get_counter "dubbo_consumer_requests_failed_total"
          (described "The total number of unsuccessfully received requests by the consumer") c2 in
      let (qps, c4) =
        get_observable_counter "dubbo_consumer_qps_total"
          (described "The number of requests received by the consumer per second") c3 in
      record {
        base = c4;
        consumer_request_total = total;
        consumer_request_succeed_total = succeed;
        consumer_request_failed_total = failed;
        consumer_request_qps = qps;
        qps_counter = none;
      }

  -- The first request makes the counter and the callback that reads it.
  counted_consumer : ℕ → ConsumerMeterCollector I A → Option QpsCounter → ConsumerMeterCollector I A
  counted_consumer now c none = record c {
    base = add_callback c.consumer_request_qps c.base;
    qps_counter = some (QpsCounter.increment now QpsCounter.start);
  }
  counted_consumer now c (some q) = record c { qps_counter = some (QpsCounter.increment now q) }

  pub consumer_request : ℕ → Option A → ConsumerMeterCollector I A → ConsumerMeterCollector I A
  consumer_request now attributes c =
      counted_consumer now (record c { base = add_one c.consumer_request_total attributes c.base })
        c.qps_counter

  pub consumer_request_succeed : Option A → ConsumerMeterCollector I A → ConsumerMeterCollector I A
  consumer_request_succeed attributes c = record c {
    base = add_one c.consumer_request_succeed_total attributes c.base;
  }

  pub consumer_request_failed : Option A → ConsumerMeterCollector I A → ConsumerMeterCollector I A
  consumer_request_failed attributes c = record c {
    base = add_one c.consumer_request_failed_total attributes c.base;
  }

  pub consumer_shutdown : ConsumerMeterCollector I A → ConsumerMeterCollector I A
  consumer_shutdown c = record c {
    base = Collector.shutdown c.base;
    qps_counter = stopped_consumer c.qps_counter;
  }
