-- ===== src/Observable.antt =====
-- packages/dubbo-observable: the counter of requests per second, and the collectors of metrics.
pub mod QpsCounter
pub mod Collector
