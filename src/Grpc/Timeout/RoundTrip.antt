-- ===== src/Grpc/Timeout/RoundTrip.antt =====
-- The timeout of a request, from request-header.ts to parse-timeout.ts.

use node_dubbo.Prelude.{
  ℕ, ◌*◌, ◌<◌, ◌≤◌, ◌≡◌, refl, ◌∙◌, Bool, String, ltb, none, some, if◌then◌else◌, ◌+++◌, decimal,
  arith, ◌↔◌, lower,
}
use node_dubbo.Prelude.Text.Decimal.{Reads, reads-decimal, width_pos, width-le_iff}
use node_dubbo.Headers.{Headers, get, get-set, get-set_self}
use node_dubbo.Grpc.Timeout.{
  timeout_from, unit_at, unit_ns, checked_timeout, read_timeout, parse_timeout,
}
use node_dubbo.Grpc.Request.{header_timeout, request_header}

timeout_from-Reads : Reads timeout_from
unfolding Reads timeout_from
timeout_from-Reads count value c s h = rw h refl

-- The digits of a number and the unit of milliseconds.
timeout_from-decimal :
    (n : ℕ)
    → timeout_from 0 0 (decimal n +++ "m") ≡ (if ltb n 100000000 then some (1000000 * n) else none)
unfolding timeout_from unit_at unit_ns
timeout_from-decimal n =
    reads-decimal timeout_from timeout_from-Reads n "m"
    ∙ ground (arith, width_pos n, width-le_iff n 7)

taken :
    (number_text : ℕ → String) (text : String) (timeout_ms max_timeout_ms : ℕ)
    → (read_timeout number_text text max_timeout_ms
          (if ltb timeout_ms 100000000 then some (1000000 * timeout_ms) else none)
        ≡ record { timeout_ns = some (1000000 * timeout_ms); error = none })
      ↔ ((timeout_ms < 100000000) × (timeout_ms ≤ max_timeout_ms))
unfolding read_timeout checked_timeout
taken number_text text timeout_ms max_timeout_ms = ground arith

sent_timeout :
    (binary : Bool) (timeout_ms : ℕ) (h : Headers)
    → get header_timeout (request_header binary (some timeout_ms) h)
      ≡ some (decimal timeout_ms +++ "m")
unfolding request_header lower
sent_timeout binary timeout_ms h =
    get-set "Te" header_timeout "trailers" _
    ∙ get-set_self header_timeout (decimal timeout_ms +++ "m") _

-- A gRPC server takes the timeout of a request, as requestHeader writes it, without an error and
-- with the same value exactly if it is below 100000000 milliseconds and within the maximum of the
-- server.
pub parse_timeout-request_header :
    (number_text : ℕ → String) (binary : Bool) (timeout_ms max_timeout_ms : ℕ) (h : Headers)
    → (parse_timeout number_text
          (get header_timeout (request_header binary (some timeout_ms) h))
          max_timeout_ms
        ≡ record { timeout_ns = some (1000000 * timeout_ms); error = none })
      ↔ ((timeout_ms < 100000000) × (timeout_ms ≤ max_timeout_ms))
unfolding parse_timeout
parse_timeout-request_header number_text binary timeout_ms max_timeout_ms h =
    rw (sent_timeout binary timeout_ms h, timeout_from-decimal timeout_ms)
      (taken number_text (decimal timeout_ms +++ "m") timeout_ms max_timeout_ms)
