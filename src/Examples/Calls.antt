-- ===== src/Examples/Calls.antt =====
-- The theorems about serializations within limits, headers of Node.js and the signals of calls, at concrete values.
use node_dubbo.Prelude.{lower, lower_char, List, none, ℕ, ◌+◌, ◌*◌, ◌≡◌, refl, [], ◌∷◌, some, arith}
use node_dubbo.ByteArray.{Bytes}
use node_dubbo.Error.{ok}
use node_dubbo.Limits.{IoLimits, assert_write_max_bytes}
use node_dubbo.Iterable.{Serialization}
use node_dubbo.Pipeline.{ReadsBack}
use node_dubbo.Serialize.{limit_serialization, write_limited}
use node_dubbo.Headers.{Headers}
use node_dubbo.Error.{Reason, native}
use node_dubbo.RunCall.{setup_signal}
use node_dubbo.RunCall.Course.{
  Event, threw, cancelled, expired, Stands, call_abort, run, timer_left, is_timed,
}
use node_dubbo.RunCall.Course.Ending.{run-setup_signal}
use node_dubbo.Headers.Entry
use node_dubbo.Node.Header.{
  headers, is_pseudo, IsPlain, as_texts, web_header_to_node_headers, node_header_to_web_header,
  node_header_to_web_header-web_header_to_node_headers,
}

abbrev as_is : Serialization Bytes
as_is = record { serialize = λ b. ok b; parse = λ b. ok b }

as_is-ReadsBack : ReadsBack as_is
as_is-ReadsBack value bytes h = ground arith

abbrev narrow : IoLimits
narrow = record { read_max_bytes = 8; write_max_bytes = 4; compress_min_bytes = 1024 }

written : (limit_serialization as_is narrow).serialize (1 ∷ 2 ∷ []) ≡ ok (1 ∷ 2 ∷ [])
unfolding limit_serialization write_limited assert_write_max_bytes
written = refl

abbrev doubling : (ℕ → ℕ) → ℕ → ℕ
doubling call n = call n * 2

abbrev adding : (ℕ → ℕ) → ℕ → ℕ
adding call n = call (n + 3)

abbrev plain_headers : Headers
plain_headers = ("content-type", "application/json") ∷ ("x-id", "7") ∷ []

plain_headers-IsPlain : IsPlain [] plain_headers
unfolding is_pseudo Entry.get lower lower_char
plain_headers-IsPlain = (refl, (refl, (refl, (refl, (refl, (refl, tt))))))

node_headers_example :
    (web_header_to_node_headers (some (headers plain_headers)) ≡ some (as_texts plain_headers))
    × (node_header_to_web_header (as_texts plain_headers) ≡ plain_headers)
node_headers_example =
    node_header_to_web_header-web_header_to_node_headers plain_headers plain_headers-IsPlain

abbrev reset : Reason
reset = native "Error" "socket hang up"

abbrev a_course : List Event
a_course = threw reset ∷ cancelled none ∷ expired ∷ []

call_example :
    Stands
      (call_abort (some none) (some 500) a_course)
      (run (setup_signal (some none) (some 500)) a_course)
    × ((run (setup_signal (some none) (some 500)) a_course).timer
        ≡ timer_left (is_timed (some 500)) a_course)
call_example = run-setup_signal (some none) (some 500) a_course
