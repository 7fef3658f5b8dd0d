-- ===== src/Examples/Errors.antt =====
-- The theorems about codes, statuses and limits, at concrete values.
use node_dubbo.Prelude.{◌≡◌, ◌↔◌, some, none}
use node_dubbo.Error.{ok}
use node_dubbo.Limits.{
  IoLimits, or_else, max_read_max_bytes, max_write_max_bytes, default_compress_min_bytes,
  validate_read_write_max_bytes,
}
use node_dubbo.Limits.Bounds.{InRange, validate_read_write_max_bytes_iff}

abbrev limits : IoLimits
limits = record { read_max_bytes = 64; write_max_bytes = 4294967295; compress_min_bytes = 1024 }

limits_example : (validate_read_write_max_bytes (some 64) none none ≡ ok limits) ↔ (
    InRange 64
    × InRange 4294967295
    × (64 ≡ or_else (some 64) max_read_max_bytes)
    × (4294967295 ≡ or_else none max_write_max_bytes)
    × (1024 ≡ or_else none default_compress_min_bytes))
limits_example = validate_read_write_max_bytes_iff (some 64) none none limits
