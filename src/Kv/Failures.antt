-- ===== src/Kv/Failures.antt =====
-- kv.rs: the three faults.
use fabricd.Base.{◌≡◌, ◌⊎◌}
use fabricd.Wire.{Fault}
use fabricd.Kv.Driver.{redis_fallback, redis_timeout, redis_connection}

-- One of the three faults of kv.rs.
abbrev pub IsRedisFault : Fault → Type 0
IsRedisFault f = (f ≡ redis_fallback) ⊎ ((f ≡ redis_timeout) ⊎ (f ≡ redis_connection))
