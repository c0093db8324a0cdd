-- ===== src/Tests/Backends.antt =====
-- backendset.rs over the echo drivers.
use fabricd.Base.{String, ◌≡◌, ◌≢◌, false, none, ◌==◌, eq_iff}
use fabricd.Resources.Clamp.{clamp_db_statement_timeout}
use fabricd.Capability.{new_slot, slot_backend}
use fabricd.Capability.Laws.{slot_backend_once}
use fabricd.BackendSet.Drivers.{AsyncDeps}
use fabricd.BackendSet.{BackendSet, from_configs}
use fabricd.Tests.Fixtures.{toolkit, echoes, unchanged, acme_configs, cache_redis}

differs : (name : String) → ("orders" == name) ≡ false → "orders" ≢ name
differs name other same = cc (other, (eq_iff "orders" name).1 same)

abbrev deps : AsyncDeps Unit
deps = record { breaker = none; timeout_ms = 1000 }

abbrev set : BackendSet toolkit unchanged echoes
set = from_configs toolkit unchanged echoes (clamp_db_statement_timeout 30000 acme_configs) deps

abbrev db_name : String
db_name = "db"

slot_backend_once_example :
    slot_backend echoes.redis (slot_backend echoes.redis (new_slot echoes.redis cache_redis) 0).1 9
    ≡ (
      (slot_backend echoes.redis (new_slot echoes.redis cache_redis) 0).0,
      (slot_backend echoes.redis (new_slot echoes.redis cache_redis) 0).1,
      9,
    )
slot_backend_once_example = slot_backend_once echoes.redis (new_slot echoes.redis cache_redis) 0 9
