-- ===== src/Resources/Clamp.antt =====
-- resources.rs: the operator's ceiling on the statement timeout of the resolved database.
use fabricd.Base.{ℕ, min, Option, none, some, nat_eq, if◌then◌else◌}
use fabricd.Resources.Configs.{DbConfig}
use fabricd.Resources.Table.{ResolvedConfigs}

unfoldable pub clamp_timeout : ℕ → ℕ → ℕ
clamp_timeout ceiling_ms timeout_ms =
    if nat_eq timeout_ms 0 then ceiling_ms else min timeout_ms ceiling_ms

unfoldable pub clamp_db : ℕ → Option DbConfig → Option DbConfig
unfolding clamp_timeout
clamp_db ceiling_ms none = none
clamp_db ceiling_ms (some db) =
    some (record db { statement_timeout_ms = clamp_timeout ceiling_ms db.statement_timeout_ms })

-- `ResolvedConfigs::clamp_db_statement_timeout`
unfoldable pub clamp_db_statement_timeout : ℕ → ResolvedConfigs → ResolvedConfigs
unfolding clamp_db
clamp_db_statement_timeout ceiling_ms configs =
    if nat_eq ceiling_ms 0 then configs else record configs { db = clamp_db ceiling_ms configs.db }
