-- ===== src/Tests/Resources.antt =====
-- resources.rs on the table of two tenants.
use mathlib.Core.Path.{subst}
use fabricd.Base.{◌≡◌, refl, inl, inr, ◌==◌, eq_iff, arith, Bool-cases, some, ok, err}
use fabricd.Resources.Table.{not_found, pick, resolve}
use fabricd.Resources.Clamp.{clamp_db_statement_timeout}
use fabricd.Resources.Spec.{SameFor, visible, IsResolved, resolve_iff}
use fabricd.Resources.Bounds.{IsClamped, clamp-IsClamped}
use fabricd.Tests.Fixtures.{acme_table, both_table, acme_init, acme_configs, orders_db}

resolve_own : resolve both_table acme_init ≡ ok acme_configs
unfolding resolve pick
resolve_own = refl

resolve_foreign :
    resolve both_table (record acme_init { redis = some "cache" }) ≡ err (not_found "cache")
unfolding resolve pick
resolve_foreign = refl

resolve_iff_example : IsResolved both_table acme_init acme_configs
resolve_iff_example = (resolve_iff both_table acme_init acme_configs).0 resolve_own

pub acme-SameFor : SameFor (some "acme") acme_table both_table
acme-SameFor name = elim (Bool-cases ("cache" == name)) [
  | inl is_cache ↦
      subst (λ n. visible (some "acme") acme_table n ≡ visible (some "acme") both_table n)
        ((eq_iff "cache" name).0 is_cache) refl
  | inr other ↦ rw other refl
]

clamp-IsClamped_example :
    IsClamped 30000 (some orders_db) (clamp_db_statement_timeout 30000 acme_configs).db
clamp-IsClamped_example = (clamp-IsClamped 30000 acme_configs (omega arith)).0
