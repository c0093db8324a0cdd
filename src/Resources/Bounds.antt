-- ===== src/Resources/Bounds.antt =====
-- resources.rs: the clamp of the statement timeout.
use fabricd.Base.{
  ℕ, ◌≤◌, ◌<◌, ◌≡◌, refl, ap, ◌⊎◌, leb, inl, inr, Bool-cases, false, nat_eq, Option, none, some,
  arith,
}
use fabricd.Resources.Configs.{DbConfig}
use fabricd.Resources.Table.{ResolvedConfigs}
use fabricd.Resources.Clamp.{clamp_db, clamp_timeout, clamp_db_statement_timeout}

-- Under a ceiling, a database has a timeout above zero and within the ceiling, is shortened only
-- if it was unlimited or above the ceiling, and keeps the rest of its config.
abbrev pub IsClamped : ℕ → Option DbConfig → Option DbConfig → Type 0
IsClamped ceiling none after = after ≡ none
IsClamped ceiling (some db) after =
    (t : ℕ) × (after ≡ some (record db { statement_timeout_ms = t }))
    × (0 < t)
    × (t ≤ ceiling)
    × ((db.statement_timeout_ms ≡ 0) ⊎ (t ≤ db.statement_timeout_ms))
    × ((db.statement_timeout_ms ≡ 0)
        ⊎ ((ceiling < db.statement_timeout_ms) ⊎ (t ≡ db.statement_timeout_ms)))

clamp_timeout_shortens : (ceiling t : ℕ) → (t ≡ 0) ⊎ (clamp_timeout ceiling t ≤ t)
unfolding clamp_timeout
clamp_timeout_shortens ceiling t = elim (Bool-cases (nat_eq t 0)) [
  | inl unlimited ↦ inl (ground arith)
  | inr limited ↦ inr (ground arith)
]

clamp_timeout_keeps : (ceiling t : ℕ) → (t ≡ 0) ⊎ ((ceiling < t) ⊎ (clamp_timeout ceiling t ≡ t))
unfolding clamp_timeout
clamp_timeout_keeps ceiling t = elim (Bool-cases (nat_eq t 0)) [
  | inl unlimited ↦ inl (ground arith)
  | inr limited ↦ elim (Bool-cases (leb t ceiling)) [
    | inl within ↦ inr (inr (ground arith))
    | inr above ↦ inr (inl (ground arith))
  ]
]

clamp_db-IsClamped :
    (ceiling : ℕ) (db : Option DbConfig) → 0 < ceiling → IsClamped ceiling db (clamp_db ceiling db)
unfolding clamp_db
clamp_db-IsClamped ceiling none h = refl
clamp_db-IsClamped ceiling (some db) h = (
  clamp_timeout ceiling db.statement_timeout_ms,
  refl,
  ground arith,
  ground arith,
  clamp_timeout_shortens ceiling db.statement_timeout_ms,
  clamp_timeout_keeps ceiling db.statement_timeout_ms,
)

-- With a ceiling above zero the database is clamped as `IsClamped` says, and the other five configs
-- are left as they are.
pub clamp-IsClamped :
    (ceiling : ℕ) (c : ResolvedConfigs)
    → 0 < ceiling
    → IsClamped ceiling c.db (clamp_db_statement_timeout ceiling c).db
      × ((clamp_db_statement_timeout ceiling c).mongo ≡ c.mongo)
      × ((clamp_db_statement_timeout ceiling c).mail ≡ c.mail)
      × ((clamp_db_statement_timeout ceiling c).redis ≡ c.redis)
      × ((clamp_db_statement_timeout ceiling c).amq ≡ c.amq)
      × ((clamp_db_statement_timeout ceiling c).auth ≡ c.auth)
unfolding clamp_db_statement_timeout
clamp-IsClamped ceiling c h =
    let capped : nat_eq ceiling 0 ≡ false = ground arith in
    rw capped (clamp_db-IsClamped ceiling c.db h, refl, refl, refl, refl, refl)

clamp_timeout_idem : (m t : ℕ) → clamp_timeout m (clamp_timeout m t) ≡ clamp_timeout m t
unfolding clamp_timeout
clamp_timeout_idem m t = ground arith

clamp_db_idem : (m : ℕ) (db : Option DbConfig) → clamp_db m (clamp_db m db) ≡ clamp_db m db
unfolding clamp_db
clamp_db_idem m none = refl
clamp_db_idem m (some db) =
    ap (λ t. some (record db { statement_timeout_ms = t }))
      (clamp_timeout_idem m db.statement_timeout_ms)

-- Clamping twice is clamping once, under every ceiling, also with no ceiling.
pub clamp_idem :
    (ceiling : ℕ) (c : ResolvedConfigs)
    → clamp_db_statement_timeout ceiling (clamp_db_statement_timeout ceiling c)
      ≡ clamp_db_statement_timeout ceiling c
unfolding clamp_db_statement_timeout
clamp_idem ceiling c = elim (Bool-cases (nat_eq ceiling 0)) [
  | inl off ↦ rw off
  | inr capped ↦ rw capped (ap (λ db. record c { db = db }) (clamp_db_idem ceiling c.db))
]
