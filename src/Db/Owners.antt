-- ===== src/Db/Owners.antt =====
-- db.rs: which error of a call is whose.
use fabricd.Base.{
  ℕ, String, ◌≡◌, ◌⊎◌, ◌==◌, Bool, true, false, ◌||◌, not, if◌then◌else◌, opt_eq, Option, none,
  some, List, Result, ok, err, Eff,
}
use fabricd.Json.{Codec}
use fabricd.Wire.{operator, developer, Fault, Collectors, Breakers}
use fabricd.Db.Faults.{DbError, class_of}
use fabricd.Db.Rows.{SqlTypes}
use fabricd.Db.Params.{Encoders, ParamsDecoder, SqlValue, ParamValue, build_param_refs}
use fabricd.Db.Calls.{Statements}
use fabricd.Db.{Postgres, DbBackend, block_on_db}

-- The retryable DB_ERROR of the operator.
abbrev pub IsGeneral : Fault → Type 0
IsGeneral f = f ≡ record { code = "DB_ERROR"; retryable = true; owner = operator }

-- A violated constraint (class 23), or a statement that is wrong or not allowed (class 42).
abbrev pub is_developers : Option String → Bool
is_developers none = false
is_developers (some state) =
    opt_eq (class_of state) (some "23") || opt_eq (class_of state) (some "42")

-- By its SQLSTATE a failure is the developer's and final, or the operator's and worth a retry.
abbrev pub IsByState : Option String → Fault → Type 0
IsByState state f =
    (f.retryable ≡ not (is_developers state))
    × (f.owner ≡ (if is_developers state then developer else operator))

module _ {W : Type 0} (pg : Postgres W) (breakers : Breakers W) (log : Collectors) where
  -- The retryable DB_TIMEOUT of the operator, or a failure of the driver, by its SQLSTATE.
  abbrev pub IsDrivers : Fault → Type 0
  IsDrivers f =
      (f ≡ record { code = "DB_TIMEOUT"; retryable = true; owner = operator })
      ⊎ ((x : pg.Error) × IsByState (pg.sqlstate x) f)

  abbrev IsDriversError : DbError → Type 0
  IsDriversError e = IsDrivers e.fault

  module _ (codec : Codec) (sql : SqlTypes) (enc : Encoders) (decode : ParamsDecoder)
      (stm : Statements W pg.Client pg.Error sql.Row (SqlValue enc codec)) where
    -- Malformed parameters are a general error; a query fails by its driver or where its reply does
    -- not print, an execute by its driver.
    abbrev pub ByQuery : Result String (List ParamValue) → Fault → Type 0
    ByQuery (err x) f = IsGeneral f
    ByQuery (ok params) f = IsGeneral f ⊎ IsDrivers f

    abbrev pub ByExecute : Result String (List ParamValue) → Fault → Type 0
    ByExecute (err x) f = IsGeneral f
    ByExecute (ok params) f = IsDrivers f

    -- By the action and by what its parameters parse to.
    abbrev pub IsBlamed : String → Result String (List ParamValue) → Fault → Type 0
    IsBlamed action parsed f =
        if action == "query"
        then ByQuery parsed f
        else if action == "execute"
        then ByExecute parsed f
        else if action == "begin" || action == "commit" || action == "rollback"
        then IsDrivers f
        else IsGeneral f

    module _ (b : DbBackend pg breakers log) (text : String) where
      asked : (params : List ParamValue) → Eff W DbError (List sql.Row)
      asked params =
          block_on_db pg breakers log b
            (stm.query b.client text (build_param_refs enc codec params))

      told : (params : List ParamValue) → Eff W DbError ℕ
      told params =
          block_on_db pg breakers log b
            (stm.execute b.client text (build_param_refs enc codec params))
