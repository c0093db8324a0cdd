-- ===== src/Db/Calls.antt =====
-- crates/fabric-backends/src/db.rs: the statements of the `db` capability, their dispatch and their
-- metrics. The statements of `tokio_postgres` are parameters.
use fabricd.Base.{
  ℕ, String, Bool, false, Option, none, some, ◌==◌, if◌then◌else◌, leb, ◌^◌, ◌-◌, List, [], ◌∷◌,
  map, length, format, show, Result, ok, err, Eff, map_err, raise, lift, pure, ◌>>=◌,
}
use fabricd.Json.{
  Value, null, bool, number, string, array, int, pos, items, members, get, as_bool, as_u64, Codec,
}
use fabricd.Wire.{EgressError, DbMetric, Collectors, Breakers}
use fabricd.Resources.Configs.{DbConfig}
use fabricd.Capability.{Capability}
use fabricd.BackendSet.Payloads.{DbArgs}
use fabricd.BackendSet.Drivers.{AsyncDeps}
use fabricd.Db.Faults.{DbError, db_error, into_db_resource_error}
use fabricd.Db.Rows.{SqlTypes, rows_to_json, extract_columns}
use fabricd.Db.Params.{Encoders, ParamsDecoder, SqlValue, parse_params, build_param_refs}
use fabricd.Db.{Postgres, DbBackend, block_on_db, do_simple, connect_db_resource}

-- `Client::{query, execute}`, and the time between two worlds.
pub record Statements (W : Type 0) (Client Error Row Param : Type 0) : Type 0 where
  pub query : Client → String → List Param → Eff W Error (List Row)
  pub execute : Client → String → List Param → Eff W Error ℕ
  pub elapsed_us : W → W → ℕ

-- `usize::try_from(n).unwrap_or(0)` on a 64-bit target.
abbrev pub to_usize : ℕ → ℕ
to_usize n = if leb n (2 ^ 64 - 1) then n else 0

module _ {W : Type 0} (pg : Postgres W) (breakers : Breakers W) (log : Collectors) (codec : Codec)
    (sql : SqlTypes) (enc : Encoders) (decode : ParamsDecoder)
    (stm : Statements W pg.Client pg.Error sql.Row (SqlValue enc codec)) where
  -- The `json!` of `do_query`.
  abbrev pub query_value : List sql.Row → ℕ → Value
  query_value rows max_rows =
      let (json_rows, truncated) = rows_to_json sql rows max_rows in
      Value.object (
        members (
          ("columns", array (items (map string (extract_columns sql rows))))
          ∷ ("rows", array (items json_rows))
          ∷ ("row_count", number (int (pos (length json_rows))))
          ∷ ("truncated", bool truncated)
          ∷ []))

  unfoldable pub print_reply : Value → Result DbError String
  print_reply v =
      map_err (λ e. db_error (format ("serialize error: " ∷ codec.error_text e ∷ [])))
        (codec.to_string v)

  unfoldable pub do_query : DbBackend pg breakers log → String → String → ℕ → Eff W DbError String
  unfolding print_reply
  do_query b text params_json max_rows = do
    params ← lift (map_err db_error (parse_params enc codec decode params_json))
    rows ←
        block_on_db pg breakers log b (stm.query b.client text (build_param_refs enc codec params))
    lift (print_reply (query_value rows max_rows))

  unfoldable pub do_execute : DbBackend pg breakers log → String → String → Eff W DbError String
  do_execute b text params_json = do
    params ← lift (map_err db_error (parse_params enc codec decode params_json))
    affected ←
        block_on_db pg breakers log b
          (stm.execute b.client text (build_param_refs enc codec params))
    pure (format ("{\"rows_affected\":" ∷ show affected ∷ "}" ∷ []))

  unfoldable pub dispatch_db :
      DbBackend pg breakers log → String → String → String → ℕ → Eff W DbError String
  unfolding do_query do_execute
  dispatch_db b action text params_json max_rows =
      if action == "query"
      then do_query b text params_json max_rows
      else if action == "execute"
      then do_execute b text params_json
      else if action == "begin"
      then do_simple pg breakers log b "BEGIN"
      else if action == "commit"
      then do_simple pg breakers log b "COMMIT"
      else if action == "rollback"
      then do_simple pg breakers log b "ROLLBACK"
      else raise (db_error (format ("unknown db action: " ∷ action ∷ [])))

  -- `from_str(json).unwrap_or(Value::Null)`
  abbrev parsed_or_null : {E : Type 0} → Result E Value → Value
  parsed_or_null (ok v) = v
  parsed_or_null (err e) = null

  abbrev u64_of : Option Value → ℕ
  u64_of none = 0
  u64_of (some v) = elim (as_u64 v) [ none ↦ 0 | some n ↦ n ]

  abbrev bool_of : Option Value → Bool
  bool_of none = false
  bool_of (some v) = elim (as_bool v) [ none ↦ false | some b ↦ b ]

  -- Rows returned, rows affected, and whether the rows are cut.
  unfoldable pub extract_metric_info : String → String → ℕ × ℕ × Bool
  extract_metric_info action json =
      let parsed = parsed_or_null (codec.from_str json) in
      if action == "query"
      then (to_usize (u64_of (get parsed "row_count")), 0, bool_of (get parsed "truncated"))
      else if action == "execute"
      then (0, u64_of (get parsed "rows_affected"), false)
      else (0, 0, false)

  abbrev pub info_of : String → Result DbError String → ℕ × ℕ × Bool
  info_of action (ok json) = extract_metric_info action json
  info_of action (err e) = (0, 0, false)

  -- `build_metric`, with the elapsed time as an argument.
  unfoldable pub build_db_metric : String → Result DbError String → ℕ → DbMetric
  unfolding extract_metric_info
  build_db_metric action result elapsed =
      let (rows_ret, rows_aff, trunc) = info_of action result in
      record {
        action = action;
        duration_us = elapsed;
        rows_returned = rows_ret;
        rows_affected = rows_aff;
        truncated = trunc;
      }

  abbrev pub recorded :
      W
      → String
      → DbBackend pg breakers log
      → Result DbError String × W
      → Result DbError String × DbBackend pg breakers log × W
  recorded start action b (result, w) =
      let metric = build_db_metric action result (stm.elapsed_us start w) in
      (result, record b { metrics = log.push DbMetric b.metrics metric }, w)

  -- `DbBackend::call`
  unfoldable pub call_db_backend :
      String
      → String
      → String
      → DbBackend pg breakers log
      → W
      → Result DbError String × DbBackend pg breakers log × W
  unfolding build_db_metric dispatch_db
  call_db_backend action text params_json b w =
      recorded w action b (dispatch_db b action text params_json b.max_rows w)

  abbrev outward :
      Result DbError String × DbBackend pg breakers log × W
      → Result EgressError String × DbBackend pg breakers log × W
  outward (r, b, w) = (map_err into_db_resource_error r, b, w)

  -- `DbSlot` over this backend (backendset.rs).
  abbrev pub db_capability : Capability W (DbConfig × AsyncDeps breakers.Breaker) DbArgs DbMetric
  db_capability = record {
    Backend = DbBackend pg breakers log;
    connect = λ c. connect_db_resource pg breakers log c.0 c.1;
    call = λ action args b w. outward (call_db_backend action args.sql args.params_json b w);
    drain_metrics = λ b. log.drain DbMetric b.metrics;
  }
