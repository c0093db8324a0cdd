-- ===== src/Db/Metrics.antt =====
-- db.rs: the rows that a query hands out and what the calls record.
use fabricd.Base.{
  ℕ, ◌≤◌, ◌<◌, ◌^◌, min, String, ◌≡◌, refl, sym, ap, ◌∙◌, inl, inr, false, Bool-cases, ltb, List,
  [], ◌∷◌, ◌++◌, map, length, take, length-take, length-map, take_all, arith, Result, ok, err,
  Option, none, some, format, show, ◌⊎◌,
}
use fabricd.Json.{items, Value, number, int, pos, members, Codec}
use fabricd.Wire.{DbMetric, Collectors, IsLog, Breakers}
use fabricd.Capability.Laws.{IsMetered}
use fabricd.Db.Faults.{DbError}
use fabricd.Db.Rows.{
  SqlTypes, ColumnType, string_or_null, converted, column_to_json, row_to_json, rows_to_json,
  extract_columns,
}
use fabricd.Db.Params.{
  Encoders, ParamsDecoder, SqlValue, ParamValue, parse_params, build_param_refs,
}
use fabricd.Db.Calls.{
  Statements, to_usize, query_value, do_query, do_execute, dispatch_db, extract_metric_info,
  recorded, build_db_metric, call_db_backend, db_capability,
}
use fabricd.Db.{Postgres, DbBackend, block_on_db}

-- A JSON value that a JavaScript number cannot distort: a text or null.
abbrev pub IsText : Value → Type 0
IsText v = (v ≡ Value.null) ⊎ ((s : String) × (v ≡ Value.string s))

module _ (sql : SqlTypes) where
  -- A query hands out the first `max_rows` rows, in order, and says truncated exactly where there
  -- were more.
  pub rows_to_json-cut :
      (rows : List sql.Row) (max_rows : ℕ)
      → let (out, truncated) = rows_to_json sql rows max_rows in
        (out ≡ map (row_to_json sql) (take max_rows rows))
        × (length out ≡ min max_rows (length rows))
        × (truncated ≡ ltb max_rows (length rows))
  unfolding rows_to_json
  rows_to_json-cut rows max_rows = elim (Bool-cases (ltb max_rows (length rows))) [
    | inl more ↦
        rw more (
          refl,
          length-map (row_to_json sql) (take max_rows rows) ∙ length-take max_rows rows,
          refl,
        )
    | inr few ↦ rw few (
      ap (map (row_to_json sql))
          (take_all (length rows) rows (omega arith) ∙ sym (take_all max_rows rows (few_le few))),
      all_rows few,
      refl,
    )
  ]
    where
      few_le : ltb max_rows (length rows) ≡ false → length rows ≤ max_rows
      few_le few = ground arith

      all_rows :
          ltb max_rows (length rows) ≡ false
          → length (map (row_to_json sql) (take (length rows) rows)) ≡ min max_rows (length rows)
      all_rows few = omega (
        arith,
        length-map (row_to_json sql) (take (length rows) rows),
        length-take (length rows) rows,
        few_le few,
      )

  converted-IsText :
      {T : Type 0} (r : Result sql.Error (Option T)) (print : T → String) (row : sql.Row) (idx : ℕ)
      → IsText (converted sql r (λ val. Value.string (print val)) row idx)
  converted-IsText (ok (some val)) print row idx = inr (print val, refl)
  converted-IsText (ok none) print row idx = inl refl
  converted-IsText (err e) print row idx = by_string (sql.try_string row idx)
    where
      by_string : (r : Result sql.Error (Option String)) → IsText (string_or_null sql r)
      by_string (ok (some s)) = inr (s, refl)
      by_string (ok none) = inl refl
      by_string (err e) = inl refl

  -- A column of 64-bit integers or of decimals comes out as a text or null, never as a JSON number,
  -- whatever the driver answers, a type mismatch included.
  pub column_to_json-IsText :
      (row : sql.Row) (idx : ℕ) (ty : ColumnType)
      → (ty ≡ ColumnType.int8) ⊎ (ty ≡ ColumnType.numeric)
      → IsText (column_to_json sql row idx ty)
  unfolding column_to_json
  column_to_json-IsText row idx ty (inl is) =
      rw is (converted-IsText (sql.try_i64 row idx) _ row idx)
  column_to_json-IsText row idx ty (inr is) =
      rw is (converted-IsText (sql.try_decimal row idx) _ row idx)

module _ {W : Type 0} (pg : Postgres W) (breakers : Breakers W) (log : Collectors) (codec : Codec)
    (sql : SqlTypes) (enc : Encoders) (decode : ParamsDecoder)
    (stm : Statements W pg.Client pg.Error sql.Row (SqlValue enc codec)) where
  in_usize : (n : ℕ) → n < 2 ^ 64 → to_usize n ≡ n
  in_usize n h = ground arith

  query_info :
      (rows : List sql.Row) (max_rows : ℕ) (json : String)
      → codec.from_str json
        ≡ ok (query_value pg breakers log codec sql enc decode stm rows max_rows)
      → length rows < 2 ^ 64
      → extract_metric_info pg breakers log codec sql enc decode stm "query" json
        ≡ (min max_rows (length rows), 0, ltb max_rows (length rows))
  unfolding extract_metric_info
  query_info rows max_rows json parsed few =
      let (_, count, cut) = rows_to_json-cut sql rows max_rows in
      rw parsed (rw cut (rw count (rw (in_usize (min max_rows (length rows)) (omega arith)) refl)))

  -- What a query that found these rows is to reply: the names of the first row's columns, the first
  -- rows up to the limit, each as JSON and in order, their number, and whether there were more.
  abbrev pub names_of : List sql.Row → List String
  names_of [] = []
  names_of (first ∷ rows) = map (λ column. column.0) (sql.columns first)

  abbrev pub reply_of : List sql.Row → ℕ → Value
  reply_of rows max_rows = Value.object (
      members (
        ("columns", Value.array (items (map Value.string (names_of rows))))
        ∷ ("rows", Value.array (items (map (row_to_json sql) (take max_rows rows))))
        ∷ ("row_count", number (int (pos (min max_rows (length rows)))))
        ∷ ("truncated", Value.bool (ltb max_rows (length rows)))
        ∷ []))

  names_of-extract_columns : (rows : List sql.Row) → extract_columns sql rows ≡ names_of rows
  unfolding extract_columns
  names_of-extract_columns [] = refl
  names_of-extract_columns (first ∷ rows) = refl

  query_value-reply_of :
      (rows : List sql.Row) (max_rows : ℕ)
      → query_value pg breakers log codec sql enc decode stm rows max_rows ≡ reply_of rows max_rows
  query_value-reply_of rows max_rows =
      let (out, count, cut) = rows_to_json-cut sql rows max_rows in
      rw (names_of-extract_columns rows, cut, count, out) refl

  answered_query :
      IsLog log
      → (b : DbBackend pg breakers log) (text params_json json : String) (params : List ParamValue)
        (rows : List sql.Row) (w w' : W)
      → parse_params enc codec decode params_json ≡ ok params
      → block_on_db pg breakers log b
          (stm.query b.client text (build_param_refs enc codec params))
          w
        ≡ (ok rows, w')
      → codec.to_string (query_value pg breakers log codec sql enc decode stm rows b.max_rows)
        ≡ ok json
      → codec.from_str json
        ≡ ok (query_value pg breakers log codec sql enc decode stm rows b.max_rows)
      → length rows < 2 ^ 64
      → let (result, after, end) =
          call_db_backend pg breakers log codec sql enc decode stm "query" text params_json b w in
        (result ≡ ok json)
        × ((m : DbMetric) × (log.drain DbMetric after.metrics
              ≡ log.drain DbMetric b.metrics ++ m ∷ [])
            × (m.rows_returned ≡ min b.max_rows (length rows))
            × (m.truncated ≡ ltb b.max_rows (length rows)))
        × (end ≡ w')
  unfolding call_db_backend build_db_metric dispatch_db do_query
  answered_query is_log b text params_json json params rows w w' decoded answered printed parsed
        few =
      let info = query_info rows b.max_rows json parsed few in
      rw decoded (
        rw answered (
          rw printed (
            refl,
            (_, is_log.drain_push DbMetric b.metrics _, ap (λ x. x.0) info, ap (λ x. x.2) info),
            refl,
          )))

  -- A query whose parameters decode and that the server answers with fewer than 2^64 rows replies
  -- with the text that the codec prints for these: the names of the columns, the first rows up to
  -- the limit, in order, their number, and whether there were more. Where the codec reads that text
  -- back as what it printed, the metric carries the same number and the same flag. The server is
  -- asked once.
  pub call_db_backend-query :
      IsLog log
      → (b : DbBackend pg breakers log) (text params_json json : String) (params : List ParamValue)
        (rows : List sql.Row) (w w' : W)
      → parse_params enc codec decode params_json ≡ ok params
      → block_on_db pg breakers log b
          (stm.query b.client text (build_param_refs enc codec params))
          w
        ≡ (ok rows, w')
      → codec.to_string (reply_of rows b.max_rows) ≡ ok json
      → codec.from_str json ≡ ok (reply_of rows b.max_rows)
      → length rows < 2 ^ 64
      → let (result, after, end) =
          call_db_backend pg breakers log codec sql enc decode stm "query" text params_json b w in
        (result ≡ ok json)
        × ((m : DbMetric) × (log.drain DbMetric after.metrics
              ≡ log.drain DbMetric b.metrics ++ m ∷ [])
            × (m.rows_returned ≡ min b.max_rows (length rows))
            × (m.truncated ≡ ltb b.max_rows (length rows)))
        × (end ≡ w')
  call_db_backend-query is_log b text params_json json params rows w w' decoded answered printed
        parsed few =
      let same = query_value-reply_of rows b.max_rows in
      answered_query is_log b text params_json json params rows w w' decoded answered
        (ap codec.to_string same ∙ printed) (parsed ∙ ap ok (sym same)) few

  -- An execute whose parameters decode and that the server answers with `affected` replies with
  -- that number, and where the codec reads the reply as the object it is, records it.
  pub call_db_backend-execute :
      IsLog log
      → (b : DbBackend pg breakers log) (text params_json : String) (params : List ParamValue)
        (affected : ℕ) (w w' : W)
      → parse_params enc codec decode params_json ≡ ok params
      → block_on_db pg breakers log b
          (stm.execute b.client text (build_param_refs enc codec params))
          w
        ≡ (ok affected, w')
      → codec.from_str (format ("{\"rows_affected\":" ∷ show affected ∷ "}" ∷ []))
        ≡ ok (Value.object (members (("rows_affected", number (int (pos affected))) ∷ [])))
      → let (result, after, end) =
          call_db_backend pg breakers log codec sql enc decode stm "execute" text params_json b w in
        (result ≡ ok (format ("{\"rows_affected\":" ∷ show affected ∷ "}" ∷ [])))
        × ((m : DbMetric) × (log.drain DbMetric after.metrics
              ≡ log.drain DbMetric b.metrics ++ m ∷ [])
            × (m.rows_affected ≡ affected))
        × (end ≡ w')
  unfolding call_db_backend build_db_metric dispatch_db do_execute extract_metric_info
  call_db_backend-execute is_log b text params_json params affected w w' decoded answered parsed =
      rw decoded
        (rw answered (rw parsed (refl, (_, is_log.drain_push DbMetric b.metrics _, refl), refl)))

  recorded-records :
      IsLog log
      → (action : String) (b : DbBackend pg breakers log) (start : W)
        (r : Result DbError String × W)
      → let (result, after, end) =
          recorded pg breakers log codec sql enc decode stm start action b r in
        ((m : DbMetric) × (log.drain DbMetric after.metrics
            ≡ log.drain DbMetric b.metrics ++ m ∷ [])
          × (m.action ≡ action)
          × (((json : String) × (result ≡ ok json))
              ⊎ ((m.rows_returned ≡ 0) × (m.rows_affected ≡ 0) × (m.truncated ≡ false))))
        × (after ≡ record b { metrics = after.metrics })
  unfolding build_db_metric
  recorded-records is_log action b start (ok json, w) =
      ((_, is_log.drain_push DbMetric b.metrics _, refl, inl (json, refl)), refl)
  recorded-records is_log action b start (err e, w) =
      ((_, is_log.drain_push DbMetric b.metrics _, refl, inr (refl, refl, refl)), refl)

  -- A call of the database, whatever its action and its outcome, records one metric, of its own
  -- action and of zero rows where it fails, and keeps the client, the deadline and the row limit.
  pub call_db_backend-records :
      IsLog log
      → (action text params_json : String) (b : DbBackend pg breakers log) (w : W)
      → let (result, after, end) =
          call_db_backend pg breakers log codec sql enc decode stm action text params_json b w in
        ((m : DbMetric) × (log.drain DbMetric after.metrics
            ≡ log.drain DbMetric b.metrics ++ m ∷ [])
          × (m.action ≡ action)
          × (((json : String) × (result ≡ ok json))
              ⊎ ((m.rows_returned ≡ 0) × (m.rows_affected ≡ 0) × (m.truncated ≡ false))))
        × (after ≡ record b { metrics = after.metrics })
  unfolding call_db_backend
  call_db_backend-records is_log action text params_json b w =
      recorded-records is_log action b w (
        dispatch_db pg breakers log codec sql enc decode stm b action text params_json b.max_rows w)

  pub db_capability-IsMetered :
      IsLog log → IsMetered (db_capability pg breakers log codec sql enc decode stm)
  db_capability-IsMetered is_log = record {
    call_keeps = λ action args b w.
        let ((m, drained, same, counted), kept) =
          call_db_backend-records is_log action args.sql args.params_json b w in
        (m ∷ [], drained);
  }
