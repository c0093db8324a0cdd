-- ===== src/Tests/Databases.antt =====
-- db.rs over a server of two rows.
use fabricd.Base.{
  ℕ, suc, min, ltb, String, ◌≡◌, refl, inl, arith, true, Option, none, some, [], ◌∷◌, map, take,
  length, Result, ok, err, show,
}
use fabricd.Json.{Value, int, pos, members, items, Codec}
use fabricd.Wire.{DbMetric}
use fabricd.Db.Rows.{SqlTypes, ColumnType, rows_to_json, row_to_json, column_to_json}
use fabricd.Db.Params.{Encoders, ParamsDecoder, SqlValue, not_null, parse_params}
use fabricd.Db.Calls.{Statements, call_db_backend}
use fabricd.Db.Metrics.{
  reply_of, IsText, rows_to_json-cut, column_to_json-IsText, call_db_backend-query,
}
use fabricd.Db.{DbBackend, block_on_db}
use fabricd.Tests.Fixtures.{list_log, list_log-IsLog}
use fabricd.Tests.Queues.{server, tripped}

abbrev mismatch : {A : Type 0} → String → ℕ → Result String (Option A)
mismatch row idx = err "wrong type"

-- A row is a text, in one column `id` of 64-bit integers, all of them 7.
abbrev pub sevens : SqlTypes
sevens = record {
  Row = String;
  Error = String;
  columns = λ row. ("id", ColumnType.int8) ∷ [];
  try_i16 = mismatch;
  try_i32 = mismatch;
  try_i64 = λ row idx. ok (some (pos 7));
  try_f32 = mismatch;
  try_f64 = mismatch;
  try_bool = mismatch;
  try_string = mismatch;
  try_value = mismatch;
  try_bytes = mismatch;
  Uuid = Unit;
  try_uuid = mismatch;
  uuid_text = λ x. "";
  NaiveDateTime = Unit;
  try_naive = mismatch;
  format_naive = λ x f. f;
  DateTimeUtc = Unit;
  try_utc = mismatch;
  to_rfc3339 = λ x. "";
  NaiveDate = Unit;
  try_date = mismatch;
  date_text = λ x. "";
  NaiveTime = Unit;
  try_time = mismatch;
  format_time = λ x f. f;
  Decimal = Unit;
  try_decimal = mismatch;
  decimal_text = λ x. "";
  base64_encode = λ bytes. "";
  widen = λ bits. bits;
  from_f64 = λ bits. none;
}

abbrev pub encoders : Encoders
encoders = record {
  Buffer = Unit;
  bool_to_sql = λ val ty out. ok (not_null, out);
  i32_to_sql = λ val ty out. ok (not_null, out);
  i64_to_sql = λ val ty out. ok (not_null, out);
  f64_to_sql = λ val ty out. ok (not_null, out);
  string_to_sql = λ val ty out. ok (not_null, out);
  as_f64 = λ n. none;
}

-- One row of the two.
abbrev one_row : Value
one_row = Value.object (
    members (
      ("columns", Value.array (items (Value.string "id" ∷ [])))
      ∷ ("rows", Value.array (items (Value.object (members (("id", Value.string "7") ∷ [])) ∷ [])))
      ∷ ("row_count", Value.number (int (pos 1)))
      ∷ ("truncated", Value.bool true)
      ∷ []))

abbrev pub row_codec : Codec
row_codec = record {
  Error = String;
  error_text = λ e. e;
  from_str = λ s. ok one_row;
  to_string = λ v. ok "{..}";
}

abbrev pub no_params : ParamsDecoder
no_params text = ok []

abbrev pub statements : Statements ℕ (Unit {0}) String String (SqlValue encoders row_codec)
statements = record {
  query = λ client text params w. (ok ("a" ∷ "b" ∷ []), suc w);
  execute = λ client text params w. (ok 3, suc w);
  elapsed_us = λ start stop. 7;
}

abbrev pg_backend : DbBackend server tripped list_log
pg_backend = record { client = tt; deadline_ms = 1000; max_rows = 1; metrics = [] }

rows_to_json-cut_example :
    let (out, truncated) = rows_to_json sevens ("a" ∷ "b" ∷ []) 1 in
    (out ≡ map (row_to_json sevens) (take 1 ("a" ∷ "b" ∷ [])))
    × (length out ≡ min 1 2)
    × (truncated ≡ ltb 1 2)
rows_to_json-cut_example = rows_to_json-cut sevens ("a" ∷ "b" ∷ []) 1

column_to_json-IsText_example : IsText (column_to_json sevens "a" 0 ColumnType.int8)
column_to_json-IsText_example = column_to_json-IsText sevens "a" 0 ColumnType.int8 (inl refl)

no_params_parsed : parse_params encoders row_codec no_params "[]" ≡ ok []
unfolding parse_params
no_params_parsed = refl

two_answered :
    block_on_db server tripped list_log pg_backend (statements.query tt "SELECT id FROM t" []) 5
    ≡ (ok ("a" ∷ "b" ∷ []), 6)
unfolding block_on_db
two_answered = refl

one_read_back :
    row_codec.from_str "{..}"
    ≡ ok (
        reply_of server tripped list_log row_codec sevens encoders no_params statements
          ("a" ∷ "b" ∷ [])
          1)
unfolding row_to_json column_to_json show
one_read_back = refl

call_db_backend-query_example :
    let (result, after, end) =
      call_db_backend server tripped list_log row_codec sevens encoders no_params statements "query"
        "SELECT id FROM t" "[]" pg_backend 5 in
    (result ≡ ok "{..}")
    × ((m : DbMetric) × (after.metrics ≡ m ∷ [])
        × (m.rows_returned ≡ min 1 2)
        × (m.truncated ≡ ltb 1 2))
    × (end ≡ 6)
call_db_backend-query_example =
    call_db_backend-query server tripped list_log row_codec sevens encoders no_params statements
      list_log-IsLog pg_backend "SELECT id FROM t" "[]" "{..}" [] ("a" ∷ "b" ∷ []) 5 6
      no_params_parsed two_answered refl one_read_back (omega arith)
