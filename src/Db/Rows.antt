-- ===== src/Db/Rows.antt =====
-- crates/fabric-backends/src/db.rs, "Column extraction": the rows of a query as JSON. What
-- `tokio_postgres` reads from a row at each Rust type, and how chrono, uuid, rust_decimal and base64
-- print, are parameters. A float is its bit pattern.
use fabricd.Base.{
  ℕ, suc, String, Bool, Option, none, some, List, [], ◌∷◌, map, length, take, ltb, if◌then◌else◌,
  Result, ok, err,
}
use fabricd.Json.{ℤ, Number, Value, Members, end, int, insert_member, show_int}

-- `tokio_postgres::types::Type`, as far as the source names its values.
pub data ColumnType : Type 0 where
  int2 int4 oid int8 float4 float8 bool text varchar bpchar name json jsonb uuid : ColumnType
  timestamp timestamptz date time numeric bytea other : ColumnType

pub record SqlTypes : Type 1 where
  pub Row : Type 0
  pub Error : Type 0
  pub columns : Row → List (String × ColumnType)
  pub try_i16 : Row → ℕ → Result Error (Option ℤ)
  pub try_i32 : Row → ℕ → Result Error (Option ℤ)
  pub try_i64 : Row → ℕ → Result Error (Option ℤ)
  pub try_f32 : Row → ℕ → Result Error (Option ℕ)
  pub try_f64 : Row → ℕ → Result Error (Option ℕ)
  pub try_bool : Row → ℕ → Result Error (Option Bool)
  pub try_string : Row → ℕ → Result Error (Option String)
  pub try_value : Row → ℕ → Result Error (Option Value)
  pub try_bytes : Row → ℕ → Result Error (Option (List ℕ))
  pub Uuid : Type 0
  pub try_uuid : Row → ℕ → Result Error (Option Uuid)
  pub uuid_text : Uuid → String
  pub NaiveDateTime : Type 0
  pub try_naive : Row → ℕ → Result Error (Option NaiveDateTime)
  pub format_naive : NaiveDateTime → String → String
  pub DateTimeUtc : Type 0
  pub try_utc : Row → ℕ → Result Error (Option DateTimeUtc)
  pub to_rfc3339 : DateTimeUtc → String
  pub NaiveDate : Type 0
  pub try_date : Row → ℕ → Result Error (Option NaiveDate)
  pub date_text : NaiveDate → String
  pub NaiveTime : Type 0
  pub try_time : Row → ℕ → Result Error (Option NaiveTime)
  pub format_time : NaiveTime → String → String
  pub Decimal : Type 0
  pub try_decimal : Row → ℕ → Result Error (Option Decimal)
  pub decimal_text : Decimal → String
  pub base64_encode : List ℕ → String
  pub widen : ℕ → ℕ
  pub from_f64 : ℕ → Option Number

-- `map_or(Value::Null, Value::Number)`
abbrev number_or_null : Option Number → Value
number_or_null none = Value.null
number_or_null (some n) = Value.number n

module _ (sql : SqlTypes) where
  abbrev pub string_or_null : Result sql.Error (Option String) → Value
  string_or_null (ok (some s)) = Value.string s
  string_or_null (ok none) = Value.null
  string_or_null (err e) = Value.null

  abbrev pub converted :
      {T : Type 0} → Result sql.Error (Option T) → (T → Value) → sql.Row → ℕ → Value
  converted (ok (some val)) convert row idx = convert val
  converted (ok none) convert row idx = Value.null
  converted (err e) convert row idx = string_or_null (sql.try_string row idx)

  abbrev get_or_null :
      {T : Type 0} → sql.Row → ℕ → (sql.Row → ℕ → Result sql.Error (Option T)) → (T → Value) → Value
  get_or_null row idx try convert = converted (try row idx) convert row idx

  -- `Value::from` on an integer.
  abbrev from_int : ℤ → Value
  from_int n = Value.number (int n)

  unfoldable pub column_to_json : sql.Row → ℕ → ColumnType → Value
  column_to_json row idx int2 = get_or_null row idx sql.try_i16 from_int
  column_to_json row idx int4 = get_or_null row idx sql.try_i32 from_int
  column_to_json row idx oid = get_or_null row idx sql.try_i32 from_int
  column_to_json row idx int8 = get_or_null row idx sql.try_i64 (λ val. Value.string (show_int val))
  column_to_json row idx float4 =
      get_or_null row idx sql.try_f32 (λ val. number_or_null (sql.from_f64 (sql.widen val)))
  column_to_json row idx float8 =
      get_or_null row idx sql.try_f64 (λ val. number_or_null (sql.from_f64 val))
  column_to_json row idx bool = get_or_null row idx sql.try_bool Value.bool
  column_to_json row idx text = get_or_null row idx sql.try_string Value.string
  column_to_json row idx varchar = get_or_null row idx sql.try_string Value.string
  column_to_json row idx bpchar = get_or_null row idx sql.try_string Value.string
  column_to_json row idx name = get_or_null row idx sql.try_string Value.string
  column_to_json row idx json = get_or_null row idx sql.try_value (λ val. val)
  column_to_json row idx jsonb = get_or_null row idx sql.try_value (λ val. val)
  column_to_json row idx uuid =
      get_or_null row idx sql.try_uuid (λ val. Value.string (sql.uuid_text val))
  column_to_json row idx timestamp =
      get_or_null row idx sql.try_naive
        (λ val. Value.string (sql.format_naive val "%Y-%m-%dT%H:%M:%S%.f"))
  column_to_json row idx timestamptz =
      get_or_null row idx sql.try_utc (λ val. Value.string (sql.to_rfc3339 val))
  column_to_json row idx date =
      get_or_null row idx sql.try_date (λ val. Value.string (sql.date_text val))
  column_to_json row idx time =
      get_or_null row idx sql.try_time (λ val. Value.string (sql.format_time val "%H:%M:%S%.f"))
  column_to_json row idx numeric =
      get_or_null row idx sql.try_decimal (λ val. Value.string (sql.decimal_text val))
  column_to_json row idx bytea =
      get_or_null row idx sql.try_bytes (λ val. Value.string (sql.base64_encode val))
  column_to_json row idx other = get_or_null row idx sql.try_string Value.string

  insert_columns : sql.Row → ℕ → List (String × ColumnType) → Members → Members
  unfolding column_to_json
  insert_columns row idx [] obj = obj
  insert_columns row idx ((label, ty) ∷ cols) obj =
      insert_columns row (suc idx) cols (insert_member label (column_to_json row idx ty) obj)

  unfoldable pub row_to_json : sql.Row → Value
  unfolding insert_columns
  row_to_json row = Value.object (insert_columns row 0 (sql.columns row) end)

  unfoldable pub rows_to_json : List sql.Row → ℕ → List Value × Bool
  unfolding row_to_json
  rows_to_json rows max_rows =
      let truncated = ltb max_rows (length rows) in
      let limit = if truncated then max_rows else length rows in
      (map row_to_json (take limit rows), truncated)

  unfoldable pub extract_columns : List sql.Row → List String
  extract_columns [] = []
  extract_columns (first ∷ rows) = map (λ col. col.0) (sql.columns first)
