-- ===== src/Db/Params.antt =====
-- crates/fabric-backends/src/db.rs, "Parameters": the JSON parameters of a statement as typed
-- values. How the driver writes the primitive types is a parameter.
use fabricd.Base.{
  ℕ, String, Bool, true, Option, none, some, List, [], ◌∷◌, map, leb, if◌then◌else◌, ◌^◌, ◌-◌,
  format, Result, ok, map_err, map_ok,
}
use fabricd.Json.{ℤ, pos, negsuc, Number, Value, Codec}
use fabricd.Db.Rows.{ColumnType}

pub data ParamValue : Type 0 where
  null : ParamValue
  bool : Bool → ParamValue
  int4 : ℤ → ParamValue
  int8 : ℤ → ParamValue
  float8 : ℕ → ParamValue
  text : String → ParamValue

-- `Number::as_i64`, and `i32::try_from` on its result: the ranges of the two types.
abbrev pub in_range : ℕ → ℤ → Bool
in_range width (pos n) = leb n (2 ^ (width - 1) - 1)
in_range width (negsuc n) = leb n (2 ^ (width - 1) - 1)

abbrev as_i64 : Number → Option ℤ
as_i64 (Number.int n) = if in_range 64 n then some n else none
as_i64 (Number.float bits) = none

-- `unwrap_or(0.0)`
abbrev or_zero : Option ℕ → ℕ
or_zero none = 0
or_zero (some bits) = bits

abbrev or_else : {E : Type 0} → Result E String → String → String
or_else (ok s) other = s
or_else (Result.err e) other = other

pub data IsNull : Type 0 where
  is_null not_null : IsNull

-- `ToSql` at the primitive types, with the text of its error.
pub record Encoders : Type 1 where
  pub Buffer : Type 0
  pub bool_to_sql : Bool → ColumnType → Buffer → Result String (IsNull × Buffer)
  pub i32_to_sql : ℤ → ColumnType → Buffer → Result String (IsNull × Buffer)
  pub i64_to_sql : ℤ → ColumnType → Buffer → Result String (IsNull × Buffer)
  pub f64_to_sql : ℕ → ColumnType → Buffer → Result String (IsNull × Buffer)
  pub string_to_sql : String → ColumnType → Buffer → Result String (IsNull × Buffer)
  -- `Number::as_f64`
  pub as_f64 : Number → Option ℕ

-- `serde_json::from_str::<Vec<Value>>`, with the text of its error.
abbrev pub ParamsDecoder : Type 0
ParamsDecoder = String → Result String (List Value)

module _ (enc : Encoders) (codec : Codec) where
  abbrev from_i64 : ℤ → ParamValue
  from_i64 n = if in_range 32 n then int4 n else int8 n

  abbrev from_number : Number → Option ℤ → ParamValue
  from_number n (some i) = from_i64 i
  from_number n none = float8 (or_zero (enc.as_f64 n))

  unfoldable pub param_from : Value → ParamValue
  param_from Value.null = null
  param_from (Value.bool flag) = bool flag
  param_from (Value.number n) = from_number n (as_i64 n)
  param_from (Value.string s) = text s
  param_from (Value.array xs) = text (or_else (codec.to_string (Value.array xs)) "[]")
  param_from (Value.object fields) = text (or_else (codec.to_string (Value.object fields)) "{}")

  unfoldable pub parse_params : ParamsDecoder → String → Result String (List ParamValue)
  unfolding param_from
  parse_params decode params_json =
      map_ok (map param_from)
        (map_err (λ e. format ("invalid params JSON: " ∷ e ∷ [])) (decode params_json))

  -- `<ParamValue as ToSql>::{to_sql, accepts}`
  unfoldable pub to_sql : ParamValue → ColumnType → enc.Buffer → Result String (IsNull × enc.Buffer)
  to_sql null ty out = ok (is_null, out)
  to_sql (bool val) ty out = enc.bool_to_sql val ty out
  to_sql (int4 val) ty out = enc.i32_to_sql val ty out
  to_sql (int8 val) ty out = enc.i64_to_sql val ty out
  to_sql (float8 val) ty out = enc.f64_to_sql val ty out
  to_sql (text val) ty out = enc.string_to_sql val ty out

  abbrev pub accepts : ColumnType → Bool
  accepts ty = true

  -- `dyn ToSql`
  pub record SqlValue : Type 0 where
    pub write : ColumnType → enc.Buffer → Result String (IsNull × enc.Buffer)
    pub takes : ColumnType → Bool

  abbrev pub as_tosql_ref : ParamValue → SqlValue
  as_tosql_ref param = record { write = to_sql param; takes = accepts }

  abbrev pub build_param_refs : List ParamValue → List SqlValue
  build_param_refs params = map as_tosql_ref params
