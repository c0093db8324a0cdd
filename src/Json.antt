-- ===== src/Json.antt =====
-- serde_json's `Value`, as far as the program matches on it and builds it, and the codec's
-- operations, which are parameters. A number is an integer or the bit pattern of an f64.
use fabricd.Base.{
  ℕ, String, Bool, true, false, Option, none, some, List, [], ◌∷◌, Result, ◌==◌, if◌then◌else◌, suc,
  format, show,
}

-- `negsuc n` is -(n + 1).
pub data ℤ : Type 0 where
  pos : ℕ → ℤ
  negsuc : ℕ → ℤ

pub data Number : Type 0 where
  int : ℤ → Number
  float : ℕ → Number

mutual
  pub data Value : Type 0 where
    null : Value
    bool : Bool → Value
    number : Number → Value
    string : String → Value
    array : Items → Value
    object : Members → Value

  pub data Items : Type 0 where
    nil : Items
    cons : Value → Items → Items

  pub data Members : Type 0 where
    end : Members
    member : String → Value → Members → Members

abbrev pub items : List Value → Items
items [] = nil
items (v ∷ vs) = cons v (items vs)

abbrev pub elements : Items → List Value
elements nil = []
elements (cons v vs) = v ∷ elements vs

-- `json!({ .. })`
abbrev pub members : List (String × Value) → Members
members [] = end
members ((k, v) ∷ rest) = member k v (members rest)

abbrev find_member : String → Members → Option Value
find_member key end = none
find_member key (member k v rest) = if k == key then some v else find_member key rest

-- `Value::get`, `as_str`, `as_bool`, `is_null`
abbrev pub get : Value → String → Option Value
get (object fields) key = find_member key fields
get null key = none
get (bool b) key = none
get (number n) key = none
get (string s) key = none
get (array xs) key = none

abbrev pub as_str : Value → Option String
as_str (string s) = some s
as_str null = none
as_str (bool b) = none
as_str (number n) = none
as_str (array xs) = none
as_str (object fields) = none

abbrev pub as_bool : Value → Option Bool
as_bool (bool b) = some b
as_bool null = none
as_bool (number n) = none
as_bool (string s) = none
as_bool (array xs) = none
as_bool (object fields) = none

abbrev pub as_u64 : Value → Option ℕ
as_u64 (number (int (pos n))) = some n
as_u64 (number (int (negsuc n))) = none
as_u64 (number (float bits)) = none
as_u64 null = none
as_u64 (bool b) = none
as_u64 (string s) = none
as_u64 (array xs) = none
as_u64 (object fields) = none

abbrev pub is_null : Value → Bool
is_null null = true
is_null (bool b) = false
is_null (number n) = false
is_null (string s) = false
is_null (array xs) = false
is_null (object fields) = false

-- `Map::insert`: the value under a key is replaced, or a new key comes last.
abbrev pub insert_member : String → Value → Members → Members
insert_member key value end = member key value end
insert_member key value (member k v rest) =
    let more = insert_member key value rest in
    if k == key then member k value rest else member k v more

-- `i64::to_string`
abbrev pub show_int : ℤ → String
show_int (pos n) = show n
show_int (negsuc n) = format ("-" ∷ show (suc n) ∷ [])

-- `serde_json::{from_str, to_string}` at `Value`.
pub record Codec : Type 1 where
  pub Error : Type 0
  pub error_text : Error → String
  pub from_str : String → Result Error Value
  pub to_string : Value → Result Error String
