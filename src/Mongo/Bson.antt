-- ===== src/Mongo/Bson.antt =====
-- crates/fabric-backends/src/mongo.rs: documents to JSON and back. Ids, decimals, dates and the
-- types that the source does not name are parameters, and so is how the bson crate prints them and
-- converts a JSON value. A double is its bit pattern.
use fabricd.Base.{ℕ, String, Bool, Option, none, some, List, Result, ok, err, [], ◌∷◌, format}
use fabricd.Json.{
  ℤ, Number, int, Value, Items, nil, cons, Members, end, insert_member, show_int, elements,
}
use fabricd.Mongo.Faults.{MongoError, query_error}

pub record BsonTypes : Type 1 where
  pub ObjectId : Type 0
  pub to_hex : ObjectId → String
  pub Decimal128 : Type 0
  pub decimal_text : Decimal128 → String
  pub DateTime : Type 0
  pub try_to_rfc3339_string : DateTime → Option String
  pub timestamp_millis : DateTime → ℤ
  pub Exotic : Type 0
  pub exotic_text : Exotic → String
  pub base64_encode : List ℕ → String
  pub from_f64 : ℕ → Option Number

module _ (t : BsonTypes) where
  mutual
    pub data Bson : Type 0 where
      double : ℕ → Bson
      string : String → Bson
      boolean : Bool → Bson
      null : Bson
      int32 : ℤ → Bson
      int64 : ℤ → Bson
      object_id : t.ObjectId → Bson
      decimal128 : t.Decimal128 → Bson
      date_time : t.DateTime → Bson
      binary : List ℕ → Bson
      array : BsonItems → Bson
      document : Document → Bson
      exotic : t.Exotic → Bson

    pub data BsonItems : Type 0 where
      no_items : BsonItems
      item : Bson → BsonItems → BsonItems

    pub data Document : Type 0 where
      new : Document
      entry : String → Bson → Document → Document

  abbrev number_or_null : Option Number → Value
  number_or_null none = Value.null
  number_or_null (some n) = Value.number n

  abbrev rfc3339_or : Option String → String → String
  rfc3339_or (some s) other = s
  rfc3339_or none other = other

  unfoldable mutual
    pub bson_to_json : Bson → Value
    bson_to_json (double num) = number_or_null (t.from_f64 num)
    bson_to_json (string s) = Value.string s
    bson_to_json (boolean flag) = Value.bool flag
    bson_to_json null = Value.null
    bson_to_json (int32 n) = Value.number (int n)
    bson_to_json (int64 n) = Value.string (show_int n)
    bson_to_json (object_id oid) = Value.string (t.to_hex oid)
    bson_to_json (decimal128 dec) = Value.string (t.decimal_text dec)
    bson_to_json (date_time date) =
        Value.string
          (rfc3339_or (t.try_to_rfc3339_string date) (show_int (t.timestamp_millis date)))
    bson_to_json (binary bytes) = Value.string (t.base64_encode bytes)
    bson_to_json (array xs) = Value.array (items_to_json xs)
    bson_to_json (document doc) = Value.object (insert_entries doc end)
    bson_to_json (exotic other) = Value.string (t.exotic_text other)

    pub items_to_json : BsonItems → Items
    items_to_json no_items = nil
    items_to_json (item x xs) = cons (bson_to_json x) (items_to_json xs)

    -- The loop of `document_to_json`.
    pub insert_entries : Document → Members → Members
    insert_entries new obj = obj
    insert_entries (entry key val doc) obj =
        insert_entries doc (insert_member key (bson_to_json val) obj)

  abbrev pub document_to_json : Document → Value
  document_to_json doc = Value.object (insert_entries doc end)

  -- `Value`'s `Display`, which always prints.
  abbrev pub Display : Type 0
  Display = Value → String

  unfoldable pub id_to_string : Display → Bson → String
  id_to_string display (object_id oid) = t.to_hex oid
  id_to_string display (string s) = s
  id_to_string display other = display (bson_to_json other)

  abbrev pub document_of : Result String Bson → Result MongoError Document
  document_of (ok (document doc)) = ok doc
  document_of (ok other) = err (query_error "expected a JSON object")
  document_of (err e) = err (query_error (format ("invalid document: " ∷ e ∷ [])))

  -- `to_bson` is `bson::to_bson`, with the text of its error.
  unfoldable pub json_to_doc : (Value → Result String Bson) → Value → Result MongoError Document
  json_to_doc to_bson Value.null = ok new
  json_to_doc to_bson value = document_of (to_bson value)

  abbrev pub and_doc :
      Result MongoError Document
      → Result MongoError (List Document)
      → Result MongoError (List Document)
  and_doc (ok doc) (ok docs) = ok (doc ∷ docs)
  and_doc (ok doc) (err e) = err e
  and_doc (err e) rest = err e

  -- `iter().map(json_to_doc).collect()`
  unfoldable pub collect_docs :
      (Value → Result String Bson) → List Value → Result MongoError (List Document)
  unfolding json_to_doc
  collect_docs to_bson [] = ok []
  collect_docs to_bson (v ∷ vs) = and_doc (json_to_doc to_bson v) (collect_docs to_bson vs)

  unfoldable pub docs_to_docs :
      (Value → Result String Bson) → Value → Result MongoError (List Document)
  unfolding collect_docs
  docs_to_docs to_bson Value.null = ok []
  docs_to_docs to_bson (Value.array xs) = collect_docs to_bson (elements xs)
  docs_to_docs to_bson (Value.bool b) = err (query_error "expected a JSON array")
  docs_to_docs to_bson (Value.number n) = err (query_error "expected a JSON array")
  docs_to_docs to_bson (Value.string s) = err (query_error "expected a JSON array")
  docs_to_docs to_bson (Value.object fields) = err (query_error "expected a JSON array")

  unfoldable pub pipeline_to_docs :
      (Value → Result String Bson) → Value → Result MongoError (List Document)
  unfolding docs_to_docs
  pipeline_to_docs to_bson value = docs_to_docs to_bson value
