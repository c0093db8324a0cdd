-- ===== src/Mongo/Driver.antt =====
-- crates/fabric-backends/src/mongo.rs: the payloads, and the `mongodb` crate as a parameter.
use fabricd.Base.{◌≡◌, some, ℕ, String, Bool, Option, List, Result, Eff}
use fabricd.Json.{ℤ, Value}
use fabricd.Mongo.Faults.{ErrorKind}
use fabricd.Mongo.Bson.{BsonTypes, Bson, Document}

pub record FindOpts : Type 0 where
  pub limit : Option ℤ
  pub skip : Option ℕ
  pub sort : Option Value
  pub projection : Option Value

pub record MongoPayload : Type 0 where
  pub filter : Value
  pub update : Value
  pub doc : Value
  pub docs : Value
  pub pipeline : Value
  pub options : FindOpts

pub record UpdateResult : Type 0 where
  pub matched_count : ℕ
  pub modified_count : ℕ

-- The `mongodb` crate over the world `W`, which holds the servers, the cursors and the clock. A
-- `FindAction` is the builder of a read. `within` is `tokio::time::timeout`: the outcome of an
-- operation that ended in the given milliseconds, and nothing for one that did not. `elapsed_us` is
-- the time between two worlds, and `percent_encode` is `utf8_percent_encode` with NON_ALPHANUMERIC.
pub record Mongodb (W : Type 0) (t : BsonTypes) : Type 1 where
  pub Error : Type 0
  pub error_text : Error → String
  pub kind : Error → ErrorKind
  pub ClientOptions : Type 0
  pub Client : Type 0
  pub Database : Type 0
  pub Collection : Type 0
  pub parse : String → Eff W Error ClientOptions
  pub with_options : ClientOptions → Eff W Error Client
  pub database : Client → String → Database
  pub collection : Database → String → Collection
  pub FindAction : Type 0
  pub find : Collection → Document t → FindAction
  pub max_time : ℕ → FindAction → FindAction
  pub limit : ℤ → FindAction → FindAction
  pub skip : ℕ → FindAction → FindAction
  pub sort : Document t → FindAction → FindAction
  pub projection : Document t → FindAction → FindAction
  pub Cursor : Type 0
  pub run_find : FindAction → Eff W Error Cursor
  pub find_one : Collection → Document t → Eff W Error (Option (Document t))
  pub count_documents : Collection → Document t → (max_time : ℕ) → Eff W Error ℕ
  pub aggregate : Collection → List (Document t) → (max_time : ℕ) → Eff W Error Cursor
  pub advance : Cursor → Eff W Error Bool
  pub deserialize_current : Cursor → Eff W Error (Document t)
  pub insert_one : Collection → Document t → Eff W Error (Bson t)
  pub insert_many : Collection → List (Document t) → Eff W Error (List (Bson t))
  pub update_one : Collection → Document t → Document t → Eff W Error UpdateResult
  pub update_many : Collection → Document t → Document t → Eff W Error UpdateResult
  pub delete_one : Collection → Document t → Eff W Error ℕ
  pub delete_many : Collection → Document t → Eff W Error ℕ
  pub now_ms : W → ℕ
  pub within : {E A : Type 0} → ℕ → Eff W E A → W → Option (Result E A) × W
  pub elapsed_us : W → W → ℕ
  pub percent_encode : String → String

-- `timeout`: an operation that ends in time ends as it does without a deadline.
pub record IsTimeout {W : Type 0} {t : BsonTypes} (mongo : Mongodb W t) : Type 1 where
  pub ended :
      {E A : Type 0} (ms : ℕ) (operation : Eff W E A) (w : W) (r : Result E A)
      → (mongo.within ms operation w).0 ≡ some r
      → (operation w).0 ≡ r

-- The decoder that serde derives, with the text of its error; `bson::to_bson`; and `Value`'s
-- `Display`, which always prints.
pub record MongoCodecs (t : BsonTypes) : Type 0 where
  pub payload : String → Result String MongoPayload
  pub to_bson : Value → Result String (Bson t)
  pub display : Value → String
