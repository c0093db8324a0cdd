-- ===== src/Mongo/Blame.antt =====
-- mongo.rs: whose the error of a call is.
use fabricd.Base.{String, ◌≡◌, ◌⊎◌, Bool, true, false, any, ◌==◌, [], ◌∷◌, Result, ok, err, Eff}
use fabricd.Json.{Codec}
use fabricd.Wire.{operator, Fault, Collectors}
use fabricd.Mongo.Faults.{MongoError}
use fabricd.Mongo.Bson.{BsonTypes}
use fabricd.Mongo.Driver.{MongoPayload, Mongodb, IsTimeout, MongoCodecs}
use fabricd.Mongo.{MongoOutcome}
use fabricd.Mongo.Owners.{IsQueryFault, IsOperations}
use fabricd.Mongo.Calls.{MongoBackend, run_mongo}

-- The retryable MONGO_TIMEOUT of the operator.
abbrev pub IsTimeoutFault : Fault → Type 0
IsTimeoutFault f = f ≡ record { code = "MONGO_TIMEOUT"; retryable = true; owner = operator }

abbrev pub is_known : String → Bool
is_known action =
    any (λ known. action == known)
      ("find" ∷ "find_one" ∷ "count" ∷ "aggregate" ∷ "insert_one" ∷ "insert_many" ∷ "update_one"
        ∷ "update_many" ∷ "delete_one" ∷ "delete_many" ∷ [])

module _ {W : Type 0} (t : BsonTypes) (mongo : Mongodb W t) (codecs : MongoCodecs t) (codec : Codec)
    (log : Collectors) where
  -- By whether the payload decodes and the action is one that there is.
  abbrev pub IsBlamed : Result String MongoPayload → Bool → Fault → Type 0
  IsBlamed (err x) known f = IsQueryFault f
  IsBlamed (ok payload) false f = IsTimeoutFault f ⊎ IsQueryFault f
  IsBlamed (ok payload) true f = IsTimeoutFault f ⊎ IsOperations t mongo codecs codec log f

  module _ (timeout : IsTimeout mongo) (b : MongoBackend t mongo codecs codec log) where
    module _ (action name : String) where
      operation : MongoPayload → Eff W MongoError MongoOutcome
      operation payload =
          run_mongo t mongo codecs codec log b (mongo.collection b.database name) action payload
