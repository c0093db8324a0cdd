-- ===== src/Mongo/Owners.antt =====
-- mongo.rs: whose the errors of an operation are.
use fabricd.Base.{
  arith, ℕ, ◌≡◌, ◌⊎◌, Bool, true, not, if◌then◌else◌, refl, sym, ap, inl, inr, List, [], ◌∷◌, ◌++◌,
  any, nat_eq, Eff, err-inj, lift, mapping, pure, zero, suc, false, FailsIn, bind-FailsIn,
  mapping-FailsIn, if-FailsIn,
}
use fabricd.Json.{pos, negsuc, Value, Codec}
use fabricd.Wire.{operator, developer, Fault, Collectors}
use fabricd.Mongo.Faults.{MongoError, classify_command, classify_mongo, ErrorKind}
use fabricd.Mongo.Bson.{BsonTypes, document_to_json}
use fabricd.Mongo.Driver.{Mongodb, MongoCodecs}
use fabricd.Mongo.{from_mongo, drain_loop, drain_cursor, drained}
use fabricd.Mongo.Handlers.{IsClosed}

-- The developer's MONGO_QUERY, which no retry helps.
abbrev pub IsQueryFault : Fault → Type 0
IsQueryFault f = f ≡ record { code = "MONGO_QUERY"; retryable = false; owner = developer }

-- A write that the server refuses, an invalid argument, and the commands that fail by a duplicate
-- key or by what they say.
abbrev pub is_developers : ErrorKind → Bool
is_developers ErrorKind.write = true
is_developers ErrorKind.bulk_write = true
is_developers ErrorKind.invalid_argument = true
is_developers (ErrorKind.command (pos code)) =
    any (nat_eq code) (11000 ∷ 11001 ∷ 2 ∷ 4 ∷ 9 ∷ 14 ∷ 40 ∷ 51 ∷ 52 ∷ 168 ∷ [])
is_developers other = false

-- By its kind a failure is the developer's and final, or the operator's and worth a retry.
abbrev pub IsByKind : ErrorKind → Fault → Type 0
IsByKind kind f =
    (f.retryable ≡ not (is_developers kind))
    × (f.owner ≡ (if is_developers kind then developer else operator))

classify_mongo-IsByKind : (kind : ErrorKind) → IsByKind kind (classify_mongo kind)
unfolding classify_mongo classify_command
classify_mongo-IsByKind ErrorKind.authentication = (refl, refl)
classify_mongo-IsByKind ErrorKind.io = (refl, refl)
classify_mongo-IsByKind ErrorKind.server_selection = (refl, refl)
classify_mongo-IsByKind ErrorKind.write = (refl, refl)
classify_mongo-IsByKind ErrorKind.bulk_write = (refl, refl)
classify_mongo-IsByKind (ErrorKind.command (pos code)) = (ground arith, ground arith)
classify_mongo-IsByKind (ErrorKind.command (negsuc code)) = (refl, refl)
classify_mongo-IsByKind ErrorKind.invalid_argument = (refl, refl)
classify_mongo-IsByKind ErrorKind.unlisted = (refl, refl)

module _ {W : Type 0} (t : BsonTypes) (mongo : Mongodb W t) (codecs : MongoCodecs t) (codec : Codec)
    (log : Collectors) where
  -- What was asked is wrong, or the driver fails, by the kind of its failure.
  abbrev pub IsOperations : Fault → Type 0
  IsOperations f = IsQueryFault f ⊎ ((x : mongo.Error) × IsByKind (mongo.kind x) f)

  abbrev IsOperationsError : MongoError → Type 0
  IsOperationsError e = IsOperations e.fault

  from_mongo-IsOperations :
      (e : mongo.Error) → IsOperationsError (from_mongo t mongo codecs codec e)
  unfolding from_mongo
  from_mongo-IsOperations e = inr (e, classify_mongo-IsByKind (mongo.kind e))

  asked-IsOperations :
      {A : Type 0} (command : Eff W mongo.Error A)
      → FailsIn IsOperationsError (mapping (from_mongo t mongo codecs codec) command)
  asked-IsOperations command = mapping-FailsIn IsOperationsError _ command from_mongo-IsOperations

  drain_loop-IsOperations :
      (room : ℕ) (cursor : mongo.Cursor) (docs : List Value)
      → FailsIn IsOperationsError (drain_loop t mongo codecs codec room cursor docs)
  unfolding drain_loop
  drain_loop-IsOperations zero cursor docs =
      bind-FailsIn IsOperationsError _ (λ more. pure (docs, more))
        (asked-IsOperations (mongo.advance cursor)) λ more w e h. cc
  drain_loop-IsOperations (suc room) cursor docs =
      bind-FailsIn IsOperationsError _ _ (asked-IsOperations (mongo.advance cursor)) λ more.
        if-FailsIn IsOperationsError more _ (pure (docs, false))
          (bind-FailsIn IsOperationsError _
            (λ doc.
              drain_loop t mongo codecs codec room cursor (docs ++ document_to_json t doc ∷ []))
            (asked-IsOperations (mongo.deserialize_current cursor))
            λ doc. drain_loop-IsOperations room cursor (docs ++ document_to_json t doc ∷ []))
          λ w e h. cc

  pub IsOperations-IsClosed :
      (max_docs : ℕ)
      → IsClosed t mongo codecs codec log max_docs (FailsIn (λ e. IsOperations e.fault))
  unfolding drain_cursor
  IsOperations-IsClosed max_docs = record {
    branch = λ test m n. if-FailsIn _ test m n;
    prepared =
        λ r f fails each. bind-FailsIn IsOperationsError (lift r) f (λ w e h. inl (fails e h)) each;
    asked = λ command f each. bind-FailsIn IsOperationsError _ f (asked-IsOperations command) each;
    reading = λ cursor.
        bind-FailsIn IsOperationsError (drain_loop t mongo codecs codec max_docs cursor [])
          (λ taken. pure (drained t mongo codecs codec taken))
          (drain_loop-IsOperations max_docs cursor []) λ taken w e h. cc;
    answered = λ out small w e h. cc;
    refused = λ message w e h. inl (ap MongoError.fault (sym (err-inj h)));
  }
