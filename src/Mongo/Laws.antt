-- ===== src/Mongo/Laws.antt =====
-- mongo.rs: what the calls hand out and what they record.
use fabricd.Base.{
  ℕ, ◌-◌, ◌≤◌, max, String, ◌≡◌, refl, ap, ◌⊎◌, inl, inr, Option, none, some, [], ◌∷◌, ◌++◌, arith,
  Result, ok, err, Eff, ok-inj, lift, map_err, mapping, false, ◌∙◌, ReturnsIn, then-ReturnsIn,
  if-ReturnsIn, format,
}
use fabricd.Json.{Codec}
use fabricd.Wire.{MongoMetric, Collectors, IsLog}
use fabricd.Capability.Laws.{IsMetered}
use fabricd.Mongo.Faults.{MongoError, query_error}
use fabricd.Mongo.Bson.{BsonTypes, docs_to_docs}
use fabricd.Mongo.Driver.{MongoPayload, Mongodb, IsTimeout, MongoCodecs}
use fabricd.Mongo.{MongoOutcome, from_mongo, insert_docs, do_insert_many}
use fabricd.Mongo.Cursors.{drain_cursor-bound}
use fabricd.Mongo.Handlers.{IsQueryError, IsClosed, run_mongo-closed}
use fabricd.Mongo.Calls.{
  MongoBackend, run_mongo, in_time, under_deadline, dispatch_mongo, recorded, build_mongo_metric,
  call_mongo_backend, mongo_capability,
}

module _ {W : Type 0} (t : BsonTypes) (mongo : Mongodb W t) (codecs : MongoCodecs t) (codec : Codec)
    (log : Collectors) where
  abbrev IsWithin : ℕ → MongoOutcome → Type 0
  IsWithin max_docs out = out.docs_returned ≤ max 1 max_docs

  IsWithin-IsClosed :
      (max_docs : ℕ) → IsClosed t mongo codecs codec log max_docs (ReturnsIn (IsWithin max_docs))
  IsWithin-IsClosed max_docs = record {
    branch = λ test m n. if-ReturnsIn _ test m n;
    prepared = λ r f fails each. then-ReturnsIn _ (lift r) f each;
    asked = λ command f each.
        then-ReturnsIn _ (mapping (from_mongo t mongo codecs codec) command) f each;
    reading = λ cursor w out h.
        omega (arith, drain_cursor-bound t mongo codecs codec cursor max_docs w out h);
    answered = λ out small w found h.
        let same = ap MongoOutcome.docs_returned (ok-inj h) in omega (arith, small, same);
    refused = λ message w out h. cc;
  }

  -- An operation, whatever its action and payload, hands out at most `max_docs` documents, and at
  -- most one where `max_docs` is 0.
  pub run_mongo-bound :
      (b : MongoBackend t mongo codecs codec log) (collection : mongo.Collection) (action : String)
      (payload : MongoPayload) (w : W) (out : MongoOutcome)
      → (run_mongo t mongo codecs codec log b collection action payload w).0 ≡ ok out
      → out.docs_returned ≤ max 1 b.max_docs
  run_mongo-bound b collection action payload =
      run_mongo-closed t mongo codecs codec log b collection payload
        (ReturnsIn (IsWithin b.max_docs)) (IsWithin-IsClosed b.max_docs) action

  in_time-IsWithin :
      (max_docs : ℕ) (o : Option (Result MongoError MongoOutcome) × W) (out : MongoOutcome)
      → ((r : Result MongoError MongoOutcome) → o.0 ≡ some r → r ≡ ok out → IsWithin max_docs out)
      → (in_time t mongo codecs codec log o).0 ≡ ok out
      → IsWithin max_docs out
  in_time-IsWithin max_docs (none, w) out ended h = cc
  in_time-IsWithin max_docs (some r, w) out ended h = ended r refl h

  module _ (timeout : IsTimeout mongo) (b : MongoBackend t mongo codecs codec log) where
    under_deadline-IsWithin :
        (operation : Eff W MongoError MongoOutcome)
        → ReturnsIn (IsWithin b.max_docs) operation
        → ReturnsIn (IsWithin b.max_docs) (under_deadline t mongo codecs codec log b operation)
    under_deadline-IsWithin operation within w out =
        let ms = b.deadline_ms - mongo.now_ms w in
        in_time-IsWithin b.max_docs (mongo.within ms operation w) out
          λ r given h. within w out (timeout.ended ms operation w r given ∙ h)

    decoded : String → Result MongoError MongoPayload
    decoded payload_json =
        map_err (λ e. query_error (format ("invalid mongo payload: " ∷ e ∷ [])))
          (codecs.payload payload_json)

    module _ (action name payload_json : String) where
      operation : MongoPayload → Eff W MongoError MongoOutcome
      operation payload =
          run_mongo t mongo codecs codec log b (mongo.collection b.database name) action payload

      dispatch_mongo-IsWithin :
          ReturnsIn
            (IsWithin b.max_docs)
            (dispatch_mongo t mongo codecs codec log b action name payload_json)
      unfolding dispatch_mongo decoded operation
      dispatch_mongo-IsWithin =
          then-ReturnsIn (IsWithin b.max_docs) (lift (decoded payload_json))
            (λ payload. under_deadline t mongo codecs codec log b (operation payload))
            λ payload.
              under_deadline-IsWithin (operation payload)
                (run_mongo-bound b (mongo.collection b.database name) action payload)

  recorded-records :
      IsLog log
      → (action : String) (b : MongoBackend t mongo codecs codec log) (start : W)
        (r : Result MongoError MongoOutcome × W)
      → ((out : MongoOutcome) → r.0 ≡ ok out → IsWithin b.max_docs out)
      → let (result, after, end) = recorded t mongo codecs codec log start action b r in
        ((m : MongoMetric) × (log.drain MongoMetric after.metrics
            ≡ log.drain MongoMetric b.metrics ++ m ∷ [])
          × (m.action ≡ action)
          × (m.docs_returned ≤ max 1 b.max_docs)
          × (((json : String) × (result ≡ ok json))
              ⊎ ((m.docs_returned ≡ 0) × (m.docs_affected ≡ 0) × (m.truncated ≡ false))))
        × (after ≡ record b { metrics = after.metrics })
  unfolding build_mongo_metric
  recorded-records is_log action b start (ok out, w) within = (
    (_, is_log.drain_push MongoMetric b.metrics _, refl, within out refl, inl (out.json, refl)),
    refl,
  )
  recorded-records is_log action b start (err e, w) within = (
    (_, is_log.drain_push MongoMetric b.metrics _, refl, omega arith, inr (refl, refl, refl)),
    refl,
  )

  -- A call of the document database, whatever its action and its outcome, records one metric, of
  -- its own action, with at most `max_docs` documents returned (one where `max_docs` is 0), and of
  -- zeros where it fails; the handle, the deadline and the limits stay.
  pub call_mongo_backend-records :
      IsTimeout mongo
      → IsLog log
      → (b : MongoBackend t mongo codecs codec log) (action name payload_json : String) (w : W)
      → let (result, after, end) =
          call_mongo_backend t mongo codecs codec log action name payload_json b w in
        ((m : MongoMetric) × (log.drain MongoMetric after.metrics
            ≡ log.drain MongoMetric b.metrics ++ m ∷ [])
          × (m.action ≡ action)
          × (m.docs_returned ≤ max 1 b.max_docs)
          × (((json : String) × (result ≡ ok json))
              ⊎ ((m.docs_returned ≡ 0) × (m.docs_affected ≡ 0) × (m.truncated ≡ false))))
        × (after ≡ record b { metrics = after.metrics })
  unfolding call_mongo_backend
  call_mongo_backend-records timeout is_log b action name payload_json w =
      recorded-records is_log action b w
        (dispatch_mongo t mongo codecs codec log b action name payload_json w)
        (dispatch_mongo-IsWithin timeout b action name payload_json w)

  pub mongo_capability-IsMetered :
      {Breaker : Type 0}
      → IsLog log
      → IsMetered (mongo_capability t mongo codecs codec log {Breaker = Breaker})
  unfolding call_mongo_backend
  mongo_capability-IsMetered is_log = record {
    call_keeps = λ action args b w. (_ ∷ [], is_log.drain_push MongoMetric b.metrics _);
  }

  -- An `insert_many` of no documents is the developer's query error, and nothing is sent.
  pub do_insert_many-none :
      (collection : mongo.Collection) (payload : MongoPayload) (w : W)
      → docs_to_docs t codecs.to_bson payload.docs ≡ ok []
      → (e : MongoError) × (do_insert_many t mongo codecs codec collection payload w ≡ (err e, w))
        × IsQueryError e
  unfolding do_insert_many insert_docs
  do_insert_many-none collection payload w none_given = rw none_given (_, refl, refl)
