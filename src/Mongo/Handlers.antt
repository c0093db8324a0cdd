-- ===== src/Mongo/Handlers.antt =====
-- mongo.rs: what the handlers have in common. Each converts its payload, awaits one command of the
-- driver, and makes an outcome of the answer.
use fabricd.Base.{
  ℕ, ◌≤◌, String, ◌≡◌, sym, ap, Bool, false, true, Option, none, some, List, [], ◌∷◌, ◌==◌,
  if◌then◌else◌, arith, Result, ok, err, Eff, and_then, map_ok, err-inj, lift, mapping, format,
  show, raise, pure, ◌>>=◌, ErrsIn,
}
use fabricd.Json.{Value, Codec, elements}
use fabricd.Wire.{Collectors}
use fabricd.Mongo.Faults.{mongo_query, MongoError, query_error}
use fabricd.Mongo.Bson.{
  BsonTypes, Bson, Document, document_of, and_doc, json_to_doc, collect_docs, docs_to_docs,
  pipeline_to_docs,
}
use fabricd.Mongo.Driver.{MongoPayload, Mongodb, MongoCodecs}
use fabricd.Mongo.{
  MongoOutcome, from_mongo, drain_cursor, to_doc, with_document, find_action, do_find, do_find_one,
  do_count, do_aggregate, do_insert_one, do_insert_many, insert_docs, is_none, do_update, do_delete,
  found_outcome, affecting,
}
use fabricd.Mongo.Calls.{MongoBackend, run_mongo}

-- A developer's query error.
abbrev pub IsQueryError : MongoError → Type 0
IsQueryError e = e.fault ≡ mongo_query

and_then-ErrsIn :
    {E A B : Type 0} (P : E → Type 0) (r : Result E A) (f : A → Result E B)
    → ErrsIn P r
    → ((a : A) → ErrsIn P (f a))
    → ErrsIn P (and_then r f)
and_then-ErrsIn P (ok a) f hr hf e h = hf a e h
and_then-ErrsIn P (err x) f hr hf e h = hr e (ap err (err-inj h))

map_ok-ErrsIn :
    {E A B : Type 0} (P : E → Type 0) (f : A → B) (r : Result E A)
    → ErrsIn P r
    → ErrsIn P (map_ok f r)
map_ok-ErrsIn P f (ok a) hr e h = cc
map_ok-ErrsIn P f (err x) hr e h = hr e (ap err (err-inj h))

module _ {W : Type 0} (t : BsonTypes) (mongo : Mongodb W t) (codecs : MongoCodecs t) (codec : Codec)
    (log : Collectors) where
  document_of-ErrsIn : (r : Result String (Bson t)) → ErrsIn IsQueryError (document_of t r)
  document_of-ErrsIn (ok (Bson.document doc)) e h = cc
  document_of-ErrsIn (ok other) e h = ap MongoError.fault (sym (err-inj h))
  document_of-ErrsIn (err text) e h = ap MongoError.fault (sym (err-inj h))

  pub to_doc-ErrsIn : (value : Value) → ErrsIn IsQueryError (to_doc t mongo codecs codec value)
  unfolding json_to_doc
  to_doc-ErrsIn Value.null e h = cc
  to_doc-ErrsIn value e h = document_of-ErrsIn (codecs.to_bson value) e h

  and_doc-ErrsIn :
      (r : Result MongoError (Document t)) (rest : Result MongoError (List (Document t)))
      → ErrsIn IsQueryError r
      → ErrsIn IsQueryError rest
      → ErrsIn IsQueryError (and_doc t r rest)
  and_doc-ErrsIn (ok doc) (ok docs) hr hs e h = cc
  and_doc-ErrsIn (ok doc) (err x) hr hs e h = hs e (ap err (err-inj h))
  and_doc-ErrsIn (err x) rest hr hs e h = hr e (ap err (err-inj h))

  collect_docs-ErrsIn : (vs : List Value) → ErrsIn IsQueryError (collect_docs t codecs.to_bson vs)
  unfolding collect_docs
  collect_docs-ErrsIn [] e h = cc
  collect_docs-ErrsIn (v ∷ vs) e h =
      and_doc-ErrsIn (json_to_doc t codecs.to_bson v) (collect_docs t codecs.to_bson vs)
        (to_doc-ErrsIn v) (collect_docs-ErrsIn vs) e h

  docs_to_docs-ErrsIn : (value : Value) → ErrsIn IsQueryError (docs_to_docs t codecs.to_bson value)
  unfolding docs_to_docs
  docs_to_docs-ErrsIn Value.null e h = cc
  docs_to_docs-ErrsIn (Value.array xs) e h = collect_docs-ErrsIn (elements xs) e h
  docs_to_docs-ErrsIn other e h = ap MongoError.fault (sym (err-inj h))

  with_document-ErrsIn :
      (o : Option Value) (step : Document t → mongo.FindAction → mongo.FindAction)
      (action : mongo.FindAction)
      → ErrsIn IsQueryError (with_document t mongo codecs codec o step action)
  with_document-ErrsIn none step action e h = cc
  with_document-ErrsIn (some value) step action e h =
      map_ok-ErrsIn IsQueryError (λ doc. step doc action) (to_doc t mongo codecs codec value)
        (to_doc-ErrsIn value) e h

  find_action-ErrsIn :
      (op_timeout : ℕ) (collection : mongo.Collection) (payload : MongoPayload)
      → ErrsIn IsQueryError (find_action t mongo codecs codec op_timeout collection payload)
  unfolding find_action
  find_action-ErrsIn op_timeout collection payload =
      and_then-ErrsIn IsQueryError (to_doc t mongo codecs codec payload.filter) _
        (to_doc-ErrsIn payload.filter)
        λ filter.
          and_then-ErrsIn IsQueryError
            (with_document t mongo codecs codec payload.options.sort mongo.sort _) _
            (with_document-ErrsIn payload.options.sort mongo.sort _)
            λ sorted. with_document-ErrsIn payload.options.projection mongo.projection sorted

  -- A predicate on operations that the steps of every handler keep.
  pub record IsClosed (max_docs : ℕ) (P : Eff W MongoError MongoOutcome → Type 0) : Type 1 where
    pub branch :
        (test : Bool) (m n : Eff W MongoError MongoOutcome) → P m → P n → P (if test then m else n)
    pub prepared :
        {A : Type 0} (r : Result MongoError A) (f : A → Eff W MongoError MongoOutcome)
        → ErrsIn IsQueryError r
        → ((a : A) → P (f a))
        → P (lift r >>= f)
    pub asked :
        {B : Type 0} (command : Eff W mongo.Error B) (f : B → Eff W MongoError MongoOutcome)
        → ((r : B) → P (f r))
        → P (mapping (from_mongo t mongo codecs codec) command >>= f)
    pub reading : (cursor : mongo.Cursor) → P (drain_cursor t mongo codecs codec cursor max_docs)
    pub answered : (out : MongoOutcome) → out.docs_returned ≤ 1 → P (pure out)
    pub refused : (message : String) → P (raise (query_error message))

  module _ (b : MongoBackend t mongo codecs codec log) (collection : mongo.Collection)
      (payload : MongoPayload) (P : Eff W MongoError MongoOutcome → Type 0)
      (closed : IsClosed b.max_docs P) where
    find-closed : P (do_find t mongo codecs codec b.op_timeout_ms b.max_docs collection payload)
    unfolding do_find
    find-closed =
        closed.prepared (find_action t mongo codecs codec b.op_timeout_ms collection payload)
          (λ action. mapping (from_mongo t mongo codecs codec) (mongo.run_find action) >>= λ cursor.
            drain_cursor t mongo codecs codec cursor b.max_docs)
          (find_action-ErrsIn b.op_timeout_ms collection payload)
          λ action.
            closed.asked (mongo.run_find action)
              (λ cursor. drain_cursor t mongo codecs codec cursor b.max_docs) closed.reading

    aggregate-closed :
        P (do_aggregate t mongo codecs codec b.op_timeout_ms b.max_docs collection payload)
    unfolding do_aggregate pipeline_to_docs
    aggregate-closed =
        closed.prepared (pipeline_to_docs t codecs.to_bson payload.pipeline)
          (λ pipeline.
            mapping (from_mongo t mongo codecs codec)
              (mongo.aggregate collection pipeline b.op_timeout_ms)
            >>= λ cursor. drain_cursor t mongo codecs codec cursor b.max_docs)
          (docs_to_docs-ErrsIn payload.pipeline)
          λ pipeline.
            closed.asked (mongo.aggregate collection pipeline b.op_timeout_ms)
              (λ cursor. drain_cursor t mongo codecs codec cursor b.max_docs) closed.reading

    -- An operation on a filter whose answer is turned into an outcome at once.
    filtered-closed :
        {B : Type 0} (value : Value) (command : Document t → Eff W mongo.Error B)
        (outcome : B → MongoOutcome)
        → ((r : B) → (outcome r).docs_returned ≤ 1)
        → P (
            lift (to_doc t mongo codecs codec value) >>= λ doc.
            mapping (from_mongo t mongo codecs codec) (command doc) >>= λ r. pure (outcome r))
    filtered-closed value command outcome small =
        closed.prepared (to_doc t mongo codecs codec value)
          (λ doc. mapping (from_mongo t mongo codecs codec) (command doc) >>= λ r. pure (outcome r))
          (to_doc-ErrsIn value)
          λ doc.
            closed.asked (command doc) (λ r. pure (outcome r))
              λ r. closed.answered (outcome r) (small r)

    found_small :
        (found : Option (Document t)) → (found_outcome t mongo codecs codec found).docs_returned ≤ 1
    found_small none = omega arith
    found_small (some doc) = omega arith

    find_one-closed : P (do_find_one t mongo codecs codec collection payload)
    unfolding do_find_one
    find_one-closed =
        filtered-closed payload.filter (mongo.find_one collection)
          (found_outcome t mongo codecs codec) found_small

    count-closed : P (do_count t mongo codecs codec b.op_timeout_ms collection payload)
    unfolding do_count
    count-closed =
        filtered-closed payload.filter
          (λ filter. mongo.count_documents collection filter b.op_timeout_ms)
          (λ n. affecting (format ("{\"count\":" ∷ show n ∷ "}" ∷ [])) 0) λ n. omega arith

    insert_one-closed : P (do_insert_one t mongo codecs codec collection payload)
    unfolding do_insert_one
    insert_one-closed =
        filtered-closed payload.doc (mongo.insert_one collection) _ λ id. omega arith

    insert_many-closed : P (do_insert_many t mongo codecs codec collection payload)
    unfolding do_insert_many insert_docs
    insert_many-closed =
        closed.prepared (docs_to_docs t codecs.to_bson payload.docs)
          (insert_docs t mongo codecs codec collection) (docs_to_docs-ErrsIn payload.docs)
          λ docs. closed.branch (is_none docs) _ _ (closed.refused _) (
            closed.asked (mongo.insert_many collection docs) _
              λ ids. closed.answered _ (omega arith))

    update-closed : (many : Bool) → P (do_update t mongo codecs codec collection payload many)
    unfolding do_update
    update-closed many =
        closed.prepared (to_doc t mongo codecs codec payload.filter) _
          (to_doc-ErrsIn payload.filter)
          λ filter.
            filtered-closed payload.update
              (λ update.
                if many
                then mongo.update_many collection filter update
                else mongo.update_one collection filter update)
              _ λ result. omega arith

    delete-closed : (many : Bool) → P (do_delete t mongo codecs codec collection payload many)
    unfolding do_delete
    delete-closed many =
        filtered-closed payload.filter
          (λ filter.
            if many
            then mongo.delete_many collection filter
            else mongo.delete_one collection filter)
          _ λ n. omega arith

    -- What the steps of the handlers keep holds of every action, an unknown one included.
    pub run_mongo-closed :
        (action : String) → P (run_mongo t mongo codecs codec log b collection action payload)
    unfolding run_mongo
    run_mongo-closed action = closed.branch (action == "find") _ _ find-closed (
        closed.branch (action == "find_one") _ _ find_one-closed (
          closed.branch (action == "count") _ _ count-closed (
            closed.branch (action == "aggregate") _ _ aggregate-closed (
              closed.branch (action == "insert_one") _ _ insert_one-closed (
                closed.branch (action == "insert_many") _ _ insert_many-closed (
                  closed.branch (action == "update_one") _ _ (update-closed false) (
                    closed.branch (action == "update_many") _ _ (update-closed true) (
                      closed.branch (action == "delete_one") _ _ (delete-closed false) (
                        closed.branch (action == "delete_many") _ _ (delete-closed true)
                          (closed.refused _))))))))))
