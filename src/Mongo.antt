-- ===== src/Mongo.antt =====
-- crates/fabric-backends/src/mongo.rs: the operations of the `mongo` capability.
pub mod Faults
pub mod Bson
pub mod Driver
pub mod Calls
pub mod Cursors
pub mod Handlers
pub mod Owners
pub mod Laws
pub mod Blame
use fabricd.Base.{
  ℕ, zero, suc, ◌^◌, ◌-◌, String, Bool, true, false, Option, none, some, List, [], ◌∷◌, ◌++◌,
  length, leb, if◌then◌else◌, ◌==◌, format, show, Result, ok, err, Eff, mapping, raise, lift, pure,
  and_then, ◌>>=◌, map_ok,
}
use fabricd.Json.{Value, bool, number, string, array, int, pos, items, members, Codec}
use fabricd.Mongo.Faults.{MongoError, query_error, classify_mongo}
use fabricd.Mongo.Bson.{
  BsonTypes, Document, document_to_json, json_to_doc, docs_to_docs, pipeline_to_docs, id_to_string,
}
use fabricd.Mongo.Driver.{MongoPayload, Mongodb, MongoCodecs}

pub record MongoOutcome : Type 0 where
  pub json : String
  pub docs_returned : ℕ
  pub docs_affected : ℕ
  pub truncated : Bool

-- The outcome of a write, and of a read of no documents.
abbrev pub affecting : String → ℕ → MongoOutcome
affecting json n = record { json = json; docs_returned = 0; docs_affected = n; truncated = false }

abbrev pub is_none : {A : Type 0} → List A → Bool
is_none [] = true
is_none (x ∷ xs) = false

-- `u64::try_from(n).unwrap_or(u64::MAX)`
abbrev pub to_u64 : ℕ → ℕ
to_u64 n = if leb n (2 ^ 64 - 1) then n else 2 ^ 64 - 1

module _ {W : Type 0} (t : BsonTypes) (mongo : Mongodb W t) (codecs : MongoCodecs t)
    (codec : Codec) where
  unfoldable pub from_mongo : mongo.Error → MongoError
  unfolding classify_mongo
  from_mongo e = record {
    fault = classify_mongo (mongo.kind e);
    message = mongo.error_text e;
    details = none;
  }

  abbrev pub to_doc : Value → Result MongoError (Document t)
  to_doc value = json_to_doc t codecs.to_bson value

  -- The loop of `drain_cursor`: `room` is `max_docs` less the documents that were taken.
  unfoldable pub drain_loop : ℕ → mongo.Cursor → List Value → Eff W MongoError (List Value × Bool)
  drain_loop zero cursor docs =
      mapping from_mongo (mongo.advance cursor) >>= λ more. pure (docs, more)
  drain_loop (suc room) cursor docs = mapping from_mongo (mongo.advance cursor) >>= λ more.
      if more
      then (mapping from_mongo (mongo.deserialize_current cursor) >>= λ doc.
          drain_loop room cursor (docs ++ document_to_json t doc ∷ []))
      else pure (docs, false)

  -- The outcome of a drained cursor.
  abbrev pub drained : List Value × Bool → MongoOutcome
  drained (docs, truncated) = record {
    json = codecs.display (
        Value.object (
          members (
            ("docs", array (items docs))
            ∷ ("count", number (int (pos (length docs))))
            ∷ ("truncated", bool truncated)
            ∷ [])));
    docs_returned = length docs;
    docs_affected = 0;
    truncated = truncated;
  }

  unfoldable pub drain_cursor : mongo.Cursor → ℕ → Eff W MongoError MongoOutcome
  unfolding drain_loop
  drain_cursor cursor max_docs = do taken ← drain_loop max_docs cursor []; pure (drained taken)

  -- A step of a builder that an option may take, and one that converts a document first.
  abbrev with_option :
      {A : Type 0}
      → Option A
      → (A → mongo.FindAction → mongo.FindAction)
      → mongo.FindAction
      → mongo.FindAction
  with_option none step action = action
  with_option (some a) step action = step a action

  abbrev pub with_document :
      Option Value
      → (Document t → mongo.FindAction → mongo.FindAction)
      → mongo.FindAction
      → Result MongoError mongo.FindAction
  with_document none step action = ok action
  with_document (some value) step action = map_ok (λ doc. step doc action) (to_doc value)

  -- The builder of `do_find`, up to where it is awaited.
  unfoldable pub find_action :
      (op_timeout : ℕ) → mongo.Collection → MongoPayload → Result MongoError mongo.FindAction
  find_action op_timeout collection payload = and_then (to_doc payload.filter) λ filter.
      let timed = mongo.max_time op_timeout (mongo.find collection filter) in
      let limited = with_option payload.options.limit mongo.limit timed in
      let skipped = with_option payload.options.skip mongo.skip limited in
      and_then (with_document payload.options.sort mongo.sort skipped)
        λ sorted. with_document payload.options.projection mongo.projection sorted

  unfoldable pub do_find :
      (op_timeout max_docs : ℕ) → mongo.Collection → MongoPayload → Eff W MongoError MongoOutcome
  unfolding find_action drain_cursor from_mongo
  do_find op_timeout max_docs collection payload = do
    action ← lift (find_action op_timeout collection payload)
    cursor ← mapping from_mongo (mongo.run_find action)
    drain_cursor cursor max_docs

  abbrev pub found_outcome : Option (Document t) → MongoOutcome
  found_outcome none = record {
    json = "null";
    docs_returned = 0;
    docs_affected = 0;
    truncated = false;
  }
  found_outcome (some doc) = record {
    json = codecs.display (document_to_json t doc);
    docs_returned = 1;
    docs_affected = 0;
    truncated = false;
  }

  unfoldable pub do_find_one : mongo.Collection → MongoPayload → Eff W MongoError MongoOutcome
  unfolding from_mongo
  do_find_one collection payload = do
    filter ← lift (to_doc payload.filter)
    found ← mapping from_mongo (mongo.find_one collection filter)
    pure (found_outcome found)

  unfoldable pub do_count :
      (op_timeout : ℕ) → mongo.Collection → MongoPayload → Eff W MongoError MongoOutcome
  unfolding from_mongo
  do_count op_timeout collection payload = do
    filter ← lift (to_doc payload.filter)
    count ← mapping from_mongo (mongo.count_documents collection filter op_timeout)
    pure (affecting (format ("{\"count\":" ∷ show count ∷ "}" ∷ [])) 0)

  unfoldable pub do_aggregate :
      (op_timeout max_docs : ℕ) → mongo.Collection → MongoPayload → Eff W MongoError MongoOutcome
  unfolding drain_cursor from_mongo
  do_aggregate op_timeout max_docs collection payload = do
    pipeline ← lift (pipeline_to_docs t codecs.to_bson payload.pipeline)
    cursor ← mapping from_mongo (mongo.aggregate collection pipeline op_timeout)
    drain_cursor cursor max_docs

  -- `unwrap_or` of the empty JSON text.
  abbrev encoded_or : {E : Type 0} → Result E String → String
  encoded_or (ok s) = s
  encoded_or (err e) = "\"\""

  unfoldable pub do_insert_one : mongo.Collection → MongoPayload → Eff W MongoError MongoOutcome
  unfolding from_mongo
  do_insert_one collection payload = do
    doc ← lift (to_doc payload.doc)
    inserted_id ← mapping from_mongo (mongo.insert_one collection doc)
    let id = id_to_string t codecs.display inserted_id
    let encoded = encoded_or (codec.to_string (string id))
    pure (affecting (format ("{\"inserted_id\":" ∷ encoded ∷ "}" ∷ [])) 1)

  -- `do_insert_many` on the converted documents.
  unfoldable pub insert_docs : mongo.Collection → List (Document t) → Eff W MongoError MongoOutcome
  unfolding from_mongo
  insert_docs collection docs =
      if is_none docs
      then raise (query_error "mongo.insert_many requires at least one document")
      else mapping from_mongo (mongo.insert_many collection docs) >>= λ inserted_ids.
          let count = to_u64 (length inserted_ids) in
          pure (affecting (format ("{\"inserted_count\":" ∷ show count ∷ "}" ∷ [])) count)

  unfoldable pub do_insert_many : mongo.Collection → MongoPayload → Eff W MongoError MongoOutcome
  unfolding insert_docs
  do_insert_many collection payload = do
    docs ← lift (docs_to_docs t codecs.to_bson payload.docs)
    insert_docs collection docs

  unfoldable pub do_update : mongo.Collection → MongoPayload → Bool → Eff W MongoError MongoOutcome
  unfolding from_mongo
  do_update collection payload many = do
    filter ← lift (to_doc payload.filter)
    update ← lift (to_doc payload.update)
    result ← mapping from_mongo (
        if many
        then mongo.update_many collection filter update
        else mongo.update_one collection filter update)
    let json = format (
        "{\"matched\":"
        ∷ show result.matched_count
        ∷ ",\"modified\":"
        ∷ show result.modified_count
        ∷ "}"
        ∷ [])
    pure (affecting json result.modified_count)

  unfoldable pub do_delete : mongo.Collection → MongoPayload → Bool → Eff W MongoError MongoOutcome
  unfolding from_mongo
  do_delete collection payload many = do
    filter ← lift (to_doc payload.filter)
    deleted_count ←
        mapping from_mongo
          (if many then mongo.delete_many collection filter else mongo.delete_one collection filter)
    pure (affecting (format ("{\"deleted\":" ∷ show deleted_count ∷ "}" ∷ [])) deleted_count)
