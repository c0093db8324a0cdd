-- ===== src/Mongo/Cursors.antt =====
-- mongo.rs: what a read hands out of the documents that a cursor yields.
use fabricd.Base.{
  Bool, ℕ, zero, suc, ◌+◌, min, ltb, ltb_zero_suc, ltb-suc_zero, ltb-suc-suc, pure, ok-inj,
  length-append, then_pure_of_ok, if-ReturnsIn, ReturnsIn, then-ReturnsIn, bind-ReturnsIn, ◌≤◌, ◌≡◌,
  refl, true, false, List, [], ◌∷◌, ◌++◌, map, length, take, ok, arith, mapping, sym, ap, ◌∙◌,
  length-take, length-map,
}
use mathlib.Core.List.{append-nil, append_assoc}
use fabricd.Json.{Value, Codec, members, items, number, int, pos}
use fabricd.Mongo.Bson.{BsonTypes, Document, document_to_json}
use fabricd.Mongo.Driver.{Mongodb, MongoCodecs}
use fabricd.Mongo.{MongoOutcome, from_mongo, drain_loop, drain_cursor, drained}

module _ {W : Type 0} (t : BsonTypes) (mongo : Mongodb W t) (codecs : MongoCodecs t)
    (codec : Codec) where
  -- From this world on, the cursor yields these documents, each of which decodes, and then ends.
  pub data Yields (cursor : mongo.Cursor) : W → List (Document t) → Type 0 where
    done : {w w' : W} → mongo.advance cursor w ≡ (ok false, w') → Yields cursor w []
    next :
        {w w₁ w₂ : W} {doc : Document t} {docs : List (Document t)}
        → mongo.advance cursor w ≡ (ok true, w₁)
        → mongo.deserialize_current cursor w₁ ≡ (ok doc, w₂)
        → Yields cursor w₂ docs
        → Yields cursor w (doc ∷ docs)

  abbrev json : Document t → Value
  json doc = document_to_json t doc

  drain_loop-Yields :
      (room : ℕ) (cursor : mongo.Cursor) (w : W) (docs : List (Document t)) (taken : List Value)
      → Yields cursor w docs
      → (drain_loop t mongo codecs codec room cursor taken w).0
        ≡ ok (taken ++ map json (take room docs), ltb room (length docs))
  unfolding drain_loop
  drain_loop-Yields zero cursor w [] taken (done ends) =
      rw ends (ap (λ x. ok (x, false)) (sym (append-nil taken)))
  drain_loop-Yields zero cursor w (doc ∷ docs) taken (next more read rest) =
      rw more (rw (ltb_zero_suc (length docs)) (ap (λ x. ok (x, true)) (sym (append-nil taken))))
  drain_loop-Yields (suc room) cursor w [] taken (done ends) =
      rw ends (rw (ltb-suc_zero room) (ap (λ x. ok (x, false)) (sym (append-nil taken))))
  drain_loop-Yields (suc room) cursor w (doc ∷ docs) taken (next {w₂} more read rest) = rw more (
      rw read (
        rw (ltb-suc-suc room (length docs)) (
          drain_loop-Yields room cursor w₂ docs (taken ++ json doc ∷ []) rest
          ∙ ap (λ x. ok (x, ltb room (length docs)))
              (append_assoc taken (json doc ∷ []) (map json (take room docs))))))

  -- The reply with these documents.
  abbrev pub reply_of : List Value → Bool → MongoOutcome
  reply_of docs more = record {
    json = codecs.display (
        Value.object (
          members (
            ("docs", Value.array (items docs))
            ∷ ("count", number (int (pos (length docs))))
            ∷ ("truncated", Value.bool more)
            ∷ [])));
    docs_returned = length docs;
    docs_affected = 0;
    truncated = more;
  }

  -- Reading a cursor that yields these documents and ends hands out the first `max_docs` of them as
  -- JSON, in order, counts them, and says truncated exactly where there were more.
  pub drain_cursor-Yields :
      (cursor : mongo.Cursor) (max_docs : ℕ) (w : W) (docs : List (Document t))
      → Yields cursor w docs
      → (out : MongoOutcome) × ((drain_cursor t mongo codecs codec cursor max_docs w).0 ≡ ok out)
        × (out
            ≡ reply_of (map (document_to_json t) (take max_docs docs)) (ltb max_docs (length docs)))
        × (out.docs_returned ≡ min max_docs (length docs))
  unfolding drain_cursor
  drain_cursor-Yields cursor max_docs w docs yields =
      let taken = drain_loop-Yields max_docs cursor w docs [] yields in
      (
        _,
        then_pure_of_ok (drain_loop t mongo codecs codec max_docs cursor [])
            (drained t mongo codecs codec) w taken,
        refl,
        length-map (document_to_json t) (take max_docs docs) ∙ length-take max_docs docs,
      )

  drain_loop-bound :
      (room : ℕ) (cursor : mongo.Cursor) (taken : List Value)
      → ReturnsIn
          (λ r. length r.0 ≤ length taken + room)
          (drain_loop t mongo codecs codec room cursor taken)
  unfolding drain_loop
  drain_loop-bound zero cursor taken =
      then-ReturnsIn _ (mapping (from_mongo t mongo codecs codec) (mongo.advance cursor))
        (λ more. pure (taken, more))
        λ more w r h. let same = ap (λ x. length x.0) (ok-inj h) in omega (arith, same)
  drain_loop-bound (suc room) cursor taken =
      then-ReturnsIn _ (mapping (from_mongo t mongo codecs codec) (mongo.advance cursor)) _ λ more.
        if-ReturnsIn _ more _ (pure (taken, false))
          (then-ReturnsIn _
            (mapping (from_mongo t mongo codecs codec) (mongo.deserialize_current cursor))
            (λ doc.
              drain_loop t mongo codecs codec room cursor (taken ++ document_to_json t doc ∷ []))
            λ doc w r h.
              let longer = length-append taken (document_to_json t doc ∷ []) in
              let rest =
                drain_loop-bound room cursor (taken ++ document_to_json t doc ∷ []) w r h in
              omega (arith, rest, longer))
          λ w r h. let same = ap (λ x. length x.0) (ok-inj h) in omega (arith, same)

  -- Reading a cursor hands out at most `max_docs` documents, whatever it yields and however it ends.
  pub drain_cursor-bound :
      (cursor : mongo.Cursor) (max_docs : ℕ)
      → ReturnsIn
          (λ out. out.docs_returned ≤ max_docs)
          (drain_cursor t mongo codecs codec cursor max_docs)
  unfolding drain_cursor
  drain_cursor-bound cursor max_docs =
      bind-ReturnsIn (λ r. length r.0 ≤ max_docs) _
        (drain_loop t mongo codecs codec max_docs cursor [])
        (λ taken. pure (drained t mongo codecs codec taken))
        (λ w r h. omega (arith, drain_loop-bound max_docs cursor [] w r h))
        λ taken small w out h.
          let same = ap MongoOutcome.docs_returned (ok-inj h) in omega (arith, small, same)
