-- ===== src/Amq/Bytes.antt =====
-- amq.rs: the bytes that publishing a batch counts.
use Prim.Native.String.{len}
use fabricd.Base.{
  bind-eq-ok, ReturnsIn, then-ReturnsIn, bind-ReturnsIn, ℕ, ◌+◌, ◌≤◌, min, String, ◌≡◌, sym, ◌∙◌,
  List, [], ◌∷◌, arith, ok, Eff, lift, pure, attempt, ok-inj, ◌>>=◌,
}
use fabricd.Resources.Configs.{AmqConfig}
use fabricd.Amq.Clients.{AmqError, AmqMessage, Rabbit, Nats}
use fabricd.Amq.Batch.{
  usize_limit, saturating_add, publish_each, adaptor, open_connection, channel_of, publish_on,
  publish_to, flush_of, nats_connect, publish_batch, nats_publish,
}

-- The bytes of all payloads of a batch.
abbrev pub total_len : List AmqMessage → ℕ
total_len [] = 0
total_len (message ∷ messages) = len message.payload + total_len messages

publish_each-bytes :
    {W : Type 0} (publish : String → String → Eff W AmqError (Unit {0})) (acc : ℕ)
    (messages : List AmqMessage) (w : W) (n : ℕ)
    → acc ≤ usize_limit
    → (publish_each publish acc messages w).0 ≡ ok n
    → n ≡ min (acc + total_len messages) usize_limit
unfolding publish_each
publish_each-bytes publish acc [] w n small h =
    let same : acc ≡ n = cc in omega (arith, same, small)
publish_each-bytes publish acc (message ∷ messages) w n small h =
    let (done, sent, rest) = bind-eq-ok (publish message.key message.payload) _ w h in
    let ih =
      publish_each-bytes publish (saturating_add acc (len message.payload)) messages _ n
        (omega arith) rest in
    omega (arith, ih)

module _ {W : Type 0} (rabbit : Rabbit W) (nats : Nats W) where
  abbrev IsTotal : List AmqMessage → ℕ → Type 0
  IsTotal messages n = n ≡ min (total_len messages) usize_limit

  publish_each-IsTotal :
      (publish : String → String → Eff W AmqError (Unit {0})) (messages : List AmqMessage)
      → ReturnsIn (IsTotal messages) (publish_each publish 0 messages)
  publish_each-IsTotal publish messages w n h =
      let counted = publish_each-bytes publish 0 messages w n (omega arith) h in
      omega (arith, counted)

  -- An operation that connects in three steps, publishes, and closes in two.
  batch_chain-IsTotal :
      {A B C D E : Type 0} (messages : List AmqMessage) (setup : Eff W AmqError A)
      (connect : A → Eff W AmqError B) (channel : B → Eff W AmqError C)
      (publish : C → String → String → Eff W AmqError (Unit {0}))
      (close_channel : C → Eff W AmqError D) (close : B → Eff W AmqError E)
      → ReturnsIn (IsTotal messages) (
          setup >>= λ a. connect a >>= λ b. channel b >>= λ c.
          publish_each (publish c) 0 messages >>= λ total.
          close_channel c >>= λ d. close b >>= λ e. pure total)
  batch_chain-IsTotal messages setup connect channel publish close_channel close =
      then-ReturnsIn (IsTotal messages) setup _ λ a.
        then-ReturnsIn (IsTotal messages) (connect a) _ λ b.
          then-ReturnsIn (IsTotal messages) (channel b) _ λ c.
            bind-ReturnsIn (IsTotal messages) (IsTotal messages)
              (publish_each (publish c) 0 messages) _ (publish_each-IsTotal (publish c) messages)
              λ total counted. then-ReturnsIn (IsTotal messages) (close_channel c) _ λ d.
                then-ReturnsIn (IsTotal messages) (close b) _ λ e w n h. sym (ok-inj h) ∙ counted

  pub publish_batch-IsTotal :
      (config : AmqConfig) (messages : List AmqMessage)
      → ReturnsIn (IsTotal messages) (publish_batch rabbit config messages)
  unfolding publish_batch
  publish_batch-IsTotal config messages =
      batch_chain-IsTotal messages (lift (adaptor rabbit config)) (open_connection rabbit config)
        (channel_of rabbit) (publish_on rabbit config) (λ c. attempt (rabbit.close_channel c))
        (λ b. attempt (rabbit.close b))

  flush_chain-IsTotal :
      {A B : Type 0} (messages : List AmqMessage) (connect : Eff W AmqError A)
      (publish : A → String → String → Eff W AmqError (Unit {0})) (flush : A → Eff W AmqError B)
      → ReturnsIn (IsTotal messages) (
          connect >>= λ a.
          publish_each (publish a) 0 messages >>= λ total. flush a >>= λ b. pure total)
  flush_chain-IsTotal messages connect publish flush =
      then-ReturnsIn (IsTotal messages) connect _ λ a.
        bind-ReturnsIn (IsTotal messages) (IsTotal messages) (publish_each (publish a) 0 messages) _
          (publish_each-IsTotal (publish a) messages)
          λ total counted.
            then-ReturnsIn (IsTotal messages) (flush a) _ λ b w n h. sym (ok-inj h) ∙ counted

  pub nats_publish-IsTotal :
      (config : AmqConfig) (messages : List AmqMessage)
      → ReturnsIn (IsTotal messages) (nats_publish nats config messages)
  unfolding nats_publish
  nats_publish-IsTotal config messages =
      flush_chain-IsTotal messages (nats_connect nats config) (publish_to nats) (flush_of nats)
