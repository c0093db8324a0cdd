-- ===== src/Daemon/Recorded.antt =====
-- main.rs and backendset.rs: the metrics that the clients of a running daemon with the six drivers
-- of this repository are sent.
use fabricd.Base.{ℕ, String, ◌≡◌, Option, none, List, Result, Eff, Each}
use fabricd.Wire.{Toolkit, Collectors, IsLog, Breakers}
use fabricd.Json.{Value, Codec}
use fabricd.Db.{Postgres}
use fabricd.Db.Rows.{SqlTypes}
use fabricd.Db.Params.{Encoders, ParamsDecoder, SqlValue}
use fabricd.Mongo.Bson.{BsonTypes}
use fabricd.Mongo.Driver.{Mongodb, MongoCodecs}
use fabricd.Mail.Smtp.{Lettre, SendPayload}
use fabricd.Kv.Driver.{Redis}
use fabricd.Kv.Driver
use fabricd.Amq.Clients.{Rabbit, Nats}
use fabricd.Amq
use fabricd.Oidc.Client.{Reqwest}
use fabricd.Db.Calls.{Statements}
use mathlib.Core.Path.{subst}
use fabricd.Base.{sym, OnSome}
use fabricd.SaToken.Keys.{Jwt}
use fabricd.SaToken.Refresh.{Http}
use fabricd.ClientAuth.{Authenticator}
use fabricd.BackendSet.Payloads
use fabricd.Session.{Process}
use fabricd.Session.Drains.{IsKept}
use fabricd.BackendSet.Drivers.{DriverSet}
use fabricd.Daemon.Drivers.{drivers, drivers-AllMetered}
use fabricd.Daemon.Run.{Running, Event, Steps}
use fabricd.Daemon.Run.Drains.{IsAccountedStream, Steps-IsAccounted}

-- The libraries that the drivers call, and the decoders that serde derives.
module _ {W : Type 0} (log : Collectors) (codec : Codec) (lower : String → String)
    (breakers : Breakers W) (pg : Postgres W) (sql : SqlTypes) (enc : Encoders)
    (params : ParamsDecoder) (stm : Statements W pg.Client pg.Error sql.Row (SqlValue enc codec))
    (bson : BsonTypes) (mongo : Mongodb W bson) (documents : MongoCodecs bson) (smtp : Lettre W)
    (envelope : String → Result String SendPayload) (redis : Redis W) (keys : Driver.Decoders)
    (rabbit : Rabbit W) (nats : Nats W) (display : Value → String)
    (runtime : Eff W String (Unit {0})) (batches : Amq.Decoders) (http : Reqwest W)
    (is_log : IsLog log) (t : Toolkit) (upper : String → String) where
  abbrev six : DriverSet W breakers.Breaker
  six =
      drivers log codec lower breakers pg sql enc params stm bson mongo documents smtp envelope
        redis keys rabbit nats display runtime batches http

  -- In a daemon with the six drivers of this repository, that has no stream yet, on every stream of
  -- every run each answer to a `Drain` extends the answer to the one before it, in every capability,
  -- and the set of an open session has all that was sent last, however the sessions interleave and
  -- whether calls fail or not. Where a backend's task panics this needs that the panic takes nothing
  -- away of what was recorded.
  pub drivers-IsAccounted :
      (decode : Payloads.Decoders) (jwt : Jwt) (p : Process t upper six)
      (kept : IsKept t upper six p) (keys_from : Http W jwt.Jwk) (a : Authenticator)
      (issuer : String) (jwks_url : Option String)
      (s e : Running t upper six decode jwt p keys_from)
      (events : List (Event t upper six decode jwt p keys_from))
      → ((i : ℕ) → s.streams i ≡ none)
      → Steps t upper six decode jwt p keys_from a issuer jwks_url s events e
      → Each
          (IsAccountedStream t upper six
            (drivers-AllMetered log codec lower breakers pg sql enc params stm bson mongo documents
              smtp envelope redis keys rabbit nats display runtime batches http is_log)
            decode
            jwt
            p
            kept
            keys_from
            a
            issuer
            jwks_url)
          e.streams
  drivers-IsAccounted decode jwt p kept keys_from a issuer jwks_url s e events empty steps =
      let metered =
        drivers-AllMetered log codec lower breakers pg sql enc params stm bson mongo documents smtp
          envelope redis keys rabbit nats display runtime batches http is_log in
      Steps-IsAccounted t upper six metered decode jwt p kept keys_from a issuer jwks_url events
        steps
        (λ i.
          subst
            (OnSome
              (IsAccountedStream t upper six metered decode jwt p kept keys_from a issuer jwks_url))
            (sym (empty i)) tt)
