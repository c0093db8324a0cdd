-- ===== src/Kv/Laws.antt =====
-- kv.rs: how a `redis` call and connecting fail, and what a call records.
use fabricd.Base.{
  FailsIn, ErrsIn, bind-FailsIn, map_err-ErrsIn, mapping-FailsIn, map_err-within, Mutex, arith, sym,
  ◌==◌, String, ◌≡◌, refl, ap, inl, inr, true, Bool-cases, [], ◌∷◌, ◌++◌, Result, err, Eff, lift,
  mapping, err-inj, ◌>>=◌,
}
use fabricd.Json.{Value, Codec}
use fabricd.Wire.{operator, Fault, EgressError, RedisMetric, Collectors, IsLog}
use fabricd.Resources.Configs.{RedisConfig}
use fabricd.Capability.Laws.{IsMetered}
use fabricd.Kv.Driver.{
  RedisError, fault_of, Decoders, Redis, BoxError, driver, classify, from_driver, parse,
  is_connect_error,
}
use fabricd.Kv.{
  RedisBackend, connect, connect_error, connect_resource, lock_conn, encode, do_get, do_set,
  do_delete, do_increment, do_expire, dispatch_redis, call_redis_backend, redis_capability,
  build_redis_metric,
}
use fabricd.Kv.Failures.{IsRedisFault}

-- The fault of an error, as a predicate on errors.
abbrev pub HasRedisFault : RedisError → Type 0
HasRedisFault e = IsRedisFault e.fault

known : (f : Fault) → IsRedisFault f → (code : String) × (f ≡ fault_of code)
known f (inl is) = (_, is)
known f (inr (inl is)) = (_, is)
known f (inr (inr is)) = (_, is)

module _ {W : Type 0} (redis : Redis W) (codec : Codec) (decode : Decoders) (log : Collectors) where
  from_driver-HasRedisFault : (e : redis.Error) → HasRedisFault (from_driver redis e)
  unfolding from_driver classify
  from_driver-HasRedisFault e = elim (Bool-cases (redis.is_timeout e)) [
    | inl late ↦ rw late (inr (inl refl))
    | inr early ↦ rw early (elim (Bool-cases (redis.is_io_error e)) [
      | inl io ↦ rw io (inr (inr refl))
      | inr other ↦ rw other (inl refl)
    ])
  ]

  parse-HasRedisFault :
      {P : Type 0} (decoder : String → Result String P) (payload : String)
      → ErrsIn HasRedisFault (parse decoder payload)
  parse-HasRedisFault decoder payload =
      map_err-ErrsIn HasRedisFault _ (decoder payload) λ x. inl refl

  lock_conn-HasRedisFault :
      (conn : Mutex redis.Connection) → ErrsIn HasRedisFault (lock_conn redis codec decode log conn)
  unfolding lock_conn
  lock_conn-HasRedisFault conn e h = elim (Bool-cases conn.poisoned) [
    | inl bad ↦ inl (grind arith)
    | inr good ↦ absurd (grind arith)
  ]

  encode-HasRedisFault : (v : Value) → ErrsIn HasRedisFault (encode redis codec decode log v)
  unfolding encode
  encode-HasRedisFault v = map_err-ErrsIn HasRedisFault _ (codec.to_string v) λ x. inl refl

  -- An operation: decode the payload, take the lock, run one command, encode its answer.
  operation-FailsIn :
      {P A : Type 0} (decoder : String → Result String P) (conn : Mutex redis.Connection)
      (payload : String) (command : redis.Connection → P → Eff W redis.Error A) (answer : A → Value)
      → FailsIn HasRedisFault (
          lift (parse decoder payload) >>= λ p.
          lift (lock_conn redis codec decode log conn) >>= λ guard.
          mapping (from_driver redis) (command guard p) >>= λ a.
          lift (encode redis codec decode log (answer a)))
  operation-FailsIn decoder conn payload command answer =
      bind-FailsIn HasRedisFault _ _ (λ w. parse-HasRedisFault decoder payload)
        λ p.
          bind-FailsIn HasRedisFault _ _ (λ w. lock_conn-HasRedisFault conn)
            λ guard.
              bind-FailsIn HasRedisFault _ _
                (mapping-FailsIn HasRedisFault (from_driver redis) (command guard p)
                  from_driver-HasRedisFault)
                λ a w. encode-HasRedisFault (answer a)

  module _ (conn : Mutex redis.Connection) (payload : String) where
    do_get-FailsIn : FailsIn HasRedisFault (do_get redis codec decode log conn payload)
    unfolding do_get
    do_get-FailsIn = operation-FailsIn decode.key conn payload _ _

    do_set-FailsIn : FailsIn HasRedisFault (do_set redis codec decode log conn payload)
    unfolding do_set
    do_set-FailsIn = operation-FailsIn decode.set conn payload _ _

    do_delete-FailsIn : FailsIn HasRedisFault (do_delete redis codec decode log conn payload)
    unfolding do_delete
    do_delete-FailsIn = operation-FailsIn decode.key conn payload _ _

    do_increment-FailsIn : FailsIn HasRedisFault (do_increment redis codec decode log conn payload)
    unfolding do_increment
    do_increment-FailsIn = operation-FailsIn decode.key conn payload _ _

    do_expire-FailsIn : FailsIn HasRedisFault (do_expire redis codec decode log conn payload)
    unfolding do_expire
    do_expire-FailsIn = operation-FailsIn decode.expire conn payload _ _

    dispatch_redis-FailsIn :
        (action : String)
        → FailsIn HasRedisFault (dispatch_redis redis codec decode log conn action payload)
    unfolding dispatch_redis
    dispatch_redis-FailsIn action w e = elim (Bool-cases (action == "get")) [
      | inl is ↦ rw is (do_get-FailsIn w e)
      | inr not_get ↦ rw not_get (elim (Bool-cases (action == "set")) [
        | inl is ↦ rw is (do_set-FailsIn w e)
        | inr not_set ↦ rw not_set (elim (Bool-cases (action == "delete")) [
          | inl is ↦ rw is (do_delete-FailsIn w e)
          | inr not_delete ↦ rw not_delete (elim (Bool-cases (action == "increment")) [
            | inl is ↦ rw is (do_increment-FailsIn w e)
            | inr not_increment ↦ rw not_increment (elim (Bool-cases (action == "expire")) [
              | inl is ↦ rw is (do_expire-FailsIn w e)
              | inr not_expire ↦ rw not_expire (λ h. inl (ap RedisError.fault (sym (err-inj h))))
            ])
          ])
        ])
      ])
    ]

  -- Every error of a `redis` call, a malformed payload and an unknown action included, has one of
  -- the three faults of kv.rs: all of them retryable and the operator's.
  pub call_redis_backend-HasRedisFault :
      (action payload : String) (b : RedisBackend redis codec decode log) (w : W) (e : RedisError)
      → (call_redis_backend redis codec decode log action payload b w).0 ≡ err e
      → HasRedisFault e × (e.fault.retryable ≡ true) × (e.fault.owner ≡ operator)
  unfolding call_redis_backend
  call_redis_backend-HasRedisFault action payload b w e h =
      let fault = dispatch_redis-FailsIn b.conn payload action w e h in
      (fault, ap Fault.retryable (known e.fault fault).1, ap Fault.owner (known e.fault fault).1)

  -- A `redis` call records one metric, of its own action, whether it succeeds or fails, and keeps
  -- the connection.
  pub call_redis_backend-records :
      IsLog log
      → (action payload : String) (b : RedisBackend redis codec decode log) (w : W)
      → let after = (call_redis_backend redis codec decode log action payload b w).1 in
        ((m : RedisMetric) × (log.drain RedisMetric after.metrics
            ≡ log.drain RedisMetric b.metrics ++ m ∷ [])
          × (m.action ≡ action))
        × (after.conn ≡ b.conn)
  unfolding call_redis_backend build_redis_metric
  call_redis_backend-records is_log action payload b w =
      ((_, is_log.drain_push RedisMetric b.metrics _, refl), refl)

  -- The driver that the daemon wires for `redis` fills the interface that the laws of slots need.
  pub redis_capability-IsMetered : IsLog log → IsMetered (redis_capability redis codec decode log)
  redis_capability-IsMetered is_log = record {
    call_keeps = λ action payload b w.
        let ((m, drained, same), conn) = call_redis_backend-records is_log action payload b w in
        (m ∷ [], drained);
  }

  connect-driver :
      (config : RedisConfig)
      → FailsIn (λ e. is_connect_error redis e ≡ true) (connect redis codec decode log config)
  unfolding connect is_connect_error
  connect-driver config =
      bind-FailsIn _ _ _ (λ w. map_err-ErrsIn _ driver (redis.client_open config.url) λ x. refl)
        λ client.
          bind-FailsIn _ _ _ (mapping-FailsIn _ driver (redis.get_connection client) λ x. refl)
            λ conn.
              bind-FailsIn _ _ _
                (mapping-FailsIn _ driver (redis.set_read_timeout conn config.timeout_ms) λ x. refl)
                λ done.
                  bind-FailsIn _ _ _
                    (mapping-FailsIn _ driver (redis.set_write_timeout conn config.timeout_ms)
                      λ x. refl)
                    λ also w e h. cc

  abbrev IsConnectionError : EgressError → Type 0
  IsConnectionError e =
      (e.code ≡ "REDIS_CONNECTION")
      × (e.retryable ≡ true)
      × (e.owner ≡ operator)
      × (e.source ≡ "redis")

  connect_error-IsConnectionError :
      (x : BoxError redis.Error)
      → is_connect_error redis x ≡ true
      → IsConnectionError (connect_error redis codec decode log x)
  unfolding connect_error
  connect_error-IsConnectionError x boxed = rw boxed (refl, refl, refl, refl)

  -- Whatever makes connecting fail, a malformed URL included, the session sees the retryable
  -- REDIS_CONNECTION of the operator, never the fallback REDIS_ERROR.
  pub connect_resource-is_connection :
      (config : RedisConfig) (w : W) (e : EgressError)
      → (connect_resource redis codec decode log config w).0 ≡ err e
      → (e.code ≡ "REDIS_CONNECTION")
        × (e.retryable ≡ true)
        × (e.owner ≡ operator)
        × (e.source ≡ "redis")
  unfolding connect_resource
  connect_resource-is_connection config =
      bind-FailsIn IsConnectionError _ _
        (λ w.
          map_err-within _ IsConnectionError _ (connect redis codec decode log config w).0
            (connect-driver config w) connect_error-IsConnectionError)
        λ conn w e h. cc
