-- ===== src/Kv/Get.antt =====
-- kv.rs: the reply and the metric of `redis.get`.
use Prim.Native.String.{len}
use fabricd.Base.{
  ℕ, String, ◌≡◌, refl, ap, Bool, true, false, Option, none, some, [], ◌∷◌, ◌++◌, ok,
}
use fabricd.Json.{Value, members, Codec}
use fabricd.Wire.{RedisMetric, Collectors, IsLog}
use fabricd.Kv.Driver.{Decoders, Redis, KeyPayload}
use fabricd.Kv.{
  RedisBackend, lock_conn, encode, nullable, do_get, dispatch_redis, value_stats,
  call_redis_backend, build_redis_metric,
}

abbrev pub is_some : Option String → Bool
is_some none = false
is_some (some text) = true

abbrev pub size : Option String → ℕ
size none = 0
size (some text) = len text

module _ {W : Type 0} (redis : Redis W) (codec : Codec) (decode : Decoders) (log : Collectors) where
  stats_of_get :
      (value : Option String) (s : String)
      → codec.from_str s
        ≡ ok (Value.object (members (("value", nullable redis codec decode log value) ∷ [])))
      → value_stats redis codec decode log "get" s ≡ (size value, is_some value)
  unfolding value_stats
  stats_of_get none s h = rw h refl
  stats_of_get (some text) s h = rw h refl

  -- A `get` whose key decodes, on a lock that is not poisoned and with a server that answers, whose
  -- reply the codec prints and reads back, replies with that JSON, which is `{"value": v}` for the
  -- server's answer `v`, and records a metric whose hit says whether there is a value and whose
  -- bytes are those of the value. The server is asked once, with the key of the payload.
  pub get_hit :
      IsLog log
      → (b : RedisBackend redis codec decode log) (w w' : W) (payload json : String)
        (p : KeyPayload) (value : Option String)
      → decode.key payload ≡ ok p
      → b.conn.poisoned ≡ false
      → redis.get b.conn.value p.key w ≡ (ok value, w')
      → codec.to_string
          (Value.object (members (("value", nullable redis codec decode log value) ∷ [])))
        ≡ ok json
      → codec.from_str json
        ≡ ok (Value.object (members (("value", nullable redis codec decode log value) ∷ [])))
      → let (result, after, end) = call_redis_backend redis codec decode log "get" payload b w in
        (result ≡ ok json)
        × ((m : RedisMetric) × (log.drain RedisMetric after.metrics
              ≡ log.drain RedisMetric b.metrics ++ m ∷ [])
            × (m.hit ≡ is_some value)
            × (m.bytes ≡ size value))
        × (end ≡ w')
  unfolding call_redis_backend build_redis_metric dispatch_redis do_get lock_conn encode value_stats
  get_hit is_log b w w' payload json p value decoded clean answered printed parsed =
      let stats = stats_of_get value json parsed in
      rw decoded (
        rw clean (
          rw answered (
            rw printed (
              refl,
              (
                _,
                is_log.drain_push RedisMetric b.metrics _,
                ap (λ x. x.1) stats,
                ap (λ x. x.0) stats,
              ),
              refl,
            ))))
