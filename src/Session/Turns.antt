-- ===== src/Session/Turns.antt =====
-- crates/fabricd/src/main.rs: `serve` one frame at a time, which is how the sessions of one daemon
-- interleave: a turn reads a frame, answers it and writes the answer. A call of a driver is one step
-- of the world.
pub mod Opened
pub mod Ordered
pub mod Drained
use fabricd.Base.{
  ℕ, String, ◌≡◌, refl, ap, ◌∙◌, inl, inr, Bool, true, false, Bool-cases, Option, none, some, List,
  [], ◌∷◌, ◌++◌, length, if◌then◌else◌, Result, ok, err,
}
use fabricd.Wire.{
  Toolkit, WireInit, WireRequest, init, call, drain, WireResponse, ack, init_error, protocol_error,
}
use fabricd.Resources.Table.{ResolvedConfigs, ResolveError, error_code, error_message, resolve}
use fabricd.Resources.Clamp.{clamp_db_statement_timeout}
use fabricd.SaToken.Keys.{Jwt, Cache}
use fabricd.ClientAuth.{Authenticator, AuthReject, authenticate}
use fabricd.BackendSet.Payloads.{Decoders}
use fabricd.BackendSet.Drivers.{DriverSet}
use fabricd.BackendSet
use fabricd.Session.{
  Shared, Frame, request, broken, Closed, Process, Set, record_auth_failure, respond, serve_calls,
  deps_of, open_resolved, open_authenticated, serve,
}

module _ {W Breaker : Type 0} (t : Toolkit) (upper : String → String) (d : DriverSet W Breaker)
    (decode : Decoders) (jwt : Jwt) (p : Process t upper d) where
  -- Where a session stands: before its first frame, in the loop with the `Init` that opened it, or
  -- returned; with the frames that it has written.
  pub data Task : Type 0 where
    opening : Task
    serving : WireInit → Set t upper d decode jwt p → List WireResponse → Task
    ended : Result String (Unit {0}) → List WireResponse → Task

  abbrev pub written : Task → List WireResponse
  written opening = []
  written (serving i set sent) = sent
  written (ended result sent) = sent

  pub record Turn : Type 0 where
    pub task : Task
    pub auth_failures : ℕ
    pub world : W

  -- `write_frame`, where the peer takes the frame or does not.
  abbrev pub write : Bool → WireResponse → List WireResponse → (List WireResponse → Task) → Task
  write true frame sent continue = continue (sent ++ frame ∷ [])
  write false frame sent continue = ended (err p.write_error) sent

  unfoldable pub resolved_turn :
      Shared Breaker → WireInit → Bool → Result ResolveError ResolvedConfigs → W → Turn
  resolved_turn shared i taken (err e) w = record {
    task = write taken (init_error (error_code e) (error_message e)) [] (ended (ok tt));
    auth_failures = shared.auth_failures;
    world = w;
  }
  resolved_turn shared i taken (ok resolved) w =
      let capped = clamp_db_statement_timeout shared.max_statement_timeout_ms resolved in
      let set =
        BackendSet.from_configs t upper d capped (deps_of t upper d decode jwt p shared i) in
      record {
        task = write taken ack [] (serving i set);
        auth_failures = shared.auth_failures;
        world = w;
      }

  unfoldable pub authenticated_turn :
      Shared Breaker → WireInit → Bool → Result AuthReject (Unit {0}) → W → Turn
  unfolding resolved_turn record_auth_failure
  authenticated_turn shared i taken (err rejected) w = record {
    task = write taken (init_error rejected.code rejected.message) [] (ended (ok tt));
    auth_failures = (record_auth_failure shared.auth_failures).0;
    world = w;
  }
  authenticated_turn shared i taken (ok _) w =
      resolved_turn shared i taken (resolve shared.table i) w

  unfoldable pub answer_turn :
      Shared Breaker
      → WireInit
      → Set t upper d decode jwt p
      → List WireResponse
      → Bool
      → WireRequest
      → W
      → Turn
  answer_turn shared i set sent taken q w =
      let (response, set', w') = respond t upper d decode jwt p q set w in
      record {
        task = write taken response sent (serving i set');
        auth_failures = shared.auth_failures;
        world = w';
      }

  -- From one frame to the next; without a frame the stream has ended.
  unfoldable pub turn :
      Shared Breaker → Authenticator → Cache jwt.Key → ℕ → Bool → Option Frame → Task → W → Turn
  unfolding authenticated_turn answer_turn
  turn shared a cache now taken none opening w = record {
    task = ended (ok tt) [];
    auth_failures = shared.auth_failures;
    world = w;
  }
  turn shared a cache now taken (some (broken e)) opening w = record {
    task = ended (err e) [];
    auth_failures = shared.auth_failures;
    world = w;
  }
  turn shared a cache now taken (some (request (init i))) opening w =
      authenticated_turn shared i taken (authenticate t jwt cache now a i.token) w
  turn shared a cache now taken (some (request other)) opening w = record {
    task = write taken (protocol_error "expected Init as the first frame") [] (ended (ok tt));
    auth_failures = shared.auth_failures;
    world = w;
  }
  turn shared a cache now taken none (serving i set sent) w = record {
    task = ended (ok tt) sent;
    auth_failures = shared.auth_failures;
    world = w;
  }
  turn shared a cache now taken (some (broken e)) (serving i set sent) w = record {
    task = ended (err e) sent;
    auth_failures = shared.auth_failures;
    world = w;
  }
  turn shared a cache now taken (some (request q)) (serving i set sent) w =
      answer_turn shared i set sent taken q w
  turn shared a cache now taken frame (ended result sent) w = record {
    task = ended result sent;
    auth_failures = shared.auth_failures;
    world = w;
  }
