-- ===== src/Daemon/Run.antt =====
-- crates/fabricd/src/main.rs, `run_listeners` and the tasks that it spawns: what the running daemon
-- does, one event after the other. The sessions interleave frame by frame: each takes its turn at the
-- shared counter, the key cache and the world of that moment.
pub mod Streams
pub mod Limits
pub mod Drains
pub mod KeyCache
pub mod Operator
pub mod Opens
pub mod Shut
pub mod Grants
pub mod Rejections
pub mod Order
use fabricd.Base.{
  ℕ, suc, String, Bool, true, false, Option, none, some, List, ◌≡◌, HashMap, Result, [], ◌∷◌,
  put_at,
}
use fabricd.Wire.{Toolkit}
use fabricd.SaToken.Keys.{Jwt, Cache}
use fabricd.SaToken.Refresh.{Http, fetch_keys, swap_cache}
use fabricd.ClientAuth.{Authenticator, accept_all}
use fabricd.BackendSet.Payloads.{Decoders}
use fabricd.BackendSet.Drivers.{DriverSet}
use fabricd.Session.{Shared, Frame, Process}
use fabricd.Session.Turns.{Task, opening, Turn, turn}

pub data Listener : Type 0 where
  uds quic : Listener

-- The authenticator of a listener, where `a` is that of QUIC: on the socket every client is taken.
abbrev pub authenticator_of : Authenticator → Listener → Authenticator
authenticator_of a uds = accept_all
authenticator_of a quic = a

module _ {W Breaker : Type 0} (t : Toolkit) (upper : String → String) (d : DriverSet W Breaker)
    (decode : Decoders) (jwt : Jwt) (p : Process t upper d) (http : Http W jwt.Jwk) where
  -- A session, and the listener that its stream came in over.
  pub record Stream : Type 0 where
    pub listener : Listener
    pub task : Task t upper d decode jwt p

  -- `permits` are the free ones of the semaphore; each of the `connections` holds one. `scraping`
  -- says that the metrics listener accepts, `running` that `run_listeners` has not returned.
  pub record Running : Type 0 where
    pub shared : Shared Breaker
    pub cache : Cache jwt.Key
    pub world : W
    pub streams : ℕ → Option Stream
    pub permits : ℕ
    pub connections : ℕ
    pub scraping : Bool
    pub running : Bool

  -- What a round of the refresh fetched; all else is silent.
  pub data Event : Type 0 where
    silent : Event
    fetched : Result String (HashMap jwt.Key) → Event

  -- A session's turn in the state of the moment, at this time, with whether the peer takes the
  -- answer, and the frame, or none where the stream ends.
  abbrev pub turn_in :
      Running → Authenticator → ℕ → Bool → Option Frame → Stream → Turn t upper d decode jwt p
  turn_in s a now taken frame stream =
      turn t upper d decode jwt p s.shared (authenticator_of a stream.listener) s.cache now taken
        frame stream.task s.world

  abbrev pub after_turn : ℕ → Stream → Turn t upper d decode jwt p → Running → Running
  after_turn i stream r s = record s {
    shared = record s.shared { auth_failures = r.auth_failures };
    world = r.world;
    streams = put_at s.streams i (record stream { task = r.task });
  }

  -- A stream that nobody has read from.
  abbrev pub new_stream : Listener → Stream
  new_stream listener = record { listener = listener; task = opening }

  abbrev pub stopped : Running → Running
  stopped s = record s { running = false }

  abbrev pub refresh_round : String → Option String → Running → Result String (HashMap jwt.Key) × W
  refresh_round issuer jwks_url s = fetch_keys jwt http issuer jwks_url s.world

  abbrev pub after_round : Result String (HashMap jwt.Key) × W → Running → Running
  after_round (result, w) s = record s { cache = swap_cache jwt http s.cache result; world = w }

  module _ (a : Authenticator) (issuer : String) (jwks_url : Option String) where
    pub data Step (s : Running) : Event → Running → Type 0 where
      uds_accepted :
          s.running ≡ true
          → (i : ℕ) → s.streams i ≡ none
          → Step s silent (record s { streams = put_at s.streams i (new_stream uds) })
      took_turn :
          (i : ℕ) (stream : Stream)
          → s.streams i ≡ some stream
          → (now : ℕ) (taken : Bool) (frame : Option Frame)
          → Step s silent (after_turn i stream (turn_in s a now taken frame stream) s)
      uds_failed : s.running ≡ true → Step s silent (stopped s)
      -- A connection is admitted with a permit, which it gives back when it ends.
      quic_accepted :
          {n : ℕ}
          → s.running ≡ true
          → s.permits ≡ suc n
          → Step s silent (record s { permits = n; connections = suc s.connections })
      -- A stream of an open connection; its session outlives the connection's loop.
      quic_opened :
          {n : ℕ}
          → s.connections ≡ suc n
          → (i : ℕ) → s.streams i ≡ none
          → Step s silent (record s { streams = put_at s.streams i (new_stream quic) })
      quic_ended :
          {n : ℕ}
          → s.connections ≡ suc n
          → Step s silent (record s { permits = suc s.permits; connections = n })
      quic_closed : s.running ≡ true → Step s silent (stopped s)
      round :
          Step s
            (fetched (refresh_round issuer jwks_url s).0)
            (after_round (refresh_round issuer jwks_url s) s)
      -- An accept error parks the metrics listener.
      scrape_failed : s.scraping ≡ true → Step s silent (record s { scraping = false })
      signalled : s.running ≡ true → Step s silent (stopped s)
      -- What others do to the world, among them a scrape, which changes nothing else.
      elsewhere : (w : W) → Step s silent (record s { world = w })

    -- The events of a run, in order.
    pub data Steps : Running → List Event → Running → Type 0 where
      here : {s : Running} → Steps s [] s
      next :
          {s m e : Running} {event : Event} {events : List Event}
          → Step s event m
          → Steps m events e
          → Steps s (event ∷ events) e
