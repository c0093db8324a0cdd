-- ===== src/Session.antt =====
-- crates/fabricd/src/main.rs: the daemon's shared state and `serve`, one session over one stream.
pub mod Isolation
pub mod Replies
pub mod Rejection
pub mod Drains
pub mod Turns
use fabricd.Base.{
  ℕ, suc, ◌+◌, ◌^◌, ◌-◌, ◌%◌, min, String, Bool, true, false, Option, none, some, List, [], ◌∷◌,
  ◌++◌, length, format, if◌then◌else◌, Result, ok, err,
}
use fabricd.Wire.{
  EgressError, Toolkit, WireInit, WireCall, WireRequest, init, call, drain, WireResponse, ack,
  init_error, reply, metrics, protocol_error,
}
use fabricd.Resources.Table.{
  Table, ResolvedConfigs, ResolveError, error_code, error_message, resolve,
}
use fabricd.Resources.Clamp.{clamp_db_statement_timeout}
use fabricd.SaToken.Keys.{Jwt, Cache}
use fabricd.ClientAuth.{Authenticator, AuthReject, authenticate}
use fabricd.BackendSet.Payloads.{Decoders}
use fabricd.BackendSet.Drivers.{AsyncDeps, DriverSet}
use fabricd.BackendSet

pub record Shared (Breaker : Type 0) : Type 0 where
  pub table : Table
  pub max_statement_timeout_ms : ℕ
  pub breaker : Option Breaker
  pub auth_failures : ℕ

abbrev pub u64_mod : ℕ
u64_mod = 2 ^ 64

-- `Shared::record_auth_failure`: `fetch_add` wraps, the returned total saturates.
unfoldable pub record_auth_failure : ℕ → ℕ × ℕ
record_auth_failure failures = ((failures + 1) % u64_mod, min (failures + 1) (u64_mod - 1))

-- What `read_frame` gives: a request, or a broken stream; the end of the list is the clean end.
pub data Frame : Type 0 where
  request : WireRequest → Frame
  broken : String → Frame

-- What a session leaves: how `serve` returned, the frames that it wrote, the counter, the world.
pub record Closed (W : Type 0) : Type 0 where
  pub result : Result String (Unit {0})
  pub sent : List WireResponse
  pub auth_failures : ℕ
  pub world : W

module _ {W Breaker : Type 0} (t : Toolkit) (upper : String → String)
    (d : DriverSet W Breaker) where
  -- The process around a session: whether the peer still takes the n-th frame and the error where it
  -- does not, what a panic in a backend's task reports, and what such a task leaves inside the
  -- backends and of the world.
  pub record Process : Type 0 where
    pub takes : ℕ → Bool
    pub write_error : String
    pub panics : WireCall → BackendSet.BackendSet t upper d → W → Option String
    pub remains : WireCall → BackendSet.BackendSet t upper d → W → BackendSet.Remains t upper d
    pub abandoned : WireCall → BackendSet.BackendSet t upper d → W → W

module _ {W Breaker : Type 0} (t : Toolkit) (upper : String → String) (d : DriverSet W Breaker)
    (decode : Decoders) (jwt : Jwt) (p : Process t upper d) where
  abbrev pub Set : Type 0
  Set = BackendSet.BackendSet t upper d

  closed : Result String (Unit {0}) → List WireResponse → ℕ → W → Closed W
  closed result sent failures w = record {
    result = result;
    sent = sent;
    auth_failures = failures;
    world = w;
  }

  -- `write_frame`, and what follows where the peer took the frame.
  write_frame : WireResponse → List WireResponse → ℕ → W → (List WireResponse → Closed W) → Closed W
  unfolding closed
  write_frame frame sent failures w continue =
      if p.takes (length sent)
      then continue (sent ++ frame ∷ [])
      else closed (err p.write_error) sent failures w

  finish_call : Result EgressError String × Set × W → WireResponse × Set × W
  finish_call (r, set, w) = (reply r, set, w)

  dispatch_joined : Option String → WireCall → Set → W → WireResponse × Set × W
  unfolding finish_call
  dispatch_joined (some e) c set w = (
    protocol_error (format ("backend task failed: " ∷ e ∷ [])),
    BackendSet.abandoned_set t upper d c.name set (p.remains c set w),
    p.abandoned c set w,
  )
  dispatch_joined none c set w =
      finish_call (BackendSet.call t upper d decode c.name c.action c.payload set w)

  -- `dispatch`: the call on a blocking thread; a panic there becomes a protocol error.
  unfoldable pub dispatch : WireCall → Set → W → WireResponse × Set × W
  unfolding dispatch_joined
  dispatch c set w = dispatch_joined (p.panics c set w) c set w

  unfoldable pub respond : WireRequest → Set → W → WireResponse × Set × W
  unfolding dispatch
  respond (call c) set w = dispatch c set w
  respond drain set w = (metrics (BackendSet.metrics t upper d set), set, w)
  respond (init again) set w = (protocol_error "Init already received for this session", set, w)

  -- The loop of `serve` after the `Ack`.
  unfoldable pub serve_calls : List Frame → List WireResponse → ℕ → Set → W → Closed W
  unfolding respond write_frame closed
  serve_calls [] sent failures set w = closed (ok tt) sent failures w
  serve_calls (broken e ∷ frames) sent failures set w = closed (err e) sent failures w
  serve_calls (request r ∷ frames) sent failures set w =
      let (response, set', w') = respond r set w in
      let rest = serve_calls frames (sent ++ response ∷ []) failures set' w' in
      if p.takes (length sent) then rest else closed (err p.write_error) sent failures w'

  abbrev pub deps_of : Shared Breaker → WireInit → AsyncDeps Breaker
  deps_of shared i = record { breaker = shared.breaker; timeout_ms = i.timeout_ms }

  unfoldable pub open_resolved :
      Shared Breaker → WireInit → List Frame → Result ResolveError ResolvedConfigs → W → Closed W
  unfolding serve_calls write_frame closed
  open_resolved shared i frames (err e) w =
      write_frame (init_error (error_code e) (error_message e)) [] shared.auth_failures w
        λ sent. closed (ok tt) sent shared.auth_failures w
  open_resolved shared i frames (ok resolved) w =
      let capped = clamp_db_statement_timeout shared.max_statement_timeout_ms resolved in
      let set = BackendSet.from_configs t upper d capped (deps_of shared i) in
      write_frame ack [] shared.auth_failures w
        λ sent. serve_calls frames sent shared.auth_failures set w

  unfoldable pub open_authenticated :
      Shared Breaker → WireInit → List Frame → Result AuthReject (Unit {0}) → W → Closed W
  unfolding open_resolved write_frame closed record_auth_failure
  open_authenticated shared i frames (err rejected) w =
      let failures = (record_auth_failure shared.auth_failures).0 in
      write_frame (init_error rejected.code rejected.message) [] failures w
        λ sent. closed (ok tt) sent failures w
  open_authenticated shared i frames (ok _) w =
      open_resolved shared i frames (resolve shared.table i) w

  -- `serve`, with the authenticator at the key cache and time of the session's opening.
  unfoldable pub serve :
      Shared Breaker → Authenticator → Cache jwt.Key → ℕ → List Frame → W → Closed W
  unfolding open_authenticated write_frame closed
  serve shared a cache now [] w = closed (ok tt) [] shared.auth_failures w
  serve shared a cache now (broken e ∷ frames) w = closed (err e) [] shared.auth_failures w
  serve shared a cache now (request (init i) ∷ frames) w =
      open_authenticated shared i frames (authenticate t jwt cache now a i.token) w
  serve shared a cache now (request other ∷ frames) w =
      write_frame (protocol_error "expected Init as the first frame") [] shared.auth_failures w
        λ sent. closed (ok tt) sent shared.auth_failures w
