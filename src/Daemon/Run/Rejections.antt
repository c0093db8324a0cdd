-- ===== src/Daemon/Run/Rejections.antt =====
-- main.rs: the counter of client-auth failures of a running daemon, which all its sessions share.
use fabricd.Base.{
  ℕ, ◌+◌, ◌%◌, ◌<◌, String, ◌≡◌, refl, ◌∙◌, Bool, Option, none, some, List, [], ◌∷◌, arith, Result,
  ok, err,
}
use fabricd.Wire.{Toolkit, WireInit, init, call, drain}
use fabricd.Resources.Table.{ResolvedConfigs, ResolveError, resolve}
use fabricd.SaToken.Keys.{Jwt, Cache}
use fabricd.SaToken.Refresh.{Http}
use fabricd.ClientAuth.{Authenticator, AuthReject, authenticate}
use fabricd.BackendSet.Payloads.{Decoders}
use fabricd.BackendSet.Drivers.{DriverSet}
use fabricd.Session.{Shared, Frame, request, broken, Process, u64_mod, record_auth_failure}
use fabricd.Session.Turns.{
  Task, opening, serving, ended, resolved_turn, authenticated_turn, answer_turn, turn,
}
use fabricd.Daemon.Run.{
  Running, Event, authenticator_of, Step, uds_accepted, took_turn, uds_failed, quic_accepted,
  quic_opened, quic_ended, quic_closed, round, scrape_failed, signalled, elsewhere, Steps, here,
  next,
}

module _ {W Breaker : Type 0} (t : Toolkit) (upper : String → String) (d : DriverSet W Breaker)
    (decode : Decoders) (jwt : Jwt) (p : Process t upper d) where
  abbrev one_if_rejected : Result AuthReject (Unit {0}) → ℕ
  one_if_rejected (ok _) = 0
  one_if_rejected (err e) = 1

  -- How many rejections a turn makes: one where it is the `Init` of a session whose token the
  -- authenticator rejects.
  abbrev pub rejections_of :
      Authenticator → Cache jwt.Key → ℕ → Option Frame → Task t upper d decode jwt p → ℕ
  rejections_of a cache now (some (request (init i))) opening =
      one_if_rejected (authenticate t jwt cache now a i.token)
  rejections_of a cache now frame task = 0

  module _ (shared : Shared Breaker) (in_range : shared.auth_failures < u64_mod) where
    same_count : shared.auth_failures ≡ (shared.auth_failures + 0) % u64_mod
    same_count = omega arith

    resolved-auth_failures :
        (i : WireInit) (taken : Bool) (r : Result ResolveError ResolvedConfigs) (w : W)
        → (resolved_turn t upper d decode jwt p shared i taken r w).auth_failures
          ≡ shared.auth_failures
    unfolding resolved_turn
    resolved-auth_failures i taken (err e) w = refl
    resolved-auth_failures i taken (ok c) w = refl

    authenticated-auth_failures :
        (i : WireInit) (taken : Bool) (r : Result AuthReject (Unit {0})) (w : W)
        → (authenticated_turn t upper d decode jwt p shared i taken r w).auth_failures
          ≡ (shared.auth_failures + one_if_rejected r) % u64_mod
    unfolding authenticated_turn record_auth_failure
    authenticated-auth_failures i taken (err e) w = refl
    authenticated-auth_failures i taken (ok _) w =
        resolved-auth_failures i taken (resolve shared.table i) w ∙ same_count

    turn-auth_failures :
        (a : Authenticator) (cache : Cache jwt.Key) (now : ℕ) (taken : Bool) (frame : Option Frame)
        (task : Task t upper d decode jwt p) (w : W)
        → (turn t upper d decode jwt p shared a cache now taken frame task w).auth_failures
          ≡ (shared.auth_failures + rejections_of a cache now frame task) % u64_mod
    unfolding turn answer_turn
    turn-auth_failures a cache now taken none opening w = same_count
    turn-auth_failures a cache now taken (some (broken e)) opening w = same_count
    turn-auth_failures a cache now taken (some (request (init i))) opening w =
        authenticated-auth_failures i taken (authenticate t jwt cache now a i.token) w
    turn-auth_failures a cache now taken (some (request (call c))) opening w = same_count
    turn-auth_failures a cache now taken (some (request drain)) opening w = same_count
    turn-auth_failures a cache now taken none (serving i set sent) w = same_count
    turn-auth_failures a cache now taken (some (broken e)) (serving i set sent) w = same_count
    turn-auth_failures a cache now taken (some (request (init j))) (serving i set sent) w =
        same_count
    turn-auth_failures a cache now taken (some (request (call c))) (serving i set sent) w =
        same_count
    turn-auth_failures a cache now taken (some (request drain)) (serving i set sent) w = same_count
    turn-auth_failures a cache now taken none (ended result sent) w = same_count
    turn-auth_failures a cache now taken (some (broken e)) (ended result sent) w = same_count
    turn-auth_failures a cache now taken (some (request (init j))) (ended result sent) w =
        same_count
    turn-auth_failures a cache now taken (some (request (call c))) (ended result sent) w =
        same_count
    turn-auth_failures a cache now taken (some (request drain)) (ended result sent) w = same_count

  module _ (http : Http W jwt.Jwk) (a : Authenticator) (issuer : String)
      (jwks_url : Option String) where
    abbrev pub rejections_in :
        {s e : Running t upper d decode jwt p http} {event : Event t upper d decode jwt p http}
        → Step t upper d decode jwt p http a issuer jwks_url s event e
        → ℕ
    rejections_in {s} (took_turn i stream there now taken frame) =
        rejections_of (authenticator_of a stream.listener) s.cache now frame stream.task
    rejections_in step = 0

    -- The sessions that a run rejects, over both listeners.
    abbrev pub rejections :
        {s e : Running t upper d decode jwt p http}
        {events : List (Event t upper d decode jwt p http)}
        → Steps t upper d decode jwt p http a issuer jwks_url s events e
        → ℕ
    rejections here = 0
    rejections (next step steps) = rejections_in step + rejections steps

    Step-auth_failures :
        {s e : Running t upper d decode jwt p http} {event : Event t upper d decode jwt p http}
        (step : Step t upper d decode jwt p http a issuer jwks_url s event e)
        → s.shared.auth_failures < u64_mod
        → e.shared.auth_failures ≡ (s.shared.auth_failures + rejections_in step) % u64_mod
    Step-auth_failures {s} (took_turn i stream there now taken frame) in_range =
        turn-auth_failures s.shared in_range (authenticator_of a stream.listener) s.cache now taken
          frame stream.task s.world
    Step-auth_failures {s} (uds_accepted on i new) in_range = same_count s.shared in_range
    Step-auth_failures {s} (uds_failed on) in_range = same_count s.shared in_range
    Step-auth_failures {s} (quic_accepted on free) in_range = same_count s.shared in_range
    Step-auth_failures {s} (quic_opened one_open i new) in_range = same_count s.shared in_range
    Step-auth_failures {s} (quic_ended one_open) in_range = same_count s.shared in_range
    Step-auth_failures {s} (quic_closed on) in_range = same_count s.shared in_range
    Step-auth_failures {s} round in_range = same_count s.shared in_range
    Step-auth_failures {s} (scrape_failed on) in_range = same_count s.shared in_range
    Step-auth_failures {s} (signalled on) in_range = same_count s.shared in_range
    Step-auth_failures {s} (elsewhere w) in_range = same_count s.shared in_range

    -- However the sessions interleave, the counter goes up by the number of the sessions that were
    -- rejected, modulo 2^64: no rejection is lost, and nothing else counts.
    pub Steps-auth_failures :
        {s e : Running t upper d decode jwt p http}
        (events : List (Event t upper d decode jwt p http))
        (steps : Steps t upper d decode jwt p http a issuer jwks_url s events e)
        → s.shared.auth_failures < u64_mod
        → e.shared.auth_failures ≡ (s.shared.auth_failures + rejections steps) % u64_mod
    Steps-auth_failures {s = s} {e = e} [] here in_range = same_count s.shared in_range
    Steps-auth_failures {s = s} {e = e} (event ∷ events) (next {m = m} step steps) in_range =
        let first = Step-auth_failures step in_range in
        let rest = Steps-auth_failures {s = m} {e = e} events steps (omega (arith, first)) in
        omega (arith, first, rest)
