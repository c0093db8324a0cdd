-- ===== src/Session/Turns/Drained.antt =====
-- main.rs and backendset.rs: the metrics that a session has been sent, at each of its turns.
use mathlib.Core.Path.{subst}
use fabricd.Base.{
  ℕ, String, sym, Bool, true, false, Option, none, some, List, [], ◌∷◌, ◌++◌, Result, ok, err,
}
use fabricd.Wire.{
  Toolkit, WireInit, WireCall, WireRequest, init, call, drain, BackendMetrics, WireResponse, ack,
  init_error, reply, metrics, protocol_error,
}
use fabricd.Resources.Table.{ResolvedConfigs, ResolveError, resolve}
use fabricd.Resources.Clamp.{clamp_db_statement_timeout}
use fabricd.SaToken.Keys.{Jwt, Cache}
use fabricd.ClientAuth.{Authenticator, AuthReject, authenticate}
use fabricd.BackendSet.Payloads.{Decoders}
use fabricd.BackendSet.Drivers.{DriverSet}
use fabricd.BackendSet.Metrics.{Grows, AllMetered, call-Grows, from_configs-metrics}
use fabricd.BackendSet
use fabricd.Session.{
  Shared, Frame, request, broken, Process, Set, dispatch, dispatch_joined, respond, deps_of,
}
use fabricd.Session.Drains.{IsKept, Accumulates, no_metrics, Grows-refl, Grows-trans}
use fabricd.Session.Turns.{
  Task, opening, serving, ended, write, resolved_turn, authenticated_turn, answer_turn, turn,
}

-- The metrics that the frames sent last, or `m`.
abbrev pub latest : BackendMetrics → List WireResponse → BackendMetrics
latest m [] = m
latest m (metrics n ∷ rs) = latest n rs
latest m (ack ∷ rs) = latest m rs
latest m (init_error code message ∷ rs) = latest m rs
latest m (reply result ∷ rs) = latest m rs
latest m (protocol_error why ∷ rs) = latest m rs

-- The frames accumulate, and the set has all that they sent last.
abbrev pub Accounts : List WireResponse → BackendMetrics → Type 0
Accounts sent now = Accumulates no_metrics sent × Grows (latest no_metrics sent) now

-- A frame more, from any metrics on.
Accounts-snoc :
    (m : BackendMetrics) (sent : List WireResponse) (r : WireResponse) (now : BackendMetrics)
    → Accumulates m sent
    → Accumulates (latest m sent) (r ∷ [])
    → Grows (latest (latest m sent) (r ∷ [])) now
    → Accumulates m (sent ++ r ∷ []) × Grows (latest m (sent ++ r ∷ [])) now
Accounts-snoc m [] r now sum one grows = (one, grows)
Accounts-snoc m (metrics n ∷ rs) r now (first, sum) one grows =
    let (all, last) = Accounts-snoc n rs r now sum one grows in ((first, all), last)
Accounts-snoc m (ack ∷ rs) r now sum one grows = Accounts-snoc m rs r now sum one grows
Accounts-snoc m (init_error code message ∷ rs) r now sum one grows =
    Accounts-snoc m rs r now sum one grows
Accounts-snoc m (reply result ∷ rs) r now sum one grows = Accounts-snoc m rs r now sum one grows
Accounts-snoc m (protocol_error why ∷ rs) r now sum one grows =
    Accounts-snoc m rs r now sum one grows

module _ {W Breaker : Type 0} (t : Toolkit) (upper : String → String) (d : DriverSet W Breaker)
    (metered : AllMetered d) (decode : Decoders) (jwt : Jwt) (p : Process t upper d)
    (kept : IsKept t upper d p) where
  abbrev shown : Set t upper d decode jwt p → BackendMetrics
  shown set = BackendSet.metrics t upper d set

  -- Each answer to a `Drain` extends the one before it, and an open session's set has all that was
  -- sent.
  abbrev pub IsAccounted : Task t upper d decode jwt p → Type 0
  IsAccounted opening = Unit
  IsAccounted (serving i set sent) = Accounts sent (shown set)
  IsAccounted (ended result sent) = Accumulates no_metrics sent

  dispatch_joined-Accounts :
      (joined : Option String) (c : WireCall) (set : Set t upper d decode jwt p) (w : W)
      (sent : List WireResponse)
      → Accounts sent (shown set)
      → let (r, set', w') = dispatch_joined t upper d decode jwt p joined c set w in
        Accounts (sent ++ r ∷ []) (shown set')
  unfolding dispatch_joined
  dispatch_joined-Accounts (some e) c set w sent (sum, grows) =
      Accounts-snoc no_metrics sent (protocol_error _) _ sum tt (Grows-trans grows (kept c set w))
  dispatch_joined-Accounts none c set w sent (sum, grows) =
      Accounts-snoc no_metrics sent (reply _) _ sum tt
        (Grows-trans grows (call-Grows t upper d metered decode c.action c.payload set w c.name))

  respond-Accounts :
      (q : WireRequest) (set : Set t upper d decode jwt p) (w : W) (sent : List WireResponse)
      → Accounts sent (shown set)
      → let (r, set', w') = respond t upper d decode jwt p q set w in
        Accounts (sent ++ r ∷ []) (shown set')
  unfolding respond dispatch
  respond-Accounts (call c) set w sent accounts =
      dispatch_joined-Accounts (p.panics c set w) c set w sent accounts
  respond-Accounts drain set w sent (sum, grows) =
      Accounts-snoc no_metrics sent (metrics (shown set)) (shown set) sum (grows, tt)
        (Grows-refl (shown set))
  respond-Accounts (init again) set w sent (sum, grows) =
      Accounts-snoc no_metrics sent (protocol_error _) _ sum tt grows

  -- A frame that the peer took, or did not.
  write-IsAccounted :
      (taken : Bool) (r : WireResponse) (sent : List WireResponse)
      (next : List WireResponse → Task t upper d decode jwt p)
      → Accumulates no_metrics sent
      → IsAccounted (next (sent ++ r ∷ []))
      → IsAccounted (write t upper d decode jwt p taken r sent next)
  write-IsAccounted true r sent next sum accounted = accounted
  write-IsAccounted false r sent next sum accounted = sum

  module _ (shared : Shared Breaker) (i : WireInit) (taken : Bool) (w : W) where
    resolved-IsAccounted :
        (r : Result ResolveError ResolvedConfigs)
        → IsAccounted (resolved_turn t upper d decode jwt p shared i taken r w).task
    unfolding resolved_turn
    resolved-IsAccounted (err e) = write-IsAccounted taken (init_error _ _) [] (ended (ok tt)) tt tt
    resolved-IsAccounted (ok c) = write-IsAccounted taken ack [] (serving i _) tt (
      tt,
      subst (Grows no_metrics)
          (sym (
            from_configs-metrics t upper d metered
              (clamp_db_statement_timeout shared.max_statement_timeout_ms c)
              (deps_of t upper d decode jwt p shared i)))
          (Grows-refl no_metrics),
    )

    authenticated-IsAccounted :
        (r : Result AuthReject (Unit {0}))
        → IsAccounted (authenticated_turn t upper d decode jwt p shared i taken r w).task
    unfolding authenticated_turn
    authenticated-IsAccounted (err e) =
        write-IsAccounted taken (init_error _ _) [] (ended (ok tt)) tt tt
    authenticated-IsAccounted (ok _) = resolved-IsAccounted (resolve shared.table i)

  -- A turn keeps the account.
  pub turn-IsAccounted :
      (shared : Shared Breaker) (a : Authenticator) (cache : Cache jwt.Key) (now : ℕ) (taken : Bool)
      (frame : Option Frame) (task : Task t upper d decode jwt p) (w : W)
      → IsAccounted task
      → IsAccounted (turn t upper d decode jwt p shared a cache now taken frame task w).task
  unfolding turn answer_turn
  turn-IsAccounted shared a cache now taken none opening w accounted = tt
  turn-IsAccounted shared a cache now taken (some (broken e)) opening w accounted = tt
  turn-IsAccounted shared a cache now taken (some (request (init i))) opening w accounted =
      authenticated-IsAccounted shared i taken w (authenticate t jwt cache now a i.token)
  turn-IsAccounted shared a cache now taken (some (request (call c))) opening w accounted =
      write-IsAccounted taken (protocol_error _) [] (ended (ok tt)) tt tt
  turn-IsAccounted shared a cache now taken (some (request drain)) opening w accounted =
      write-IsAccounted taken (protocol_error _) [] (ended (ok tt)) tt tt
  turn-IsAccounted shared a cache now taken none (serving i set sent) w accounted = accounted.0
  turn-IsAccounted shared a cache now taken (some (broken e)) (serving i set sent) w accounted =
      accounted.0
  turn-IsAccounted shared a cache now taken (some (request q)) (serving i set sent) w accounted =
      write-IsAccounted taken _ sent (serving i _) accounted.0
        (respond-Accounts q set w sent accounted)
  turn-IsAccounted shared a cache now taken none (ended result sent) w accounted = accounted
  turn-IsAccounted shared a cache now taken (some (broken e)) (ended result sent) w accounted =
      accounted
  turn-IsAccounted shared a cache now taken (some (request q)) (ended result sent) w accounted =
      accounted
