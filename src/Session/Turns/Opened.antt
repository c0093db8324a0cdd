-- ===== src/Session/Turns/Opened.antt =====
-- main.rs and backendset.rs: what an open session was granted, at each of its turns.
use fabricd.Base.{
  ℕ, String, ◌≡◌, refl, ◌∙◌, Bool, true, false, Option, none, some, List, [], Result, ok, err,
}
use fabricd.Wire.{Toolkit, WireInit, WireCall, WireRequest, init, call, drain, WireResponse, ack}
use fabricd.Resources.Table.{ResolvedConfigs, ResolveError, Table, resolve}
use fabricd.Resources.Spec.{IsResolved, resolve_iff}
use fabricd.Resources.Clamp.{clamp_db_statement_timeout}
use fabricd.SaToken.Keys.{Jwt, Cache}
use fabricd.ClientAuth.{Authenticator, AuthReject, authenticate}
use fabricd.BackendSet.Payloads.{Decoders}
use fabricd.BackendSet.Drivers.{DriverSet}
use fabricd.BackendSet.Configs.{
  IsConfigured, wired, wiring, from_configs-wiring, call-wired, abandoned_set-wired,
}
use fabricd.Session.{
  Shared, Frame, request, broken, Process, Set, dispatch, dispatch_joined, respond,
}
use fabricd.Session.Turns.{
  Task, opening, serving, ended, write, resolved_turn, authenticated_turn, answer_turn, turn,
}

module _ {W Breaker : Type 0} (t : Toolkit) (upper : String → String) (d : DriverSet W Breaker)
    (configured : IsConfigured d.amq) (decode : Decoders) (jwt : Jwt) (p : Process t upper d) where
  -- A session whose `Init` was accepted, and that works with nothing but the bindings of its own
  -- tenant under the names that it gave, the database's statement timeout under the ceiling.
  pub record IsGranted (table : Table) (ceiling : ℕ) (breaker : Option Breaker)
      (Accepted : WireInit → Type 0) (i : WireInit) (set : Set t upper d decode jwt p)
      : Type 0 where
    pub accepted : Accepted i
    pub configs : ResolvedConfigs
    pub resolved : IsResolved table i configs
    pub works_with :
        wired t upper d configured set
        ≡ wiring t upper d configured
            (clamp_db_statement_timeout ceiling configs)
            (record { breaker = breaker; timeout_ms = i.timeout_ms })

  abbrev pub IsOpened : Shared Breaker → (WireInit → Type 0) → Task t upper d decode jwt p → Type 0
  IsOpened shared Accepted opening = Unit
  IsOpened shared Accepted (serving i set sent) =
      IsGranted shared.table shared.max_statement_timeout_ms shared.breaker Accepted i set
  IsOpened shared Accepted (ended result sent) = Unit

  -- A later view of the same acceptance.
  pub IsOpened-onwards :
      (shared : Shared Breaker) (A B : WireInit → Type 0) (task : Task t upper d decode jwt p)
      → ((i : WireInit) → A i → B i)
      → IsOpened shared A task
      → IsOpened shared B task
  IsOpened-onwards shared A B opening kept opened = tt
  IsOpened-onwards shared A B (serving i set sent) kept opened = record {
    accepted = kept i opened.accepted;
    configs = opened.configs;
    resolved = opened.resolved;
    works_with = opened.works_with;
  }
  IsOpened-onwards shared A B (ended result sent) kept opened = tt

  dispatch_joined-wired :
      (joined : Option String) (c : WireCall) (set : Set t upper d decode jwt p) (w : W)
      → wired t upper d configured (dispatch_joined t upper d decode jwt p joined c set w).1
        ≡ wired t upper d configured set
  unfolding dispatch_joined
  dispatch_joined-wired (some e) c set w =
      abandoned_set-wired t upper d configured c.name set (p.remains c set w)
  dispatch_joined-wired none c set w =
      call-wired t upper d configured decode c.name c.action c.payload set w

  respond-wired :
      (q : WireRequest) (set : Set t upper d decode jwt p) (w : W)
      → wired t upper d configured (respond t upper d decode jwt p q set w).1
        ≡ wired t upper d configured set
  unfolding respond dispatch
  respond-wired (call c) set w = dispatch_joined-wired (p.panics c set w) c set w
  respond-wired drain set w = refl
  respond-wired (init again) set w = refl

  module _ (shared : Shared Breaker) (a : Authenticator) (cache : Cache jwt.Key) (now : ℕ)
      (Accepted : WireInit → Type 0) where
    write-IsOpened :
        (taken : Bool) (frame : WireResponse) (sent : List WireResponse)
        (next : List WireResponse → Task t upper d decode jwt p)
        → ((all : List WireResponse) → IsOpened shared Accepted (next all))
        → IsOpened shared Accepted (write t upper d decode jwt p taken frame sent next)
    write-IsOpened true frame sent next opened = opened _
    write-IsOpened false frame sent next opened = tt

    resolved-IsOpened :
        (i : WireInit) (taken : Bool) (r : Result ResolveError ResolvedConfigs) (w : W)
        → Accepted i
        → resolve shared.table i ≡ r
        → IsOpened shared Accepted (resolved_turn t upper d decode jwt p shared i taken r w).task
    unfolding resolved_turn
    resolved-IsOpened i taken (err e) w accepted same = write-IsOpened taken _ [] _ (λ all. tt)
    resolved-IsOpened i taken (ok configs) w accepted same = write-IsOpened taken ack [] _ λ all.
        record {
          accepted = accepted;
          configs = configs;
          resolved = (resolve_iff shared.table i configs).0 same;
          works_with = from_configs-wiring t upper d configured _ _;
        }

    authenticated-IsOpened :
        (i : WireInit) (taken : Bool) (r : Result AuthReject (Unit {0})) (w : W)
        → (r ≡ ok tt → Accepted i)
        → IsOpened shared Accepted
            (authenticated_turn t upper d decode jwt p shared i taken r w).task
    unfolding authenticated_turn
    authenticated-IsOpened i taken (err e) w opens = write-IsOpened taken _ [] _ (λ all. tt)
    authenticated-IsOpened i taken (ok done) w opens =
        resolved-IsOpened i taken (resolve shared.table i) w (opens refl) refl

    -- A turn keeps what its session was granted.
    pub turn-IsOpened :
        (taken : Bool) (frame : Option Frame) (task : Task t upper d decode jwt p) (w : W)
        → ((i : WireInit)
            → task ≡ opening
            → frame ≡ some (request (init i))
            → authenticate t jwt cache now a i.token ≡ ok tt
            → Accepted i)
        → IsOpened shared Accepted task
        → IsOpened shared Accepted
            (turn t upper d decode jwt p shared a cache now taken frame task w).task
    unfolding turn answer_turn
    turn-IsOpened taken none opening w opens opened = tt
    turn-IsOpened taken (some (broken e)) opening w opens opened = tt
    turn-IsOpened taken (some (request (init i))) opening w opens opened =
        authenticated-IsOpened i taken (authenticate t jwt cache now a i.token) w
          (opens i refl refl)
    turn-IsOpened taken (some (request (call c))) opening w opens opened =
        write-IsOpened taken _ [] _ (λ all. tt)
    turn-IsOpened taken (some (request drain)) opening w opens opened =
        write-IsOpened taken _ [] _ (λ all. tt)
    turn-IsOpened taken none (serving i set sent) w opens opened = tt
    turn-IsOpened taken (some (broken e)) (serving i set sent) w opens opened = tt
    turn-IsOpened taken (some (request q)) (serving i set sent) w opens opened =
        write-IsOpened taken _ sent _ λ all. record {
          accepted = opened.accepted;
          configs = opened.configs;
          resolved = opened.resolved;
          works_with = respond-wired q set w ∙ opened.works_with;
        }
    turn-IsOpened taken none (ended result sent) w opens opened = tt
    turn-IsOpened taken (some (broken e)) (ended result sent) w opens opened = tt
    turn-IsOpened taken (some (request q)) (ended result sent) w opens opened = tt
