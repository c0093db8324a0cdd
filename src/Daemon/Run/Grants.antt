-- ===== src/Daemon/Run/Grants.antt =====
-- main.rs and backendset.rs: when the open sessions of a running daemon were accepted, and what they
-- work with, however they interleave.
use mathlib.Core.Path.{subst}
use fabricd.Base.{
  ℕ, String, ◌≡◌, sym, ap, ◌∙◌, inl, inr, arith, nat_eq, Bool, Bool-cases, Option, none, some, List,
  [], ◌∷◌, ◌++◌, ok, if◌then◌else◌, OnSome,
}
use fabricd.Wire.{Toolkit, WireInit, init}
use fabricd.SaToken.Keys.{Jwt}
use fabricd.SaToken.Refresh.{Http}
use fabricd.ClientAuth.{Authenticator, authenticate}
use fabricd.BackendSet.Payloads.{Decoders}
use fabricd.BackendSet.Drivers.{DriverSet}
use fabricd.BackendSet.Configs.{IsConfigured}
use fabricd.Session.{Shared, Frame, request, Process}
use fabricd.Session.Turns.{opening}
use fabricd.Session.Turns.Opened.{IsOpened, IsOpened-onwards, turn-IsOpened}
use fabricd.Daemon.Run.Operator.{uncounted, Step-operator}
use fabricd.Daemon.Run.{
  Running, Stream, Listener, uds, quic, new_stream, turn_in, after_turn, authenticator_of, Event,
  Step, uds_accepted, took_turn, uds_failed, quic_accepted, quic_opened, quic_ended, quic_closed,
  round, scrape_failed, signalled, elsewhere, Steps, here, next,
}

module _ {W Breaker : Type 0} (t : Toolkit) (upper : String → String) (d : DriverSet W Breaker)
    (configured : IsConfigured d.amq) (decode : Decoders) (jwt : Jwt) (p : Process t upper d)
    (http : Http W jwt.Jwk) (a : Authenticator) (issuer : String) (jwks_url : Option String)
    (start : Running t upper d decode jwt p http) where
  Steps-snoc :
      {s m e : Running t upper d decode jwt p http}
      {events : List (Event t upper d decode jwt p http)}
      {event : Event t upper d decode jwt p http}
      → Steps t upper d decode jwt p http a issuer jwks_url s events m
      → Step t upper d decode jwt p http a issuer jwks_url m event e
      → Steps t upper d decode jwt p http a issuer jwks_url s (events ++ event ∷ []) e
  Steps-snoc here step = next step here
  Steps-snoc (next first steps) step = next first (Steps-snoc steps step)

  -- On the way to `e` there was a moment at which stream `k` was new and took its turn with this
  -- `Init`, and its listener's authenticator accepted the token on the keys that the daemon held at
  -- that moment and at the time of that turn.
  pub record WasAccepted (e : Running t upper d decode jwt p http) (k : ℕ) (listener : Listener)
      (asked : WireInit) : Type 0 where
    pub before : List (Event t upper d decode jwt p http)
    pub after : List (Event t upper d decode jwt p http)
    pub moment : Running t upper d decode jwt p http
    pub now : ℕ
    pub taken : Bool
    pub reached : Steps t upper d decode jwt p http a issuer jwks_url start before moment
    pub waiting : moment.streams k ≡ some (new_stream t upper d decode jwt p http listener)
    pub accepted :
        authenticate t jwt moment.cache now (authenticator_of a listener) asked.token ≡ ok tt
    pub since :
        Steps t upper d decode jwt p http a issuer jwks_url
          (after_turn t upper d decode jwt p http k
            (new_stream t upper d decode jwt p http listener)
            (turn_in t upper d decode jwt p http moment a now taken
              (some (request (init asked)))
              (new_stream t upper d decode jwt p http listener))
            moment)
          after
          e

  onwards :
      {s e : Running t upper d decode jwt p http} {event : Event t upper d decode jwt p http}
      (k : ℕ) (listener : Listener) (asked : WireInit)
      → Step t upper d decode jwt p http a issuer jwks_url s event e
      → WasAccepted s k listener asked
      → WasAccepted e k listener asked
  onwards {event} k listener asked step was = record {
    before = was.before;
    after = was.after ++ event ∷ [];
    moment = was.moment;
    now = was.now;
    taken = was.taken;
    reached = was.reached;
    waiting = was.waiting;
    accepted = was.accepted;
    since = Steps-snoc was.since step;
  }

  abbrev pub IsOpenedStream :
      Shared Breaker
      → Running t upper d decode jwt p http
      → ℕ
      → Stream t upper d decode jwt p http
      → Type 0
  IsOpenedStream shared e k stream =
      IsOpened t upper d configured decode jwt p shared (WasAccepted e k stream.listener)
        stream.task

  -- Every open session was accepted so, and was granted what it works with.
  abbrev pub AreOpened : Shared Breaker → Running t upper d decode jwt p http → Type 0
  AreOpened shared e = (k : ℕ) → OnSome (IsOpenedStream shared e k) (e.streams k)

  module _ {s e : Running t upper d decode jwt p http} {event : Event t upper d decode jwt p http}
      (shared : Shared Breaker) (k : ℕ)
      (step : Step t upper d decode jwt p http a issuer jwks_url s event e) where
    stays :
        (o : Option (Stream t upper d decode jwt p http))
        → OnSome (IsOpenedStream shared s k) o
        → OnSome (IsOpenedStream shared e k) o
    stays none opened = tt
    stays (some stream) opened =
        IsOpened-onwards t upper d configured decode jwt p shared _ _ stream.task
          (λ asked. onwards k stream.listener asked step) opened

    stays_beside :
        (i : ℕ) (new : Stream t upper d decode jwt p http)
        → ((i ≡ k) → IsOpenedStream shared e k new)
        → OnSome (IsOpenedStream shared s k) (s.streams k)
        → OnSome (IsOpenedStream shared e k) (if nat_eq i k then some new else s.streams k)
    stays_beside i new is opened = elim (Bool-cases (nat_eq i k)) [
      | inl same ↦ rw same (is (ground arith))
      | inr other ↦ rw other (stays (s.streams k) opened)
    ]

  -- The turn that opens a session is the moment of its acceptance.
  accepted_now :
      {before : List (Event t upper d decode jwt p http)} (s : Running t upper d decode jwt p http)
      (k : ℕ) (stream : Stream t upper d decode jwt p http) (now : ℕ) (taken : Bool)
      (frame : Option Frame) (asked : WireInit)
      → Steps t upper d decode jwt p http a issuer jwks_url start before s
      → s.streams k ≡ some stream
      → stream.task ≡ opening
      → frame ≡ some (request (init asked))
      → authenticate t jwt s.cache now (authenticator_of a stream.listener) asked.token ≡ ok tt
      → WasAccepted
          (after_turn t upper d decode jwt p http k stream
            (turn_in t upper d decode jwt p http s a now taken frame stream)
            s)
          k
          stream.listener
          asked
  accepted_now {before} s k stream now taken frame asked reached there first said accepted =
      let new = new_stream t upper d decode jwt p http stream.listener in
      let is_new : stream ≡ new = ap (λ task. record stream { task = task }) first in
      let after = λ (x : Stream t upper d decode jwt p http) (f : Option Frame).
        after_turn t upper d decode jwt p http k x
          (turn_in t upper d decode jwt p http s a now taken f x) s in
      record {
        before = before;
        after = [];
        moment = s;
        now = now;
        taken = taken;
        reached = reached;
        waiting = there ∙ ap some is_new;
        accepted = accepted;
        since =
            subst
              (λ e.
                Steps t upper d decode jwt p http a issuer jwks_url
                  (after new (some (request (init asked)))) [] e)
              (sym (ap (λ x. after x frame) is_new ∙ ap (after new) said)) here;
      }

  Step-IsOpened :
      {before : List (Event t upper d decode jwt p http)} (shared : Shared Breaker)
      {s e : Running t upper d decode jwt p http} {event : Event t upper d decode jwt p http}
      → Steps t upper d decode jwt p http a issuer jwks_url start before s
      → (step : Step t upper d decode jwt p http a issuer jwks_url s event e)
      → uncounted s.shared ≡ uncounted shared
      → AreOpened shared s
      → AreOpened shared e
  Step-IsOpened shared {s} reached (uds_accepted on i new) same opened k =
      stays_beside {s = s} shared k (uds_accepted on i new) i
        (new_stream t upper d decode jwt p http uds) (λ at. tt) (opened k)
  Step-IsOpened shared {s} reached (quic_opened one_open i new) same opened k =
      stays_beside {s = s} shared k (quic_opened one_open i new) i
        (new_stream t upper d decode jwt p http quic) (λ at. tt) (opened k)
  Step-IsOpened shared {s} reached (took_turn i stream there now taken frame) same opened k =
      let step = took_turn i stream there now taken frame in
      let r = turn_in t upper d decode jwt p http s a now taken frame stream in
      let e = after_turn t upper d decode jwt p http i stream r s in
      stays_beside {s = s} shared k step i (record stream { task = r.task })
        (λ at.
          subst (λ (c : Shared Breaker). IsOpenedStream c e k (record stream { task = r.task }))
            same
            (turn-IsOpened t upper d configured decode jwt p s.shared
              (authenticator_of a stream.listener) s.cache now (WasAccepted e k stream.listener)
              taken frame stream.task s.world
              (λ asked first said accepted.
                subst (λ n. WasAccepted e n stream.listener asked) at
                  (accepted_now s i stream now taken frame asked reached there first said accepted))
              (subst (λ (c : Shared Breaker). IsOpenedStream c e k stream) (sym same)
                (stays {s = s} shared k step (some stream) (
                  subst (OnSome (IsOpenedStream shared s k)) (ap s.streams (sym at) ∙ there)
                    (opened k))))))
        (opened k)
  Step-IsOpened shared {s} reached (uds_failed on) same opened k =
      stays {s = s} shared k (uds_failed on) (s.streams k) (opened k)
  Step-IsOpened shared {s} reached (quic_accepted on free) same opened k =
      stays {s = s} shared k (quic_accepted on free) (s.streams k) (opened k)
  Step-IsOpened shared {s} reached (quic_ended one_open) same opened k =
      stays {s = s} shared k (quic_ended one_open) (s.streams k) (opened k)
  Step-IsOpened shared {s} reached (quic_closed on) same opened k =
      stays {s = s} shared k (quic_closed on) (s.streams k) (opened k)
  Step-IsOpened shared {s} reached round same opened k =
      stays {s = s} shared k round (s.streams k) (opened k)
  Step-IsOpened shared {s} reached (scrape_failed on) same opened k =
      stays {s = s} shared k (scrape_failed on) (s.streams k) (opened k)
  Step-IsOpened shared {s} reached (signalled on) same opened k =
      stays {s = s} shared k (signalled on) (s.streams k) (opened k)
  Step-IsOpened shared {s} reached (elsewhere w) same opened k =
      stays {s = s} shared k (elsewhere w) (s.streams k) (opened k)

  pub Steps-IsOpened :
      (shared : Shared Breaker) {s e : Running t upper d decode jwt p http}
      (events : List (Event t upper d decode jwt p http))
      {before : List (Event t upper d decode jwt p http)}
      → Steps t upper d decode jwt p http a issuer jwks_url start before s
      → Steps t upper d decode jwt p http a issuer jwks_url s events e
      → uncounted s.shared ≡ uncounted shared
      → AreOpened shared s
      → AreOpened shared e
  Steps-IsOpened shared {s = s} {e = e} [] reached here same opened = opened
  Steps-IsOpened shared {s = s} {e = e} (event ∷ events) reached (next {m = m} step steps) same
        opened =
      Steps-IsOpened shared {s = m} {e = e} events (Steps-snoc reached step) steps
        (Step-operator t upper d decode jwt p http a issuer jwks_url step ∙ same)
        (Step-IsOpened shared reached step same opened)
