-- ===== src/Daemon/Run/Shut.antt =====
-- main.rs and sa_token.rs: the sessions over QUIC of a running daemon that checks ServiceAccount
-- tokens, before the keys are fetched.
use mathlib.Core.Path.{subst}
use fabricd.Base.{
  ℕ, String, ◌≡◌, refl, sym, ap, inl, inr, Bool, Bool-cases, Each, Option, none, some, List, [],
  ◌∷◌, Result, ok, err, map_err, Result-cases,
}
use fabricd.Wire.{
  Toolkit, WireInit, init, call, drain, WireResponse, ack, init_error, reply, metrics,
  protocol_error,
}
use fabricd.SaToken.{JwksVerifier, verify}
use fabricd.SaToken.Keys.{Jwt, cached}
use fabricd.SaToken.Refresh.{Http}
use fabricd.SaToken.Laws.{verify_iff}
use fabricd.ClientAuth.{AuthReject, service_account, authenticate}
use fabricd.BackendSet.Payloads.{Decoders}
use fabricd.BackendSet.Drivers.{DriverSet}
use fabricd.Session.{Shared, Frame, request, broken, Process}
use fabricd.Session.Turns.{Task, opening, serving, ended, write, authenticated_turn, turn}
use fabricd.Daemon.Run.Streams.{KeepsIn, Step-Each}
use fabricd.Daemon.Run.{
  Stream, Running, Event, Listener, uds, quic, authenticator_of, new_stream, Steps, here, next,
}
use fabricd.Daemon.Run.KeyCache.{HasNoKeys, Step-cache}

-- No frame opens a session.
abbrev pub IsUnopened : List WireResponse → Type 0
IsUnopened [] = Unit
IsUnopened (ack ∷ rs) = ⊥
IsUnopened (init_error code message ∷ rs) = IsUnopened rs
IsUnopened (reply result ∷ rs) = IsUnopened rs
IsUnopened (metrics m ∷ rs) = IsUnopened rs
IsUnopened (protocol_error why ∷ rs) = IsUnopened rs

module _ {W Breaker : Type 0} (t : Toolkit) (upper : String → String) (d : DriverSet W Breaker)
    (decode : Decoders) (jwt : Jwt) (p : Process t upper d) where
  authenticate_of_none :
      (v : JwksVerifier) (now : ℕ) (token : Option String)
      → (e : AuthReject) × (authenticate t jwt (cached none) now (service_account v) token ≡ err e)
  unfolding authenticate
  authenticate_of_none v now none = (_, refl)
  authenticate_of_none v now (some token) =
      elim (Result-cases (verify jwt v (cached none) now token)) [
        | inl (done, accepted) ↦
            absurd
              (let held = (verify_iff jwt v (cached none) now token).0 accepted in cc (held.loaded))
        | inr (e, rejected) ↦ (_, ap (map_err _) rejected)
      ]

  -- The session has not opened, and no frame that it wrote says that it has.
  abbrev pub IsShut : Task t upper d decode jwt p → Type 0
  IsShut opening = Unit
  IsShut (serving i set sent) = ⊥
  IsShut (ended result sent) = IsUnopened sent

  -- Over QUIC the session has not opened; nothing is said of the socket.
  abbrev pub IsShutQuic : Listener → Task t upper d decode jwt p → Type 0
  IsShutQuic uds task = Unit
  IsShutQuic quic task = IsShut task

  module _ (shared : Shared Breaker) (v : JwksVerifier) (now : ℕ) (taken : Bool) (w : W) where
    write_one-IsShut :
        (frame : WireResponse) (result : Result String (Unit {0}))
        → IsUnopened (frame ∷ [])
        → IsShut (write t upper d decode jwt p taken frame [] (ended result))
    write_one-IsShut frame result unopened = elim (Bool-cases taken) [
      | inl kept ↦ rw kept unopened
      | inr lost ↦ rw lost tt
    ]

    rejected-IsShut :
        (i : WireInit) (r : Result AuthReject (Unit {0}))
        → (e : AuthReject) × (r ≡ err e)
        → IsShut (authenticated_turn t upper d decode jwt p shared i taken r w).task
    unfolding authenticated_turn
    rejected-IsShut i (err e) is = write_one-IsShut (init_error e.code e.message) (ok tt) tt
    rejected-IsShut i (ok done) (e, is) = cc

    turn-IsShut :
        (frame : Option Frame) (task : Task t upper d decode jwt p)
        → IsShut task
        → IsShut
            (turn t upper d decode jwt p shared
              (service_account v)
              (cached none)
              now
              taken
              frame
              task
              w).task
    unfolding turn
    turn-IsShut none opening shut = tt
    turn-IsShut (some (broken e)) opening shut = tt
    turn-IsShut (some (request (init i))) opening shut =
        rejected-IsShut i (authenticate t jwt (cached none) now (service_account v) i.token)
          (authenticate_of_none v now i.token)
    turn-IsShut (some (request (call c))) opening shut =
        write_one-IsShut (protocol_error _) (ok tt) tt
    turn-IsShut (some (request drain)) opening shut = write_one-IsShut (protocol_error _) (ok tt) tt
    turn-IsShut frame (serving i set sent) shut = absurd shut
    turn-IsShut none (ended result sent) shut = shut
    turn-IsShut (some (broken e)) (ended result sent) shut = shut
    turn-IsShut (some (request q)) (ended result sent) shut = shut

  module _ (http : Http W jwt.Jwk) where
    -- No session over QUIC has opened.
    abbrev pub IsShutStream : Stream t upper d decode jwt p http → Type 0
    IsShutStream stream = IsShutQuic stream.listener stream.task

    abbrev pub AllShut : Running t upper d decode jwt p http → Type 0
    AllShut s = Each IsShutStream s.streams

    new_stream-IsShut :
        (listener : Listener) → IsShutStream (new_stream t upper d decode jwt p http listener)
    new_stream-IsShut uds = tt
    new_stream-IsShut quic = tt

    module _ (v : JwksVerifier) (issuer : String) (jwks_url : Option String) where
      turn-IsShutQuic :
          (s : Running t upper d decode jwt p http)
          → s.cache ≡ cached none
          → KeepsIn t upper d decode jwt p http
              (service_account v)
              issuer
              jwks_url
              IsShutStream
              new_stream-IsShut
              s
      turn-IsShutQuic s empty now taken frame stream shut = by_listener stream.listener shut
        where
          by_listener :
              (listener : Listener)
              → IsShutQuic listener stream.task
              → IsShutQuic listener
                  (turn t upper d decode jwt p s.shared
                    (authenticator_of (service_account v) listener)
                    s.cache
                    now
                    taken
                    frame
                    stream.task
                    s.world).task
          by_listener uds said = tt
          by_listener quic shut =
              subst
                (λ c.
                  IsShut
                    (turn t upper d decode jwt p s.shared (service_account v) c now taken frame
                      stream.task s.world).task)
                (sym empty) (turn-IsShut s.shared v now taken s.world frame stream.task shut)

      -- A daemon whose keys were never fetched has opened no session over QUIC until a round of the
      -- refresh succeeds, whatever its clients send and however many rounds fail.
      pub Steps-AllShut :
          {s e : Running t upper d decode jwt p http}
          (events : List (Event t upper d decode jwt p http))
          → Steps t upper d decode jwt p http (service_account v) issuer jwks_url s events e
          → s.cache ≡ cached none
          → AllShut s
          → HasNoKeys t upper d decode jwt p http events
          → AllShut e
      Steps-AllShut {s = s} {e = e} [] here empty shut failed = shut
      Steps-AllShut {s = s} {e = e} (event ∷ events) (next {m = m} step steps) empty shut failed =
          let (kept, rest) =
            Step-cache t upper d decode jwt p http (service_account v) issuer jwks_url events step
              empty failed in
          Steps-AllShut {s = m} {e = e} events steps kept
            (Step-Each t upper d decode jwt p http (service_account v) issuer jwks_url IsShutStream
              new_stream-IsShut (turn-IsShutQuic s empty) step shut)
            rest
