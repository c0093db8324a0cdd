-- ===== src/Daemon/Run/Order.antt =====
-- main.rs: the answers of a running daemon, stream by stream, however the sessions interleave.
use mathlib.Core.List.{append-nil, append_assoc}
use mathlib.Core.Path.{subst}
use fabricd.Base.{
  ℕ, String, ◌≡◌, refl, sym, ap, ◌∙◌, inl, inr, Bool-cases, Option, none, some, List, [], ◌++◌,
  nat_eq, arith, if◌then◌else◌,
}
use fabricd.Wire.{Toolkit}
use fabricd.SaToken.Keys.{Jwt}
use fabricd.SaToken.Refresh.{Http}
use fabricd.ClientAuth.{Authenticator}
use fabricd.BackendSet.Payloads.{Decoders}
use fabricd.BackendSet.Drivers.{DriverSet}
use fabricd.Session.{Frame, Process}
use fabricd.Session.Turns.Ordered.{IsInOrder, heard_of, turn-IsInOrder}
use fabricd.Daemon.Run.{
  Running, Stream, new_stream, Listener, uds, quic, authenticator_of, Event, Step, uds_accepted,
  took_turn, uds_failed, quic_accepted, quic_opened, quic_ended, quic_closed, round, scrape_failed,
  signalled, elsewhere, Steps, here, next,
}

module _ {W Breaker : Type 0} (t : Toolkit) (upper : String → String) (d : DriverSet W Breaker)
    (decode : Decoders) (jwt : Jwt) (p : Process t upper d) (http : Http W jwt.Jwk)
    (a : Authenticator) (issuer : String) (jwks_url : Option String) (k : ℕ) where
  -- The frames that stream `k` reads in a step, and in a run.
  abbrev pub heard_in :
      {s e : Running t upper d decode jwt p http} {event : Event t upper d decode jwt p http}
      → Step t upper d decode jwt p http a issuer jwks_url s event e
      → List Frame
  heard_in (took_turn i stream there now taken frame) = if nat_eq i k then heard_of frame else []
  heard_in step = []

  abbrev pub heard :
      {s e : Running t upper d decode jwt p http}
      {events : List (Event t upper d decode jwt p http)}
      → Steps t upper d decode jwt p http a issuer jwks_url s events e
      → List Frame
  heard here = []
  heard (next step steps) = heard_in step ++ heard steps

  -- A stream that is not there has read nothing; the session of one that is, is in order.
  abbrev pub IsStreamInOrder : List Frame → Option (Stream t upper d decode jwt p http) → Type 0
  IsStreamInOrder before none = before ≡ []
  IsStreamInOrder before (some stream) = IsInOrder t upper d decode jwt p before stream.task

  no_more :
      (before : List Frame) (stream : Option (Stream t upper d decode jwt p http))
      → IsStreamInOrder before stream
      → IsStreamInOrder (before ++ []) stream
  no_more before stream order =
      subst (λ h. IsStreamInOrder h stream) (sym (append-nil before)) order

  open_stream :
      (before : List Frame) (i : ℕ) (listener : Listener)
      (streams : ℕ → Option (Stream t upper d decode jwt p http))
      → streams i ≡ none
      → IsStreamInOrder before (streams k)
      → IsStreamInOrder
          (before ++ [])
          (if nat_eq i k then some (new_stream t upper d decode jwt p http listener) else streams k)
  open_stream before i listener streams new order = elim (Bool-cases (nat_eq i k)) [
    | inl same ↦
        let at : i ≡ k = ground arith in
        rw same
          (append-nil before ∙ subst (IsStreamInOrder before) (ap streams (sym at) ∙ new) order)
    | inr other ↦ rw other (no_more before (streams k) order)
  ]

  Step-order :
      {s e : Running t upper d decode jwt p http} {event : Event t upper d decode jwt p http}
      (step : Step t upper d decode jwt p http a issuer jwks_url s event e) (before : List Frame)
      → IsStreamInOrder before (s.streams k)
      → IsStreamInOrder (before ++ heard_in step) (e.streams k)
  Step-order {s} (uds_accepted on i new) before order = open_stream before i uds s.streams new order
  Step-order {s} (took_turn i stream there now taken frame) before order =
      elim (Bool-cases (nat_eq i k)) [
        | inl same ↦
            let at : i ≡ k = ground arith in
            rw same (
              turn-IsInOrder t upper d decode jwt p s.shared (authenticator_of a stream.listener)
                s.cache now taken frame stream.task s.world before
                (subst (IsStreamInOrder before) (ap s.streams (sym at) ∙ there) order))
        | inr other ↦ rw other (no_more before (s.streams k) order)
      ]
  Step-order {s} (quic_opened one_open i new) before order =
      open_stream before i quic s.streams new order
  Step-order {s} (uds_failed on) before order = no_more before (s.streams k) order
  Step-order {s} (quic_accepted on free) before order = no_more before (s.streams k) order
  Step-order {s} (quic_ended one_open) before order = no_more before (s.streams k) order
  Step-order {s} (quic_closed on) before order = no_more before (s.streams k) order
  Step-order {s} round before order = no_more before (s.streams k) order
  Step-order {s} (scrape_failed on) before order = no_more before (s.streams k) order
  Step-order {s} (signalled on) before order = no_more before (s.streams k) order
  Step-order {s} (elsewhere w) before order = no_more before (s.streams k) order

  Steps-order :
      {s e : Running t upper d decode jwt p http}
      {events : List (Event t upper d decode jwt p http)} (before : List Frame)
      (steps : Steps t upper d decode jwt p http a issuer jwks_url s events e)
      → IsStreamInOrder before (s.streams k)
      → IsStreamInOrder (before ++ heard steps) (e.streams k)
  Steps-order {s} before here order = no_more before (s.streams k) order
  Steps-order {e} before (next step steps) order =
      subst (λ h. IsStreamInOrder h (e.streams k))
        (append_assoc before (heard_in step) (heard steps))
        (Steps-order (before ++ heard_in step) steps (Step-order step before order))

  -- On every stream, from before it is opened and however the sessions interleave, the frames
  -- written fit the frames read: none before the first; `Ack` and then one answer to each later
  -- request, of the request's kind and in order, in an open session; and in one that has ended
  -- nothing, one refusal, or `Ack` and the answers to the first of its requests.
  pub Steps-IsStreamInOrder :
      {s e : Running t upper d decode jwt p http}
      {events : List (Event t upper d decode jwt p http)}
      (steps : Steps t upper d decode jwt p http a issuer jwks_url s events e)
      → s.streams k ≡ none
      → IsStreamInOrder (heard steps) (e.streams k)
  Steps-IsStreamInOrder steps new = Steps-order [] steps (subst (IsStreamInOrder []) (sym new) refl)
