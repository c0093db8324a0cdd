-- ===== src/Daemon/Shutdown/Laws.antt =====
-- main.rs: what ends the daemon's run.
use fabricd.Base.{
  String, ◌≡◌, refl, ap, ◌∙◌, ◌↔◌, ◌≢◌, ◌⊎◌, inl, inr, Option, none, some, List, [], ◌∷◌, ◌++◌,
  Result, ok, err,
}
use fabricd.Daemon.Shutdown.{
  Poll, pending, ready, Incoming, closed, incoming, uds_accept_loop, quic_accept_loop,
  metrics_accept_loop, shutdown_signal, run_listeners, select, logged, loop_of,
}

-- The socket is there and an accept on it failed.
abbrev pub UdsFails : Option (List (Result String (Unit {0}))) → Type 0
UdsFails none = ⊥
UdsFails (some accepts) =
    (before : List (Result String (Unit {0}))) × (e : String) × (after : List
      (Result String (Unit {0})))
    × (accepts ≡ before ++ err e ∷ after)

-- A connection that got its permit.
abbrev pub IsAdmitted : Incoming → Type 0
IsAdmitted closed = ⊥
IsAdmitted (incoming pending) = ⊥
IsAdmitted (incoming (ready (err e))) = ⊥
IsAdmitted (incoming (ready (ok permit))) = Unit

abbrev pub AllAdmitted : List Incoming → Type 0
AllAdmitted [] = Unit
AllAdmitted (i ∷ rounds) = IsAdmitted i × AllAdmitted rounds

abbrev pub IsEnd : Incoming → Type 0
IsEnd closed = Unit
IsEnd (incoming pending) = ⊥
IsEnd (incoming (ready (err e))) = Unit
IsEnd (incoming (ready (ok permit))) = ⊥

-- QUIC is there and, after connections that all got their permits, its endpoint or its semaphore
-- closed.
abbrev pub QuicCloses : Option (List Incoming) → Type 0
QuicCloses none = ⊥
QuicCloses (some rounds) =
    (before : List Incoming) × (last : Incoming) × (after : List Incoming) × (rounds
      ≡ before ++ last ∷ after)
    × AllAdmitted before
    × IsEnd last

select_iff : (p q : Poll (Unit {0})) → (select p q ≡ ready tt) ↔ ((p ≡ ready tt) ⊎ (q ≡ ready tt))
select_iff pending q = (inr, λ either. elim either [ inl no_way ↦ cc | inr done ↦ done ])
select_iff (ready done) q = (λ _. inl refl, λ _. refl)

uds_fails :
    (accepts : List (Result String (Unit {0})))
    → logged (uds_accept_loop accepts) ≡ ready tt
    → UdsFails (some accepts)
unfolding uds_accept_loop
uds_fails [] h = cc
uds_fails (ok stream ∷ accepts) h =
    let (before, e, after, same) = uds_fails accepts h in
    (ok stream ∷ before, e, after, ap (λ l. ok stream ∷ l) same)
uds_fails (err e ∷ accepts) h = ([], e, accepts, refl)

uds_ends :
    (before : List (Result String (Unit {0}))) (e : String)
    (after : List (Result String (Unit {0})))
    → logged (uds_accept_loop (before ++ err e ∷ after)) ≡ ready tt
unfolding uds_accept_loop
uds_ends [] e after = refl
uds_ends (ok stream ∷ before) e after = uds_ends before e after
uds_ends (err first ∷ before) e after = refl

uds_iff :
    (uds : Option (List (Result String (Unit {0}))))
    → (loop_of (λ accepts. logged (uds_accept_loop accepts)) uds ≡ ready tt) ↔ UdsFails uds
uds_iff none = (λ h. cc, λ h. absurd h)
uds_iff (some accepts) = (
  uds_fails accepts,
  λ (before, e, after, same). ap (λ l. logged (uds_accept_loop l)) same ∙ uds_ends before e after,
)

quic_closes :
    (rounds : List Incoming) → quic_accept_loop rounds ≡ ready tt → QuicCloses (some rounds)
unfolding quic_accept_loop
quic_closes [] h = cc
quic_closes (closed ∷ rounds) h = ([], closed, rounds, refl, tt, tt)
quic_closes (incoming pending ∷ rounds) h = cc
quic_closes (incoming (ready (err e)) ∷ rounds) h =
    ([], incoming (ready (err e)), rounds, refl, tt, tt)
quic_closes (incoming (ready (ok permit)) ∷ rounds) h =
    let (before, last, after, same, admitted, ends) = quic_closes rounds h in
    (
      incoming (ready (ok permit)) ∷ before,
      last,
      after,
      ap (λ l. incoming (ready (ok permit)) ∷ l) same,
      (tt, admitted),
      ends,
    )

quic_ends :
    (before : List Incoming) (last : Incoming) (after : List Incoming)
    → AllAdmitted before
    → IsEnd last
    → quic_accept_loop (before ++ last ∷ after) ≡ ready tt
unfolding quic_accept_loop
quic_ends [] closed after admitted ends = refl
quic_ends [] (incoming pending) after admitted ends = absurd ends
quic_ends [] (incoming (ready (err e))) after admitted ends = refl
quic_ends [] (incoming (ready (ok permit))) after admitted ends = absurd ends
quic_ends (closed ∷ before) last after admitted ends = refl
quic_ends (incoming pending ∷ before) last after admitted ends = absurd (admitted.0)
quic_ends (incoming (ready (err e)) ∷ before) last after admitted ends = refl
quic_ends (incoming (ready (ok permit)) ∷ before) last after admitted ends =
    quic_ends before last after admitted.1 ends

quic_iff :
    (quic : Option (List Incoming)) → (loop_of quic_accept_loop quic ≡ ready tt) ↔ QuicCloses quic
quic_iff none = (λ h. cc, λ h. absurd h)
quic_iff (some rounds) = (
  quic_closes rounds,
  λ (before, last, after, same, admitted, ends).
      ap quic_accept_loop same ∙ quic_ends before last after admitted ends,
)

metrics_accept_loop-pending :
    (accepts : List (Result String (Unit {0}))) → metrics_accept_loop accepts ≡ pending
unfolding metrics_accept_loop
metrics_accept_loop-pending [] = refl
metrics_accept_loop-pending (ok stream ∷ accepts) = metrics_accept_loop-pending accepts
metrics_accept_loop-pending (err e ∷ accepts) = refl

metrics-pending :
    (metrics : Option (List (Result String (Unit {0}))))
    → loop_of metrics_accept_loop metrics ≡ pending
metrics-pending none = refl
metrics-pending (some accepts) = metrics_accept_loop-pending accepts

logged_iff :
    (ctrl_c : Poll (Result String (Unit {0}))) → (logged ctrl_c ≡ ready tt) ↔ (ctrl_c ≢ pending)
logged_iff pending = (λ h. cc, λ h. absurd (h refl))
logged_iff (ready result) = (λ _ h. cc, λ _. refl)

-- The wait for one of the two signals is over: it came, or its handler could not be installed.
abbrev pub IsSignalled : Poll (Result String (Unit {0})) → Result String (Poll (Unit {0})) → Type 0
IsSignalled ctrl_c terminate = (ctrl_c ≢ pending) ⊎ (terminate ≢ ok pending)

signal_iff :
    (ctrl_c : Poll (Result String (Unit {0}))) (terminate : Result String (Poll (Unit {0})))
    → (shutdown_signal ctrl_c terminate ≡ ready tt) ↔ IsSignalled ctrl_c terminate
unfolding shutdown_signal
signal_iff ctrl_c (err e) = (λ _. inr (λ h. cc), λ _. (select_iff _ _).1 (inr refl))
signal_iff ctrl_c (ok (ready done)) = (λ _. inr (λ h. cc), λ _. (select_iff _ _).1 (inr refl))
signal_iff ctrl_c (ok pending) = (
  λ h. elim ((select_iff _ _).0 h) [
    | inl came ↦ inl ((logged_iff ctrl_c).0 came)
    | inr no_way ↦ cc
  ],
  λ h. elim h [
    | inl came ↦ (select_iff _ _).1 (inl ((logged_iff ctrl_c).1 came))
    | inr no_way ↦ absurd (no_way refl)
  ],
)

-- The daemon's run ends exactly where an accept on its socket fails, or its QUIC endpoint or
-- semaphore closes, or the wait for Ctrl+C or SIGTERM is over, be it that a handler could not be
-- installed. A listener that is not there ends nothing, and neither does the metrics listener,
-- whatever its accepts give.
pub run_listeners_iff :
    (uds : Option (List (Result String (Unit {0})))) (quic : Option (List Incoming))
    (metrics : Option (List (Result String (Unit {0})))) (ctrl_c : Poll (Result String (Unit {0})))
    (terminate : Result String (Poll (Unit {0})))
    → (run_listeners uds quic metrics (shutdown_signal ctrl_c terminate) ≡ ready tt)
      ↔ (UdsFails uds ⊎ (QuicCloses quic ⊎ IsSignalled ctrl_c terminate))
unfolding run_listeners
run_listeners_iff uds quic metrics ctrl_c terminate = rw (metrics-pending metrics) (
  λ h. elim ((select_iff _ _).0 h) [
    | inl failed ↦ inl ((uds_iff uds).0 failed)
    | inr rest ↦ elim ((select_iff _ _).0 rest) [
      | inl ended ↦ inr (inl ((quic_iff quic).0 ended))
      | inr came ↦ inr (inr ((signal_iff ctrl_c terminate).0 came))
    ]
  ],
  λ h. elim h [
    | inl failed ↦ (select_iff _ _).1 (inl ((uds_iff uds).1 failed))
    | inr rest ↦ elim rest [
      | inl ended ↦ (select_iff _ _).1 (inr ((select_iff _ _).1 (inl ((quic_iff quic).1 ended))))
      | inr came ↦
          (select_iff _ _).1 (inr ((select_iff _ _).1 (inr ((signal_iff ctrl_c terminate).1 came))))
    ]
  ],
)
