-- ===== src/Daemon/Shutdown.antt =====
-- crates/fabricd/src/main.rs: what the accept loops wait for, `run_listeners` and `shutdown_signal`,
-- and `main` around them, on Unix. A loop is given what its `accept` answers, in order, up to the
-- moment that is looked at; a future that has not resolved is `pending`.
pub mod Laws
use fabricd.Base.{String, Option, none, some, List, [], ◌∷◌, Result, ok, err, Eff, ◌>>=◌}
use fabricd.Wire.{Breakers}
use fabricd.SaToken.{ClientBuilder}
use fabricd.Daemon.Boot.{System, FabricdConfig, Booted, uds_path, load_config, start_configured}

pub data Poll (A : Type 0) : Type 0 where
  pending : Poll A
  ready : A → Poll A

-- `select!` on two futures of which it only matters that one resolves.
abbrev pub select : Poll (Unit {0}) → Poll (Unit {0}) → Poll (Unit {0})
select pending other = other
select (ready done) other = ready tt

-- `uds_accept_loop`: it ends with the first error of `accept`.
unfoldable pub uds_accept_loop : List (Result String (Unit {0})) → Poll (Result String (Unit {0}))
uds_accept_loop [] = pending
uds_accept_loop (ok stream ∷ accepts) = uds_accept_loop accepts
uds_accept_loop (err e ∷ accepts) = ready (err e)

-- What one round of `quic_accept_loop` meets: the endpoint has closed, or a connection comes in, and
-- then the wait for its permit, which fails where the semaphore is closed.
pub data Incoming : Type 0 where
  closed : Incoming
  incoming : Poll (Result String (Unit {0})) → Incoming

unfoldable pub quic_accept_loop : List Incoming → Poll (Unit {0})
quic_accept_loop [] = pending
quic_accept_loop (closed ∷ rounds) = ready tt
quic_accept_loop (incoming pending ∷ rounds) = pending
quic_accept_loop (incoming (ready (err e)) ∷ rounds) = ready tt
quic_accept_loop (incoming (ready (ok permit)) ∷ rounds) = quic_accept_loop rounds

-- `metrics_accept_loop`: after an error it waits for ever.
unfoldable pub metrics_accept_loop : List (Result String (Unit {0})) → Poll (Unit {0})
metrics_accept_loop [] = pending
metrics_accept_loop (ok stream ∷ accepts) = metrics_accept_loop accepts
metrics_accept_loop (err e ∷ accepts) = pending

-- The error of a loop is logged.
abbrev pub logged : Poll (Result String (Unit {0})) → Poll (Unit {0})
logged pending = pending
logged (ready result) = ready tt

-- A listener that is not there waits for ever.
abbrev pub loop_of : {A : Type 0} → (A → Poll (Unit {0})) → Option A → Poll (Unit {0})
loop_of loop none = pending
loop_of loop (some listener) = loop listener

-- `shutdown_signal`, where `ctrl_c` is what waiting for Ctrl+C gives, and `terminate` what installing
-- the handler of SIGTERM gives, with the wait for the signal. Either failure is logged.
unfoldable pub shutdown_signal :
    Poll (Result String (Unit {0})) → Result String (Poll (Unit {0})) → Poll (Unit {0})
shutdown_signal ctrl_c (err e) = select (logged ctrl_c) (ready tt)
shutdown_signal ctrl_c (ok received) = select (logged ctrl_c) received

unfoldable pub run_listeners :
    Option (List (Result String (Unit {0})))
    → Option (List Incoming)
    → Option (List (Result String (Unit {0})))
    → Poll (Unit {0})
    → Poll (Unit {0})
run_listeners uds quic metrics signal =
    select (loop_of (λ accepts. logged (uds_accept_loop accepts)) uds)
      (select (loop_of quic_accept_loop quic) (select (loop_of metrics_accept_loop metrics) signal))

module _ {W : Type 0} (sys : System W) (breakers : Breakers W) (b : ClientBuilder)
    (serving : Booted sys breakers b → Eff W String (Unit {0})) where
  -- The socket file goes on a graceful exit.
  abbrev pub clean_up : Option String → Eff W String (Unit {0})
  clean_up none w = (ok tt, w)
  clean_up (some path) w = (ok tt, sys.remove_file path w)

  -- `main`; `serving` is what happens while `run_listeners` runs.
  unfoldable pub main : Eff W String (Unit {0})
  main = do
    config ← load_config sys breakers b
    booted ← start_configured sys breakers b config
    done ← serving booted
    clean_up (uds_path sys breakers b config)
