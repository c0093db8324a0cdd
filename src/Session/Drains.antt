-- ===== src/Session/Drains.antt =====
-- main.rs: the metrics that a session is sent, one `Drain` after the other.
use mathlib.Core.List.{append_assoc, append-nil}
use fabricd.Base.{String, sym, ap, ◌∙◌, List, [], ◌∷◌, ◌++◌}
use fabricd.Wire.{
  Toolkit, WireCall, BackendMetrics, WireResponse, ack, init_error, reply, metrics, protocol_error,
}
use fabricd.BackendSet.Drivers.{DriverSet}
use fabricd.BackendSet.Metrics.{Extends, Grows}
use fabricd.BackendSet
use fabricd.Session.{Process}

Extends-trans : {M : Type 0} (l m n : List M) → Extends l m → Extends m n → Extends l n
Extends-trans l m n (xs, first) (ys, second) =
    (xs ++ ys, second ∙ ap (λ k. k ++ ys) first ∙ append_assoc l xs ys)

pub Grows-refl : (m : BackendMetrics) → Grows m m
Grows-refl m = record {
  db = ([], sym (append-nil m.db));
  mongo = ([], sym (append-nil m.mongo));
  mail = ([], sym (append-nil m.mail));
  redis = ([], sym (append-nil m.redis));
  amq = ([], sym (append-nil m.amq));
  auth = ([], sym (append-nil m.auth));
}

pub Grows-trans : {l m n : BackendMetrics} → Grows l m → Grows m n → Grows l n
Grows-trans {l} {m} {n} first second = record {
  db = Extends-trans l.db m.db n.db first.db second.db;
  mongo = Extends-trans l.mongo m.mongo n.mongo first.mongo second.mongo;
  mail = Extends-trans l.mail m.mail n.mail first.mail second.mail;
  redis = Extends-trans l.redis m.redis n.redis first.redis second.redis;
  amq = Extends-trans l.amq m.amq n.amq first.amq second.amq;
  auth = Extends-trans l.auth m.auth n.auth first.auth second.auth;
}

abbrev pub no_metrics : BackendMetrics
no_metrics = record { db = []; mongo = []; mail = []; redis = []; amq = []; auth = [] }

-- Each metrics frame extends the one before it, and the first one extends these.
abbrev pub Accumulates : BackendMetrics → List WireResponse → Type 0
Accumulates m [] = Unit
Accumulates m (metrics n ∷ rs) = Grows m n × Accumulates n rs
Accumulates m (ack ∷ rs) = Accumulates m rs
Accumulates m (init_error code message ∷ rs) = Accumulates m rs
Accumulates m (reply result ∷ rs) = Accumulates m rs
Accumulates m (protocol_error why ∷ rs) = Accumulates m rs

Accumulates-Grows :
    {m n : BackendMetrics} (rs : List WireResponse)
    → Grows m n
    → Accumulates n rs
    → Accumulates m rs
Accumulates-Grows [] grows rest = tt
Accumulates-Grows (metrics k ∷ rs) grows (more, rest) = (Grows-trans grows more, rest)
Accumulates-Grows (ack ∷ rs) grows rest = Accumulates-Grows rs grows rest
Accumulates-Grows (init_error code message ∷ rs) grows rest = Accumulates-Grows rs grows rest
Accumulates-Grows (reply result ∷ rs) grows rest = Accumulates-Grows rs grows rest
Accumulates-Grows (protocol_error why ∷ rs) grows rest = Accumulates-Grows rs grows rest

-- A task that panics takes nothing away of what its set has recorded.
abbrev pub IsKept :
    {W Breaker : Type 0} (t : Toolkit) (upper : String → String) (d : DriverSet W Breaker)
    → Process t upper d
    → Type 0
IsKept {W} t upper d p =
    (c : WireCall) (set : BackendSet.BackendSet t upper d) (w : W)
    → Grows (BackendSet.metrics t upper d set) (
        BackendSet.metrics t upper d
          (BackendSet.abandoned_set t upper d c.name set (p.remains c set w)))
