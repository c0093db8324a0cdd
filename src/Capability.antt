-- ===== src/Capability.antt =====
-- The interface between `BackendSet` and the six drivers, and the connect-once slot over it
-- (crates/fabric-backends/src/backendset.rs, "Lazy slots").
pub mod Laws
use fabricd.Base.{Bool, true, String, Option, none, some, List, [], Result, ok, err, Eff}
use fabricd.Wire.{EgressError}

-- What `BackendSet` uses of a driver: `connect_resource`, `call` and `drain_metrics`. A call
-- returns the backend with the metrics that it recorded.
pub record Capability (W Config Args Metric : Type 0) : Type 1 where
  pub Backend : Type 0
  pub connect : Config → Eff W EgressError Backend
  pub call : String → Args → Backend → W → Result EgressError String × Backend × W
  pub drain_metrics : Backend → List Metric

-- A driver that is built with the set and connects within each call (`AmqProducer`).
pub record Producer (W Config Args Metric : Type 0) : Type 1 where
  pub Backend : Type 0
  pub new : Config → Backend
  -- A backend with the recorded metrics of another.
  pub with_recorded : Backend → Backend → Backend
  pub call : String → Args → Backend → W → Result EgressError String × Backend × W
  pub drain_metrics : Backend → List Metric

module _ {W Config Args Metric : Type 0} (cap : Producer W Config Args Metric) where
  unfoldable pub producer_metrics : Option cap.Backend → List Metric
  producer_metrics none = []
  producer_metrics (some b) = cap.drain_metrics b

  -- What a call that panicked leaves: the producer, with what was recorded before the panic.
  unfoldable pub abandoned_producer :
      Bool → Option cap.Backend → Option cap.Backend → Option cap.Backend
  abandoned_producer true (some b) (some left) = some (cap.with_recorded b left)
  abandoned_producer called b left = b

  -- The body of `call_amq`.
  unfoldable pub call_producer :
      EgressError
      → String
      → Args
      → Option cap.Backend
      → W
      → Result EgressError String × Option cap.Backend × W
  call_producer unset action args none w = (err unset, none, w)
  call_producer unset action args (some b) w =
      let (r, b', w') = cap.call action args b w in (r, some b', w')

module _ {W Config Args Metric : Type 0} (cap : Capability W Config Args Metric) where
  -- `backend` is the `OnceLock` of the slot, `none` until the first use.
  pub record Slot : Type 0 where
    pub config : Config
    pub backend : Option (Result EgressError cap.Backend)

  -- A slot of `with_db` and its siblings.
  abbrev pub new_slot : Config → Slot
  new_slot config = record { config = config; backend = none }

  fill : Slot → Result EgressError cap.Backend × W → Result EgressError cap.Backend × Slot × W
  fill slot (r, w) = (r, record slot { backend = some r }, w)

  get_or_init :
      Slot → Option (Result EgressError cap.Backend) → W → Result EgressError cap.Backend × Slot × W
  unfolding fill
  get_or_init slot (some r) w = (r, slot, w)
  get_or_init slot none w = fill slot (cap.connect slot.config w)

  -- What a call that panicked leaves of its `OnceLock`: one that was empty is filled or not, one that
  -- was filled stays so, with whatever the task did inside the backend.
  unfoldable pub abandoned_cell :
      Option (Result EgressError cap.Backend)
      → Option (Result EgressError cap.Backend)
      → Option (Result EgressError cap.Backend)
  abandoned_cell none left = left
  abandoned_cell (some (ok b)) (some (ok left)) = some (ok left)
  abandoned_cell (some r) left = some r

  unfoldable pub abandoned_slot :
      Bool → Option Slot → Option (Result EgressError cap.Backend) → Option Slot
  unfolding abandoned_cell
  abandoned_slot true (some slot) left =
      some (record slot { backend = abandoned_cell slot.backend left })
  abandoned_slot called slot left = slot

  -- `DbSlot::backend` and its siblings: the cached outcome, or the outcome of connecting now.
  unfoldable pub slot_backend : Slot → W → Result EgressError cap.Backend × Slot × W
  unfolding get_or_init
  slot_backend slot w = get_or_init slot slot.backend w

  -- The drained metrics of the backend, if there is a slot and it connected.
  unfoldable pub slot_metrics : Option Slot → List Metric
  slot_metrics none = []
  slot_metrics (some slot) = elim slot.backend [
    | none ↦ []
    | some r ↦ elim r [ ok b ↦ cap.drain_metrics b | err e ↦ [] ]
  ]

  finish :
      Slot
      → Result EgressError String × cap.Backend × W
      → Result EgressError String × Option Slot × W
  finish slot (r, b, w) = (r, some (record slot { backend = some (ok b) }), w)

  run :
      String
      → Result EgressError Args
      → Result EgressError cap.Backend × Slot × W
      → Result EgressError String × Option Slot × W
  unfolding finish
  run action args (err e, slot, w) = (err e, some slot, w)
  run action (err e) (ok b, slot, w) = (err e, some slot, w)
  run action (ok args) (ok b, slot, w) = finish slot (cap.call action args b w)

  -- The common body of `call_db` and its siblings: a missing slot is `unset`, a backend that did
  -- not connect is its error, and only then the payload is looked at.
  unfoldable pub call_slot :
      EgressError
      → String
      → Result EgressError Args
      → Option Slot
      → W
      → Result EgressError String × Option Slot × W
  unfolding run slot_backend
  call_slot unset action args none w = (err unset, none, w)
  call_slot unset action args (some slot) w = run action args (slot_backend slot w)
