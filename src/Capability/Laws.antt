-- ===== src/Capability/Laws.antt =====
-- backendset.rs: repeated uses of a slot, and the metrics and config of a slot over a call.
use mathlib.Core.List.{append-nil}
use fabricd.Base.{
  Bool, true, false, String, ◌≡◌, refl, sym, Option, none, some, List, [], ◌++◌, inl, inr, Result,
  ok, err, Option-cases, Result-cases,
}
use fabricd.Wire.{EgressError}
use fabricd.Capability.{
  Capability, Slot, slot_backend, slot_metrics, call_slot, abandoned_slot, abandoned_cell,
}

-- A call of the driver keeps the recorded metrics.
pub record IsMetered {W Config Args Metric : Type 0} (cap : Capability W Config Args Metric)
    : Type 0 where
  pub call_keeps :
      (action : String) (args : Args) (b : cap.Backend) (w : W)
      → (more : List Metric) × (cap.drain_metrics (cap.call action args b w).1
          ≡ cap.drain_metrics b ++ more)

module _ {W Config Args Metric : Type 0} (cap : Capability W Config Args Metric) where
  -- After the first use of a slot, later uses give the same backend or the same error, at any later
  -- time, and neither touch the world nor change the slot: it connects once, and an error is cached.
  pub slot_backend_once :
      (slot : Slot cap) (w later : W)
      → slot_backend cap (slot_backend cap slot w).1 later
        ≡ ((slot_backend cap slot w).0, (slot_backend cap slot w).1, later)
  unfolding slot_backend
  slot_backend_once slot w later = elim (Option-cases slot.backend) [
    | inl empty ↦ rw empty refl
    | inr (r, filled) ↦ rw filled refl
  ]

  module _ (metered : IsMetered cap) where
    by_cell :
        (unset : EgressError) (action : String) (args : Result EgressError Args) (config : Config)
        (cell : Option (Result EgressError cap.Backend)) (w : W)
        → let slot : Slot cap = record { config = config; backend = cell } in
          (more : List Metric) × (slot_metrics cap (call_slot cap unset action args (some slot) w).1
            ≡ slot_metrics cap (some slot) ++ more)
    unfolding call_slot slot_metrics
    by_cell unset action args config none w = (_, refl)
    by_cell unset action args config (some (err e)) w = ([], refl)
    by_cell unset action (err e) config (some (ok b)) w = ([], sym (append-nil _))
    by_cell unset action (ok args) config (some (ok b)) w = metered.call_keeps action args b w

    -- A call only adds to the metrics of its slot, whether it succeeds or fails.
    pub call_slot-metrics :
        (unset : EgressError) (action : String) (args : Result EgressError Args)
        (slot : Option (Slot cap)) (w : W)
        → (more : List Metric) × (slot_metrics cap (call_slot cap unset action args slot w).1
            ≡ slot_metrics cap slot ++ more)
    unfolding call_slot slot_metrics
    call_slot-metrics unset action args none w = ([], refl)
    call_slot-metrics unset action args (some slot) w =
        by_cell unset action args slot.config slot.backend w

module _ {W Config Args Metric : Type 0} (cap : Capability W Config Args Metric) where
  abbrev pub slot_config : Option (Slot cap) → Option Config
  slot_config none = none
  slot_config (some slot) = some slot.config

  config_by_cell :
      (unset : EgressError) (action : String) (args : Result EgressError Args) (config : Config)
      (cell : Option (Result EgressError cap.Backend)) (w : W)
      → let slot : Slot cap = record { config = config; backend = cell } in
        slot_config (call_slot cap unset action args (some slot) w).1 ≡ some config
  unfolding call_slot
  config_by_cell unset action (err e) config none w = elim (Result-cases (cap.connect config w).0) [
    | inl (b, e) ↦ rw e refl
    | inr (x, e) ↦ rw e refl
  ]
  config_by_cell unset action (ok args) config none w =
      elim (Result-cases (cap.connect config w).0) [
        | inl (b, e) ↦ rw e refl
        | inr (x, e) ↦ rw e refl
      ]
  config_by_cell unset action args config (some (err e)) w = refl
  config_by_cell unset action (err e) config (some (ok b)) w = refl
  config_by_cell unset action (ok args) config (some (ok b)) w = refl

  -- A call keeps the config that its slot was wired with.
  pub call_slot-config :
      (unset : EgressError) (action : String) (args : Result EgressError Args)
      (slot : Option (Slot cap)) (w : W)
      → slot_config (call_slot cap unset action args slot w).1 ≡ slot_config slot
  unfolding call_slot
  call_slot-config unset action args none w = refl
  call_slot-config unset action args (some slot) w =
      config_by_cell unset action args slot.config slot.backend w

  pub abandoned_slot-config :
      (called : Bool) (slot : Option (Slot cap)) (left : Option (Result EgressError cap.Backend))
      → slot_config (abandoned_slot cap called slot left) ≡ slot_config slot
  unfolding abandoned_slot
  abandoned_slot-config true none left = refl
  abandoned_slot-config true (some slot) left = refl
  abandoned_slot-config false slot left = refl

  -- A panic that left nothing.
  pub abandoned_slot-none :
      (called : Bool) (slot : Option (Slot cap)) → abandoned_slot cap called slot none ≡ slot
  unfolding abandoned_slot abandoned_cell
  abandoned_slot-none true none = refl
  abandoned_slot-none true (some slot) = by_cell slot.config slot.backend
    where
      by_cell :
          (config : Config) (cell : Option (Result EgressError cap.Backend))
          → abandoned_slot cap true (some (record { config = config; backend = cell })) none
            ≡ some (record { config = config; backend = cell })
      by_cell config none = refl
      by_cell config (some (ok b)) = refl
      by_cell config (some (err e)) = refl
  abandoned_slot-none false slot = refl
