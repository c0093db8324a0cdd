-- ===== src/BackendSet/Errors.antt =====
-- backendset.rs: calls that no backend answers.
use fabricd.Base.{String, ◌≡◌, refl, none, ◌⊎◌, inl, inr, [], ◌∷◌, err, format}
use fabricd.Wire.{developer, Toolkit, IsToolkit}
use fabricd.Capability.{call_slot, call_producer}
use fabricd.BackendSet.Payloads.{Decoders}
use fabricd.BackendSet.Drivers.{DriverSet}
use fabricd.BackendSet.Laws.{IsUnknown, call_cases}
use fabricd.BackendSet.{
  BackendSet, not_configured, call_db, call_mongo, call_mail, call_redis, call_amq, call_auth,
  unknown_egress, call,
}

module _ {W Breaker : Type 0} (t : Toolkit) (laws : IsToolkit t) (upper : String → String)
    (d : DriverSet W Breaker) (decode : Decoders) (action payload : String)
    (set : BackendSet t upper d) (w : W) where
  unknown_egress-fields :
      (name : String)
      → ((unknown_egress t upper d decode name).code ≡ "IO_UNKNOWN")
        × ((unknown_egress t upper d decode name).source ≡ "engine")
        × ((unknown_egress t upper d decode name).owner ≡ developer)
  unfolding unknown_egress
  unknown_egress-fields name = rw laws.owner_set (laws.new_code _ _ _, laws.new_source _ _ _, refl)

  not_configured-fields :
      (name : String)
      → ((not_configured t upper d name).code ≡ format (upper name ∷ "_NOT_CONFIGURED" ∷ []))
        × ((not_configured t upper d name).source ≡ name)
        × ((not_configured t upper d name).owner ≡ developer)
  unfolding not_configured
  not_configured-fields name = rw laws.owner_set (laws.new_code _ _ _, laws.new_source _ _ _, refl)

  -- A call under a name that is no capability changes nothing and gives the developer's error
  -- IO_UNKNOWN of the engine.
  pub call_unknown :
      (name : String)
      → IsUnknown name
      → (call t upper d decode name action payload set w
          ≡ (err (unknown_egress t upper d decode name), set, w))
        × ((unknown_egress t upper d decode name).code ≡ "IO_UNKNOWN")
        × ((unknown_egress t upper d decode name).source ≡ "engine")
        × ((unknown_egress t upper d decode name).owner ≡ developer)
  call_unknown name unknown =
      let (code, source, owner) = unknown_egress-fields name in
      (
        call_cases t upper d decode action payload set w
            (λ n out. IsUnknown n → out ≡ (err (unknown_egress t upper d decode n), set, w)) name
            (λ h. absurd (h.0 refl)) (λ h. absurd (h.1 refl)) (λ h. absurd (h.2 refl))
            (λ h. absurd (h.3 refl)) (λ h. absurd (h.4 refl)) (λ h. absurd (h.5 refl)) (λ _ _. refl)
            unknown,
        code,
        source,
        owner,
      )

  -- The name is a capability that the session did not wire.
  abbrev pub IsUnwired : String → Type 0
  IsUnwired name =
      ((name ≡ "db") × (set.db ≡ none))
      ⊎ ((name ≡ "mongo") × (set.mongo ≡ none))
      ⊎ ((name ≡ "mail") × (set.mail ≡ none))
      ⊎ ((name ≡ "redis") × (set.redis ≡ none))
      ⊎ ((name ≡ "amq") × (set.amq ≡ none))
      ⊎ ((name ≡ "auth") × (set.auth ≡ none))

  call_of_unwired :
      (name : String)
      → IsUnwired name
      → call t upper d decode name action payload set w
        ≡ (err (not_configured t upper d name), set, w)
  unfolding call call_db call_mongo call_mail call_redis call_amq call_auth call_slot call_producer
  call_of_unwired name (inl (same, missing)) = rw same (rw missing)
  call_of_unwired name (inr (inl (same, missing))) = rw same (rw missing)
  call_of_unwired name (inr (inr (inl (same, missing)))) = rw same (rw missing)
  call_of_unwired name (inr (inr (inr (inl (same, missing))))) = rw same (rw missing)
  call_of_unwired name (inr (inr (inr (inr (inl (same, missing)))))) = rw same (rw missing)
  call_of_unwired name (inr (inr (inr (inr (inr (same, missing)))))) = rw same (rw missing)

  -- A call of a capability that was not wired changes nothing and gives the developer's error
  -- `<NAME>_NOT_CONFIGURED`, whose source is the capability.
  pub call_unwired :
      (name : String)
      → IsUnwired name
      → (call t upper d decode name action payload set w
          ≡ (err (not_configured t upper d name), set, w))
        × ((not_configured t upper d name).code ≡ format (upper name ∷ "_NOT_CONFIGURED" ∷ []))
        × ((not_configured t upper d name).source ≡ name)
        × ((not_configured t upper d name).owner ≡ developer)
  call_unwired name unwired =
      let (code, source, owner) = not_configured-fields name in
      (call_of_unwired name unwired, code, source, owner)
