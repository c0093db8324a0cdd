-- ===== src/BackendSet/Laws.antt =====
-- backendset.rs: dispatch by name, and which slots a call touches.
use mathlib.Core.Path.{subst}
use fabricd.Base.{
  String, ◌≡◌, refl, sym, ◌≢◌, ◌⊎◌, ◌==◌, eq_iff, if◌then◌else◌, err, Bool-cases, inl, inr,
}
use fabricd.Wire.{Toolkit}
use fabricd.BackendSet.Payloads.{Decoders}
use fabricd.BackendSet.Drivers.{DriverSet}
use fabricd.BackendSet.{
  BackendSet, Outcome, call_db, call_mongo, call_mail, call_redis, call_amq, call_auth,
  unknown_egress, call,
}

-- One test of the dispatch.
test_case :
    {A : Type 0} (P : String → A → Type 0) (name s : String) (here later : A)
    → P s here
    → (name ≢ s → P name later)
    → P name (if name == s then here else later)
test_case P name s here later h k = elim (Bool-cases (name == s)) [
  | inl same ↦ rw same (subst (λ n. P n here) (sym ((eq_iff name s).0 same)) h)
  | inr other ↦ rw other (k (λ e. cc (other, (eq_iff name s).1 e)))
]

abbrev pub IsUnknown : String → Type 0
IsUnknown name =
    (name ≢ "db")
    × (name ≢ "mongo")
    × (name ≢ "mail")
    × (name ≢ "redis")
    × (name ≢ "amq")
    × (name ≢ "auth")

module _ {W Breaker : Type 0} (t : Toolkit) (upper : String → String) (d : DriverSet W Breaker)
    (decode : Decoders) where
  module _ (action payload : String) (set : BackendSet t upper d) (w : W) where
    -- To prove something of every call it is enough to prove it of the six capabilities and of a
    -- name that is none of them.
    pub call_cases :
        (P : String → Outcome t upper d decode → Type 0) (name : String)
        → P "db" (call_db t upper d decode action payload set w)
        → P "mongo" (call_mongo t upper d decode action payload set w)
        → P "mail" (call_mail t upper d decode action payload set w)
        → P "redis" (call_redis t upper d decode action payload set w)
        → P "amq" (call_amq t upper d decode action payload set w)
        → P "auth" (call_auth t upper d decode action payload set w)
        → (IsUnknown name → P name (err (unknown_egress t upper d decode name), set, w))
        → P name (call t upper d decode name action payload set w)
    unfolding call
    call_cases P name db mongo mail redis amq auth other = test_case P name "db" _ _ db λ n₁.
        test_case P name "mongo" _ _ mongo λ n₂. test_case P name "mail" _ _ mail λ n₃.
          test_case P name "redis" _ _ redis λ n₄.
            test_case P name "amq" _ _ amq
              λ n₅. test_case P name "auth" _ _ auth λ n₆. other (n₁, n₂, n₃, n₄, n₅, n₆)

    -- A call changes at most the slot of the capability that it names.
    pub call_frame :
        (name : String)
        → let after : BackendSet t upper d = (call t upper d decode name action payload set w).1 in
          ((name ≡ "db") ⊎ (after.db ≡ set.db))
          × ((name ≡ "mongo") ⊎ (after.mongo ≡ set.mongo))
          × ((name ≡ "mail") ⊎ (after.mail ≡ set.mail))
          × ((name ≡ "redis") ⊎ (after.redis ≡ set.redis))
          × ((name ≡ "amq") ⊎ (after.amq ≡ set.amq))
          × ((name ≡ "auth") ⊎ (after.auth ≡ set.auth))
    unfolding call_db call_mongo call_mail call_redis call_amq call_auth
    call_frame name =
        call_cases
          (λ n out.
            ((n ≡ "db") ⊎ (out.1.db ≡ set.db))
            × ((n ≡ "mongo") ⊎ (out.1.mongo ≡ set.mongo))
            × ((n ≡ "mail") ⊎ (out.1.mail ≡ set.mail))
            × ((n ≡ "redis") ⊎ (out.1.redis ≡ set.redis))
            × ((n ≡ "amq") ⊎ (out.1.amq ≡ set.amq))
            × ((n ≡ "auth") ⊎ (out.1.auth ≡ set.auth)))
          name (inl refl, inr refl, inr refl, inr refl, inr refl, inr refl)
          (inr refl, inl refl, inr refl, inr refl, inr refl, inr refl)
          (inr refl, inr refl, inl refl, inr refl, inr refl, inr refl)
          (inr refl, inr refl, inr refl, inl refl, inr refl, inr refl)
          (inr refl, inr refl, inr refl, inr refl, inl refl, inr refl)
          (inr refl, inr refl, inr refl, inr refl, inr refl, inl refl)
          (λ _. (inr refl, inr refl, inr refl, inr refl, inr refl, inr refl))
