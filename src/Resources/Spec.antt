-- ===== src/Resources/Spec.antt =====
-- resources.rs: resolution against what the session's tenant may see.
use fabricd.Base.{
  String, ◌≡◌, refl, ap, ◌∙◌, ◌↔◌, inl, inr, Option-cases, Option, none, some, arith, opt_eq,
  opt_eq_iff, if◌then◌else◌, Result, ok, err, and_then-eq-ok,
}
use fabricd.Wire.{WireInit}
use fabricd.Resources.Binding.{
  ResourceBinding, TenantResourceBinding, as_db, as_mongo, as_mail, as_redis, as_amq, as_auth,
}
use fabricd.Resources.Table.{
  ResolvedConfigs, ResolveError, not_found, kind_mismatch, Table, pick_entry, pick, resolve,
}

-- The entry as a session of `tenant` may see it.
abbrev pub visible_entry : Option String → Option TenantResourceBinding → Option ResourceBinding
visible_entry tenant none = none
visible_entry tenant (some entry) = if opt_eq entry.tenant tenant then some entry.binding else none

abbrev pub visible : Option String → Table → String → Option ResourceBinding
visible tenant table name = visible_entry tenant (table name)

-- Two tables hold the same bindings for `tenant`, whatever they hold for others.
abbrev pub SameFor : Option String → Table → Table → Type 0
SameFor tenant s t = (name : String) → visible tenant s name ≡ visible tenant t name

module _ {T : Type 0} (tenant : Option String) (kind : String)
    (extract : ResourceBinding → Option T) where
  -- The answer for a visible binding, which is all that `pick` depends on.
  abbrev answer : String → Option ResourceBinding → Result ResolveError (Option T)
  answer name none = err (not_found name)
  answer name (some binding) = elim (extract binding) [
    | none ↦ err (kind_mismatch name kind)
    | some cfg ↦ ok (some cfg)
  ]

  pick_entry-visible :
      (name : String) (entry : Option TenantResourceBinding)
      → pick_entry tenant kind extract name entry ≡ answer name (visible_entry tenant entry)
  unfolding pick_entry
  pick_entry-visible name none = refl
  pick_entry-visible name (some entry) = ground arith

  pick_same :
      (s t : Table)
      → SameFor tenant s t
      → (name : Option String) → pick tenant kind extract s name ≡ pick tenant kind extract t name
  unfolding pick
  pick_same s t same none = refl
  pick_same s t same (some name) =
      rw (pick_entry-visible name (s name), pick_entry-visible name (t name))
        (ap (answer name) (same name))

  -- The outcomes of one selection: left out, or a binding of this tenant of the right kind.
  abbrev pub Selects : Table → Option String → Option T → Type 0
  Selects table none out = out ≡ none
  Selects table (some name) out =
      (entry : TenantResourceBinding) × (cfg : T) × (table name ≡ some entry)
      × (entry.tenant ≡ tenant)
      × (extract entry.binding ≡ some cfg)
      × (out ≡ some cfg)

  pick_entry-eq-ok :
      (name : String) (entry : TenantResourceBinding) (out : Option T)
      → pick_entry tenant kind extract name (some entry) ≡ ok out
      → (cfg : T) × (entry.tenant ≡ tenant) × (extract entry.binding ≡ some cfg) × (out ≡ some cfg)
  unfolding pick_entry
  pick_entry-eq-ok name entry out e = elim (Option-cases (extract entry.binding)) [
    | inl other ↦ absurd (ground (arith, other))
    | inr (cfg, found) ↦ (cfg, ground (arith, opt_eq_iff entry.tenant tenant), found, ground arith)
  ]

  pick_sound :
      (table : Table) (name : Option String) (out : Option T)
      → pick tenant kind extract table name ≡ ok out
      → Selects table name out
  unfolding pick
  pick_sound table none out e = ground arith
  pick_sound table (some name) out e = elim (Option-cases (table name)) [
    | inl missing ↦ absurd (unfold pick_entry in ground (arith, missing))
    | inr (entry, found) ↦
        let (cfg, authorised, extracted, same) = pick_entry-eq-ok name entry out (rw found at e) in
        (entry, cfg, found, authorised, extracted, same)
  ]

  pick_complete :
      (table : Table) (name : Option String) (out : Option T)
      → Selects table name out
      → pick tenant kind extract table name ≡ ok out
  unfolding pick pick_entry
  pick_complete table none out h = ground arith
  pick_complete table (some name) out (entry, cfg, listed, authorised, extracted, same) =
      rw listed (ground (arith, opt_eq_iff entry.tenant tenant))

-- All six selections of a session.
pub record IsResolved (table : Table) (init : WireInit) (c : ResolvedConfigs) : Type 0 where
  pub db : Selects init.tenant "db" as_db table init.db c.db
  pub mongo : Selects init.tenant "mongo" as_mongo table init.mongo c.mongo
  pub mail : Selects init.tenant "mail" as_mail table init.mail c.mail
  pub redis : Selects init.tenant "redis" as_redis table init.redis c.redis
  pub amq : Selects init.tenant "amq" as_amq table init.amq c.amq
  pub auth : Selects init.tenant "auth" as_auth table init.auth c.auth

resolve_sound :
    (table : Table) (init : WireInit) (c : ResolvedConfigs)
    → resolve table init ≡ ok c
    → IsResolved table init c
unfolding resolve
resolve_sound table init c e =
    let (a, pa, ea) = and_then-eq-ok _ _ e in
    let (b, pb, eb) = and_then-eq-ok _ _ ea in
    let (m, pm, em) = and_then-eq-ok _ _ eb in
    let (r, pr, er) = and_then-eq-ok _ _ em in
    let (q, pq, eq) = and_then-eq-ok _ _ er in
    let (u, pu, eu) = and_then-eq-ok _ _ eq in
    record {
      db = pick_sound init.tenant "db" as_db table init.db c.db (pa ∙ ap ok (cc eu));
      mongo = pick_sound init.tenant "mongo" as_mongo table init.mongo c.mongo (pb ∙ ap ok (cc eu));
      mail = pick_sound init.tenant "mail" as_mail table init.mail c.mail (pm ∙ ap ok (cc eu));
      redis = pick_sound init.tenant "redis" as_redis table init.redis c.redis (pr ∙ ap ok (cc eu));
      amq = pick_sound init.tenant "amq" as_amq table init.amq c.amq (pq ∙ ap ok (cc eu));
      auth = pick_sound init.tenant "auth" as_auth table init.auth c.auth (pu ∙ ap ok (cc eu));
    }

resolve_complete :
    (table : Table) (init : WireInit) (c : ResolvedConfigs)
    → IsResolved table init c
    → resolve table init ≡ ok c
unfolding resolve
resolve_complete table init c h =
    rw
      (
        pick_complete init.tenant "db" as_db table init.db c.db h.db,
        pick_complete init.tenant "mongo" as_mongo table init.mongo c.mongo h.mongo,
        pick_complete init.tenant "mail" as_mail table init.mail c.mail h.mail,
        pick_complete init.tenant "redis" as_redis table init.redis c.redis h.redis,
        pick_complete init.tenant "amq" as_amq table init.amq c.amq h.amq,
        pick_complete init.tenant "auth" as_auth table init.auth c.auth h.auth,
      )
      refl

-- Resolution succeeds with `c` exactly when each of the six fields of `c` is empty where the session
-- names nothing, and otherwise is the config of a binding under that name whose tenant is the
-- session's and whose kind is the field's.
pub resolve_iff :
    (table : Table) (init : WireInit) (c : ResolvedConfigs)
    → (resolve table init ≡ ok c) ↔ IsResolved table init c
resolve_iff table init c = (resolve_sound table init c, resolve_complete table init c)

-- Two tables that hold the same bindings for the session's tenant give the session the same answer,
-- configs or error, whatever they hold for other tenants.
pub resolve-SameFor :
    (s t : Table) (init : WireInit) → SameFor init.tenant s t → resolve s init ≡ resolve t init
unfolding resolve
resolve-SameFor s t init same =
    rw
      (
        pick_same init.tenant "db" as_db s t same init.db,
        pick_same init.tenant "mongo" as_mongo s t same init.mongo,
        pick_same init.tenant "mail" as_mail s t same init.mail,
        pick_same init.tenant "redis" as_redis s t same init.redis,
        pick_same init.tenant "amq" as_amq s t same init.amq,
        pick_same init.tenant "auth" as_auth s t same init.auth,
      )
      refl
