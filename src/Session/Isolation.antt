-- ===== src/Session/Isolation.antt =====
-- main.rs: what a session depends on, and what it changes before it has opened.
use fabricd.Base.{ℕ, ◌≤◌, String, ◌≡◌, refl, ap, ◌∙◌, List, [], ◌∷◌, length, arith, Result, ok, err}
use fabricd.Wire.{Toolkit, WireInit, init, call, drain}
use fabricd.Resources.Table.{Table, ResolvedConfigs, ResolveError, resolve}
use fabricd.Resources.Spec.{SameFor, resolve-SameFor}
use fabricd.SaToken.Keys.{Jwt, Cache}
use fabricd.ClientAuth.{Authenticator, AuthReject, authenticate}
use fabricd.BackendSet.Payloads.{Decoders}
use fabricd.BackendSet.Drivers.{DriverSet}
use fabricd.Session.{
  Shared, Frame, request, broken, Process, open_resolved, open_authenticated, serve, closed,
}

module _ {W Breaker : Type 0} (t : Toolkit) (upper : String → String) (d : DriverSet W Breaker)
    (decode : Decoders) (jwt : Jwt) (p : Process t upper d) (shared : Shared Breaker)
    (a : Authenticator) (cache : Cache jwt.Key) (now : ℕ) where
  open_resolved-table :
      (other : Table) (i : WireInit) (frames : List Frame) (r : Result ResolveError ResolvedConfigs)
      (w : W)
      → open_resolved t upper d decode jwt p shared i frames r w
        ≡ open_resolved t upper d decode jwt p (record shared { table = other }) i frames r w
  unfolding open_resolved
  open_resolved-table other i frames (ok resolved) w = refl
  open_resolved-table other i frames (err e) w = refl

  open_authenticated-SameFor :
      (other : Table) (i : WireInit) (frames : List Frame) (r : Result AuthReject (Unit {0}))
      (w : W)
      → SameFor i.tenant shared.table other
      → open_authenticated t upper d decode jwt p shared i frames r w
        ≡ open_authenticated t upper d decode jwt p (record shared { table = other }) i frames r w
  unfolding open_authenticated
  open_authenticated-SameFor other i frames (err e) w same = refl
  open_authenticated-SameFor other i frames (ok _) w same =
      open_resolved-table other i frames (resolve shared.table i) w
      ∙ ap
          (λ r. open_resolved t upper d decode jwt p (record shared { table = other }) i frames r w)
          (resolve-SameFor shared.table other i same)

  -- A session runs the same, reply for reply, over any two tables that hold the same bindings for
  -- its tenant: what other tenants have bound shows in no frame, result, counter or effect.
  pub serve-SameFor :
      (other : Table) (i : WireInit) (frames : List Frame) (w : W)
      → SameFor i.tenant shared.table other
      → serve t upper d decode jwt p shared a cache now (request (init i) ∷ frames) w
        ≡ serve t upper d decode jwt p
            (record shared { table = other })
            a
            cache
            now
            (request (init i) ∷ frames)
            w
  unfolding serve
  serve-SameFor other i frames w same =
      open_authenticated-SameFor other i frames (authenticate t jwt cache now a i.token) w same

  -- The session opens: it begins with an `Init` whose token is accepted and whose names resolve.
  abbrev pub Opens : List Frame → Type 0
  Opens [] = ⊥
  Opens (broken e ∷ frames) = ⊥
  Opens (request (call c) ∷ frames) = ⊥
  Opens (request drain ∷ frames) = ⊥
  Opens (request (init i) ∷ frames) =
      (authenticate t jwt cache now a i.token ≡ ok tt)
      × ((c : ResolvedConfigs) × (resolve shared.table i ≡ ok c))

  open_resolved-unopened :
      (i : WireInit) (frames : List Frame) (r : Result ResolveError ResolvedConfigs) (w : W)
      → ¬ ((c : ResolvedConfigs) × (r ≡ ok c))
      → ((open_resolved t upper d decode jwt p shared i frames r w).world ≡ w)
        × (length (open_resolved t upper d decode jwt p shared i frames r w).sent ≤ 1)
  unfolding open_resolved
  open_resolved-unopened i frames (ok c) w closed = absurd (closed (c, refl))
  open_resolved-unopened i frames (err e) w closed = (ground arith, ground arith)

  open_authenticated-unopened :
      (i : WireInit) (frames : List Frame) (r : Result AuthReject (Unit {0})) (w : W)
      → ¬ ((r ≡ ok tt) × ((c : ResolvedConfigs) × (resolve shared.table i ≡ ok c)))
      → ((open_authenticated t upper d decode jwt p shared i frames r w).world ≡ w)
        × (length (open_authenticated t upper d decode jwt p shared i frames r w).sent ≤ 1)
  unfolding open_authenticated
  open_authenticated-unopened i frames (err e) w closed = (ground arith, ground arith)
  open_authenticated-unopened i frames (ok _) w closed =
      open_resolved-unopened i frames (resolve shared.table i) w (λ found. closed (refl, found))

  -- A session that does not open touches no driver: the world is as it was, and at most one frame
  -- is written, whatever else the client sends.
  pub serve_unopened :
      (frames : List Frame) (w : W)
      → ¬ Opens frames
      → ((serve t upper d decode jwt p shared a cache now frames w).world ≡ w)
        × (length (serve t upper d decode jwt p shared a cache now frames w).sent ≤ 1)
  unfolding serve
  serve_unopened [] w closed = (refl, omega arith)
  serve_unopened (broken e ∷ frames) w closed = (refl, omega arith)
  serve_unopened (request (call c) ∷ frames) w closed = (ground arith, ground arith)
  serve_unopened (request drain ∷ frames) w closed = (ground arith, ground arith)
  serve_unopened (request (init i) ∷ frames) w closed =
      open_authenticated-unopened i frames (authenticate t jwt cache now a i.token) w closed
