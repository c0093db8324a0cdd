-- ===== src/ClientAuth/Laws.antt =====
-- auth.rs: the tokens that each authenticator accepts, and the authenticators that are built.
use fabricd.Base.{
  ℕ, String, ◌≡◌, refl, sym, ap, ◌∙◌, ◌≢◌, ◌↔◌, ◌⊎◌, inl, inr, Option, none, some, arith, eq_iff,
  non_empty, ok, and_then-eq-ok, map_err-eq-ok, ok_or-eq-ok,
}
use fabricd.Wire.{Toolkit, IsToolkit}
use fabricd.SaToken.Keys.{Jwt, Cache}
use fabricd.SaToken.{JwksVerifier, ClientBuilder}
use fabricd.SaToken.Laws.{IsSigned, verify_iff, spawn_interval}
use fabricd.ClientAuth.{
  AuthMode, ClientAuthConfig, open_to_all, static, sa_token, Authenticator, accept_all,
  shared_secret, service_account, Built, build, build_mode, build_static, build_sa_token,
  verify_config, matches_previous, check_secret, authenticate,
}

pub non_empty-eq-some :
    (o : Option String) {s : String} → non_empty o ≡ some s → (o ≡ some s) × (s ≢ "")
non_empty-eq-some none e = cc
non_empty-eq-some (some x) {s} e = (ground arith, λ p. ground (arith, eq_iff x ""))

-- What a successful build has checked, by mode.
abbrev pub IsBuilt : AuthMode → ClientAuthConfig → Authenticator → Type 0
IsBuilt open_to_all cfg a = a ≡ accept_all
IsBuilt static cfg a =
    (current : String) × (cfg.static_token ≡ some current)
    × (current ≢ "")
    × (a ≡ shared_secret current (non_empty cfg.previous_token))
IsBuilt sa_token cfg a =
    (v : JwksVerifier) × (a ≡ service_account v)
    × (cfg.issuer ≡ some v.issuer)
    × (v.issuer ≢ "")
    × (cfg.audience ≡ some v.audience)
    × (v.audience ≢ "")

module _ (b : ClientBuilder) (cfg : ClientAuthConfig) where
  verify_config-names :
      (issuer audience : String)
      → ((verify_config b cfg issuer audience).issuer ≡ issuer)
        × ((verify_config b cfg issuer audience).audience ≡ audience)
  unfolding verify_config
  verify_config-names issuer audience = ground arith

  build_static-IsBuilt :
      (built : Built b) → build_static b cfg ≡ ok built → IsBuilt static cfg built.0
  unfolding build_static
  build_static-IsBuilt built e =
      let (current, given, same) = and_then-eq-ok _ _ e in
      let (set, proper) = non_empty-eq-some cfg.static_token (ok_or-eq-ok _ _ given) in
      (current, set, proper, ground arith)

  build_sa_token-IsBuilt :
      (built : Built b) → build_sa_token b cfg ≡ ok built → IsBuilt sa_token cfg built.0
  unfolding build_sa_token
  build_sa_token-IsBuilt built e =
      let (issuer, p, e₁) = and_then-eq-ok _ _ e in
      let (audience, q, e₂) = and_then-eq-ok _ _ e₁ in
      let ((v, task), r, same) = and_then-eq-ok _ _ e₂ in
      let (_, _, same_issuer, same_audience, _) =
        spawn_interval b (verify_config b cfg issuer audience) v task (map_err-eq-ok _ _ r) in
      let (names_issuer, names_audience) = verify_config-names issuer audience in
      let is_issuer : v.issuer ≡ issuer = same_issuer ∙ names_issuer in
      let is_audience : v.audience ≡ audience = same_audience ∙ names_audience in
      let (set_issuer, proper_issuer) = non_empty-eq-some cfg.issuer (ok_or-eq-ok _ _ p) in
      let (set_audience, proper_audience) = non_empty-eq-some cfg.audience (ok_or-eq-ok _ _ q) in
      (
        v,
        ground arith,
        set_issuer ∙ ap some (sym is_issuer),
        λ h. proper_issuer (sym is_issuer ∙ h),
        set_audience ∙ ap some (sym is_audience),
        λ h. proper_audience (sym is_audience ∙ h),
      )

  build_mode-IsBuilt :
      (mode : AuthMode) (built : Built b)
      → build_mode b mode cfg ≡ ok built
      → IsBuilt mode cfg built.0
  unfolding build_mode
  build_mode-IsBuilt open_to_all built e = ground arith
  build_mode-IsBuilt static built e = build_static-IsBuilt built e
  build_mode-IsBuilt sa_token built e = build_sa_token-IsBuilt built e

  -- A build that succeeds gives the authenticator of the configured mode: in mode `static` with the
  -- configured secret, which is not empty, and in mode `sa-token` with a verifier of the configured
  -- issuer and audience, neither of them empty.
  pub build-IsBuilt : (built : Built b) → build b cfg ≡ ok built → IsBuilt cfg.mode cfg built.0
  unfolding build
  build-IsBuilt built e = build_mode-IsBuilt cfg.mode built e

module _ (t : Toolkit) (laws : IsToolkit t) (jwt : Jwt) (cache : Cache jwt.Key) (now : ℕ) where
  -- What a presented token has to be.
  abbrev pub Accepts : Authenticator → Option String → Type 0
  Accepts accept_all token = Unit
  Accepts (shared_secret current previous) none = ⊥
  Accepts (shared_secret current previous) (some presented) =
      (presented ≡ current) ⊎ (previous ≡ some presented)
  Accepts (service_account v) none = ⊥
  Accepts (service_account v) (some presented) = IsSigned jwt v cache now presented

  matches_previous_iff :
      (presented : String) (previous : Option String)
      → (matches_previous t presented previous ≡ ok tt) ↔ (previous ≡ some presented)
  unfolding matches_previous
  matches_previous_iff presented none = (λ h. cc, λ h. cc)
  matches_previous_iff presented (some previous) = (
    λ h. ground (arith, laws.ct_eq_iff presented previous),
    λ h. ground (arith, laws.ct_eq_iff presented previous),
  )

  check_secret_iff :
      (current : String) (previous : Option String) (presented : String)
      → (check_secret t current previous presented ≡ ok tt)
        ↔ ((presented ≡ current) ⊎ (previous ≡ some presented))
  unfolding check_secret
  check_secret_iff current previous presented = (
    λ h. grind (arith, laws.ct_eq_iff presented current, matches_previous_iff presented previous),
    λ h. grind (arith, laws.ct_eq_iff presented current, matches_previous_iff presented previous),
  )

  -- An authenticator accepts exactly: any session without client auth; the current or the previous
  -- secret in mode `static`; a token that the verifier accepts in mode `sa-token`.
  pub authenticate_iff :
      (a : Authenticator) (token : Option String)
      → (authenticate t jwt cache now a token ≡ ok tt) ↔ Accepts a token
  unfolding authenticate
  authenticate_iff accept_all token = (λ _. tt, λ _. refl)
  authenticate_iff (shared_secret current previous) none = (λ h. cc, λ h. absurd h)
  authenticate_iff (shared_secret current previous) (some presented) =
      check_secret_iff current previous presented
  authenticate_iff (service_account v) none = (λ h. cc, λ h. absurd h)
  authenticate_iff (service_account v) (some presented) = (
    λ h. (verify_iff jwt v cache now presented).0 (map_err-eq-ok _ _ h),
    λ h. rw ((verify_iff jwt v cache now presented).1 h),
  )

  IsBuilt-rejects_none :
      (mode : AuthMode) (cfg : ClientAuthConfig) (a : Authenticator)
      → IsBuilt mode cfg a
      → mode ≢ open_to_all
      → ¬ Accepts a none
  IsBuilt-rejects_none open_to_all cfg a made closed h = absurd (closed refl)
  IsBuilt-rejects_none static cfg a (_, _, _, same) closed h = rw same at h
  IsBuilt-rejects_none sa_token cfg a (_, same, _, _, _, _) closed h = rw same at h

  not-Accepts-empty :
      (current : String) (previous : Option String)
      → current ≢ ""
      → ¬ Accepts (shared_secret current (non_empty previous)) (some "")
  not-Accepts-empty current previous proper (inl e) = proper (sym e)
  not-Accepts-empty current previous proper (inr e) = (non_empty-eq-some previous e).1 refl

  IsBuilt-rejects_empty :
      (mode : AuthMode) (cfg : ClientAuthConfig) (a : Authenticator)
      → IsBuilt mode cfg a
      → mode ≡ static
      → ¬ Accepts a (some "")
  IsBuilt-rejects_empty open_to_all cfg a made e h = cc
  IsBuilt-rejects_empty static cfg a (current, _, proper, same) e h =
      not-Accepts-empty current cfg.previous_token proper (rw same at h)
  IsBuilt-rejects_empty sa_token cfg a made e h = cc

  -- A built authenticator of mode `static` or `sa-token` rejects a session with no token.
  pub build_rejects :
      (b : ClientBuilder) (cfg : ClientAuthConfig) (built : Built b)
      → build b cfg ≡ ok built
      → cfg.mode ≢ open_to_all
      → authenticate t jwt cache now built.0 none ≢ ok tt
  build_rejects b cfg built e closed accepted =
      IsBuilt-rejects_none cfg.mode cfg built.0 (build-IsBuilt b cfg built e) closed
        ((authenticate_iff built.0 none).0 accepted)

  -- A built authenticator of mode `static` rejects the empty token, also where the configured
  -- previous token is empty.
  pub build_rejects_empty :
      (b : ClientBuilder) (cfg : ClientAuthConfig) (built : Built b)
      → build b cfg ≡ ok built
      → cfg.mode ≡ static
      → authenticate t jwt cache now built.0 (some "") ≢ ok tt
  build_rejects_empty b cfg built e is_static accepted =
      IsBuilt-rejects_empty cfg.mode cfg built.0 (build-IsBuilt b cfg built e) is_static
        ((authenticate_iff built.0 (some "")).0 accepted)
