-- ===== src/ClientAuth.antt =====
-- crates/fabricd/src/auth.rs: the client authenticators of the remote transport.
pub mod Laws
use fabricd.Base.{
  ℕ, ◌*◌, String, Option, none, some, [], ◌∷◌, non_empty, if◌then◌else◌, Result, ok, err, map_err,
  map_ok, ok_or, and_then,
}
use fabricd.Wire.{Toolkit}
use fabricd.SaToken.Keys.{Jwt, Cache}
use fabricd.SaToken.{
  SaTokenVerifyConfig, default_config, verify_error_text, JwksVerifier, verify, ClientBuilder,
  RefreshTask, spawn,
}

abbrev pub unauthenticated : String
unauthenticated = "UNAUTHENTICATED"

pub record AuthReject : Type 0 where
  pub code : String
  pub message : String

-- `AuthReject::new`
unfoldable pub reject : String → AuthReject
reject message = record { code = unauthenticated; message = message }

pub data AuthMode : Type 0 where
  open_to_all static sa_token : AuthMode

pub record ClientAuthConfig : Type 0 where
  pub mode : AuthMode
  pub static_token : Option String
  pub previous_token : Option String
  pub audience : Option String
  pub issuer : Option String
  pub jwks_url : Option String
  pub ca_cert : Option String
  pub jwks_refresh_secs : Option ℕ

-- `ClientAuthConfig::default()`
abbrev pub default_auth : ClientAuthConfig
default_auth = record {
  mode = open_to_all;
  static_token = none;
  previous_token = none;
  audience = none;
  issuer = none;
  jwks_url = none;
  ca_cert = none;
  jwks_refresh_secs = none;
}

-- The three implementations of the trait `ClientAuthenticator`.
pub data Authenticator : Type 0 where
  accept_all : Authenticator
  shared_secret : (current : String) (previous : Option String) → Authenticator
  service_account : JwksVerifier → Authenticator

infixl 5 ◌>>=◌
abbrev ◌>>=◌ : {E A B : Type 0} → Result E A → (A → Result E B) → Result E B
r >>= f = and_then r f

module _ (b : ClientBuilder) where
  -- An authenticator, with the background task that `sa-token` starts.
  abbrev pub Built : Type 0
  Built = Authenticator × Option (RefreshTask b)

  refresh_of : SaTokenVerifyConfig → Option ℕ → SaTokenVerifyConfig
  refresh_of cfg none = cfg
  refresh_of cfg (some secs) = record cfg { refresh = secs * 1000 }

  unfoldable pub verify_config : ClientAuthConfig → String → String → SaTokenVerifyConfig
  unfolding default_config refresh_of
  verify_config cfg issuer audience =
      let base = default_config issuer audience in
      refresh_of (record base { jwks_url = non_empty cfg.jwks_url; ca_cert = cfg.ca_cert })
        cfg.jwks_refresh_secs

  unfoldable pub build_sa_token : ClientAuthConfig → Result String Built
  build_sa_token cfg = do
    issuer ← ok_or (non_empty cfg.issuer) "quic.auth.mode = sa-token requires an issuer"
    audience ← ok_or (non_empty cfg.audience) "quic.auth.mode = sa-token requires an audience"
    started ← map_err (λ e. e.message) (spawn b (verify_config cfg issuer audience))
    ok (service_account started.0, some started.1)

  unfoldable pub build_static : ClientAuthConfig → Result String Built
  build_static cfg = do
    current ←
        ok_or (non_empty cfg.static_token)
          "quic.auth.mode = static requires a non-empty static_token"
    ok (shared_secret current (non_empty cfg.previous_token), none)

  build_mode : AuthMode → ClientAuthConfig → Result String Built
  build_mode open_to_all cfg = ok (accept_all, none)
  build_mode static cfg = build_static cfg
  build_mode sa_token cfg = build_sa_token cfg

  unfoldable pub build : ClientAuthConfig → Result String Built
  unfolding build_mode build_static build_sa_token
  build cfg = build_mode cfg.mode cfg

module _ (t : Toolkit) where
  unfoldable pub matches_previous : String → Option String → Result AuthReject (Unit {0})
  unfolding reject
  matches_previous presented none = err (reject "client auth token rejected")
  matches_previous presented (some previous) =
      if t.ct_eq presented previous then ok tt else err (reject "client auth token rejected")

  unfoldable pub check_secret : String → Option String → String → Result AuthReject (Unit {0})
  unfolding matches_previous
  check_secret current previous presented =
      if t.ct_eq presented current then ok tt else matches_previous presented previous

  -- `authenticate`, at the key cache and the time of the call.
  unfoldable pub authenticate :
      (jwt : Jwt) → Cache jwt.Key → ℕ → Authenticator → Option String → Result AuthReject (Unit {0})
  unfolding check_secret reject verify_error_text
  authenticate jwt cache now accept_all token = ok tt
  authenticate jwt cache now (shared_secret current previous) none =
      err (reject "missing client auth token")
  authenticate jwt cache now (shared_secret current previous) (some presented) =
      check_secret current previous presented
  authenticate jwt cache now (service_account v) none = err (reject "missing client auth token")
  authenticate jwt cache now (service_account v) (some presented) =
      map_err (λ e. reject (verify_error_text e)) (verify jwt v cache now presented)
