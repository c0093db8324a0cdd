-- ===== src/SaToken.antt =====
-- crates/fabric-backends/src/sa_token.rs: offline verification of ServiceAccount tokens against a
-- cache of the cluster's keys, which a background task refreshes.
pub mod Keys
pub mod Refresh
pub mod Laws
use fabricd.Base.{
  ℕ, ◌*◌, String, true, Option, none, some, List, [], ◌∷◌, max, format, Result, ok, err, map_err,
  ok_or, and_then,
}
use fabricd.Wire.{operator, Fault, EgressError}
use fabricd.SaToken.Keys.{Jwt, Cache, poisoned, cached}

abbrev pub sa_token_unavailable : Fault
sa_token_unavailable = record { code = "SA_TOKEN_UNAVAILABLE"; retryable = true; owner = operator }

abbrev pub default_refresh_secs : ℕ
default_refresh_secs = 300

-- Durations are in milliseconds.
abbrev pub min_refresh : ℕ
min_refresh = 1000

pub record SaTokenVerifyConfig : Type 0 where
  pub issuer : String
  pub jwks_url : Option String
  pub audience : String
  pub ca_cert : Option String
  pub refresh : ℕ

-- `SaTokenVerifyConfig::new`
unfoldable pub default_config : String → String → SaTokenVerifyConfig
default_config issuer audience = record {
  issuer = issuer;
  jwks_url = none;
  audience = audience;
  ca_cert = none;
  refresh = default_refresh_secs * 1000;
}

pub data VerifyError : Type 0 where
  keys_not_loaded missing_kid unknown_kid internal : VerifyError
  invalid : String → VerifyError

-- `Display for VerifyError`
unfoldable pub verify_error_text : VerifyError → String
verify_error_text keys_not_loaded = "sa-token verifier not ready (JWKS not loaded)"
verify_error_text missing_kid = "token header missing kid"
verify_error_text unknown_kid = "no JWKS key matches the token kid"
verify_error_text (invalid reason) = format ("token invalid: " ∷ reason ∷ [])
verify_error_text internal = "internal verifier error"

-- The fields of the verifier that never change; its key cache is an argument of `verify`.
pub record JwksVerifier : Type 0 where
  pub audience : String
  pub issuer : String

infixl 5 ◌>>=◌
abbrev ◌>>=◌ : {E A B : Type 0} → Result E A → (A → Result E B) → Result E B
r >>= f = and_then r f

module _ (jwt : Jwt) where
  unfoldable pub validation : JwksVerifier → jwt.Validation
  validation v = jwt.set_issuer (v.issuer ∷ []) (jwt.set_audience (v.audience ∷ []) (jwt.rs256 tt))

  -- The read lock on the cache, and the lookup of the kid.
  unfoldable pub find_key : Cache jwt.Key → String → Result VerifyError jwt.Key
  find_key poisoned kid = err internal
  find_key (cached none) kid = err keys_not_loaded
  find_key (cached (some keys)) kid = ok_or (keys kid) unknown_kid

  -- `now` is the time that `decode` compares the token's expiry with.
  unfoldable pub verify : JwksVerifier → Cache jwt.Key → ℕ → String → Result VerifyError (Unit {0})
  unfolding find_key validation
  verify v cache now token = do
    header ← map_err invalid (jwt.decode_header token)
    kid ← ok_or header missing_kid
    key ← find_key cache kid
    map_err invalid (jwt.decode now token key (validation v))

-- `build_client`: the files and the HTTP client builder are parameters.
pub record ClientBuilder : Type 1 where
  pub Client : Type 0
  pub Certificate : Type 0
  pub read : String → Result String String
  pub from_pem_bundle : String → Result String (List Certificate)
  pub build : List Certificate → Result String Client

unfoldable pub client_error : String → EgressError
client_error message = record {
  code = sa_token_unavailable.code;
  message = message;
  source = "sa-token";
  details = none;
  retryable = sa_token_unavailable.retryable;
  owner = sa_token_unavailable.owner;
}

module _ (b : ClientBuilder) where
  read_certificates : Option String → Result EgressError (List b.Certificate)
  read_certificates none = ok []
  read_certificates (some path) = do
    pem ←
        map_err (λ e. client_error (format ("read ca_cert " ∷ path ∷ ": " ∷ e ∷ []))) (b.read path)
    map_err (λ e. client_error (format ("parse ca_cert bundle: " ∷ e ∷ []))) (b.from_pem_bundle pem)

  unfoldable pub build_client : Option String → Result EgressError b.Client
  unfolding client_error read_certificates
  build_client ca_cert = do
    certs ← read_certificates ca_cert
    map_err (λ e. client_error (format ("build JWKS client: " ∷ e ∷ []))) (b.build certs)

  -- What `spawn` hands to the background task, beside the verifier that it returns.
  pub record RefreshTask : Type 0 where
    pub client : b.Client
    pub issuer : String
    pub jwks_url : Option String
    pub interval : ℕ

  -- `JwksVerifier::spawn`; the cache starts as `cached none`.
  unfoldable pub spawn : SaTokenVerifyConfig → Result EgressError (JwksVerifier × RefreshTask)
  unfolding build_client
  spawn config = do
    client ← build_client config.ca_cert
    let verifier : JwksVerifier = record { audience = config.audience; issuer = config.issuer }
    let task : RefreshTask = record {
      client = client;
      issuer = config.issuer;
      jwks_url = config.jwks_url;
      interval = max config.refresh min_refresh;
    }
    ok (verifier, task)
