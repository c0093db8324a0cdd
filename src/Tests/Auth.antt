-- ===== src/Tests/Auth.antt =====
-- auth.rs and sa_token.rs on plain tokens and a key server of one key.
use fabricd.Base.{ℕ, ◌≡◌, refl, inr, none, some, [], ◌∷◌, ok}
use fabricd.SaToken.Keys.{cached, build_key_map}
use fabricd.SaToken.Refresh.{refresh_loop}
use fabricd.SaToken.{JwksVerifier, verify, RefreshTask, SaTokenVerifyConfig, spawn}
use fabricd.SaToken.Laws.{
  IsSigned, verify_iff, build_key_map-eq-last_usable, refresh_loop-latest, latest, fetches,
}
use fabricd.ClientAuth.{
  ClientAuthConfig, default_auth, static, shared_secret, Built, build, authenticate,
}
use fabricd.ClientAuth.Laws.{IsBuilt, build-IsBuilt, authenticate_iff}
use fabricd.Tests.Fixtures.{toolkit, toolkit-IsToolkit, plain_jwt, key_server, files}

abbrev pub verifier : JwksVerifier
verifier = record { audience = "fabricd"; issuer = "https://issuer" }

abbrev idle : ℕ → ℕ
idle w = w

accepts_current :
    authenticate toolkit plain_jwt (cached none) 0 (shared_secret "new" (some "old")) (some "old")
    ≡ ok tt
unfolding authenticate
accepts_current = refl

authenticate_iff_example :
    authenticate toolkit plain_jwt (cached none) 0 (shared_secret "new" (some "old")) (some "old")
    ≡ ok tt
authenticate_iff_example =
    (authenticate_iff toolkit toolkit-IsToolkit plain_jwt (cached none) 0
        (shared_secret "new" (some "old")) (some "old")).1
      (inr refl)

abbrev pub static_auth : ClientAuthConfig
static_auth = record default_auth {
  mode = static;
  static_token = some "s3cret";
  previous_token = some "";
}

abbrev static_built : Built files
static_built = (shared_secret "s3cret" none, none)

static_builds : build files static_auth ≡ ok static_built
unfolding build
static_builds = refl

build-IsBuilt_example : IsBuilt static static_auth (shared_secret "s3cret" none)
build-IsBuilt_example = build-IsBuilt files static_auth static_built static_builds

accepts_signed :
    verify plain_jwt verifier (cached (some (build_key_map plain_jwt ("kid-1" ∷ [])))) 0 "kid-1"
    ≡ ok tt
unfolding verify build_key_map
accepts_signed = refl

verify_iff_example :
    IsSigned plain_jwt verifier (cached (some (build_key_map plain_jwt ("kid-1" ∷ [])))) 0 "kid-1"
verify_iff_example =
    (verify_iff plain_jwt verifier (cached (some (build_key_map plain_jwt ("kid-1" ∷ [])))) 0
        "kid-1").0
      accepts_signed

build_key_map-eq-last_usable_example : build_key_map plain_jwt ("a" ∷ "b" ∷ []) "b" ≡ some "b"
build_key_map-eq-last_usable_example = build_key_map-eq-last_usable plain_jwt "b" ("a" ∷ "b" ∷ [])

refresh_loop-latest_example :
    (refresh_loop plain_jwt key_server idle "https://issuer" none 2 (cached none) 0).0
    ≡ cached (
        latest plain_jwt key_server idle "https://issuer" none none
          (fetches plain_jwt key_server idle "https://issuer" none 2 0))
refresh_loop-latest_example =
    refresh_loop-latest plain_jwt key_server idle "https://issuer" none 2 none 0

abbrev quick : SaTokenVerifyConfig
quick = record {
  issuer = "https://issuer";
  jwks_url = none;
  audience = "fabricd";
  ca_cert = none;
  refresh = 10;
}

abbrev quick_task : RefreshTask files
quick_task = record { client = tt; issuer = "https://issuer"; jwks_url = none; interval = 1000 }

quick_spawns : spawn files quick ≡ ok (verifier, quick_task)
unfolding spawn
quick_spawns = refl
