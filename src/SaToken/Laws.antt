-- ===== src/SaToken/Laws.antt =====
-- sa_token.rs: the tokens that are accepted, and the keys after a run of the refresh loop.
use fabricd.Base.{
  ℕ, zero, suc, ◌≤◌, String, ◌≡◌, refl, ap, ◌∙◌, ◌≢◌, ◌↔◌, Option, none, some, List, [], ◌∷◌, arith,
  ◌==◌, if◌then◌else◌, HashMap, empty_map, All, Result, ok, err, and_then-eq-ok, map_err-eq-ok,
  ok_or-eq-ok,
}
use fabricd.SaToken.Keys.{Jwt, Cache, poisoned, cached, add_key, build_key_map_from, build_key_map}
use fabricd.SaToken.Refresh.{Http, fetch_keys, swap_cache, refresh_loop}
use fabricd.SaToken.{
  invalid, missing_kid, JwksVerifier, validation, find_key, verify, ClientBuilder, RefreshTask,
  spawn, SaTokenVerifyConfig, min_refresh, build_client,
}

module _ (jwt : Jwt) where
  -- The token's header names a key of the loaded key set, under which the token decodes.
  pub record IsSigned (v : JwksVerifier) (cache : Cache jwt.Key) (now : ℕ) (token : String)
      : Type 0 where
    pub kid : String
    pub keys : HashMap jwt.Key
    pub key : jwt.Key
    pub header : jwt.decode_header token ≡ ok (some kid)
    pub loaded : cache ≡ cached (some keys)
    pub known : keys kid ≡ some key
    pub decoded : jwt.decode now token key (validation jwt v) ≡ ok tt

  find_key-eq-ok :
      (cache : Cache jwt.Key) (kid : String) (key : jwt.Key)
      → find_key jwt cache kid ≡ ok key
      → (keys : HashMap jwt.Key) × (cache ≡ cached (some keys)) × (keys kid ≡ some key)
  unfolding find_key
  find_key-eq-ok poisoned kid key e = cc
  find_key-eq-ok (cached none) kid key e = cc
  find_key-eq-ok (cached (some keys)) kid key e = (keys, refl, ground arith)

  find_key_of_loaded :
      (cache : Cache jwt.Key) (kid : String) (key : jwt.Key) (keys : HashMap jwt.Key)
      → cache ≡ cached (some keys)
      → keys kid ≡ some key
      → find_key jwt cache kid ≡ ok key
  unfolding find_key
  find_key_of_loaded cache kid key keys loaded known = rw loaded (rw known)

  verify_sound :
      (v : JwksVerifier) (cache : Cache jwt.Key) (now : ℕ) (token : String)
      → verify jwt v cache now token ≡ ok tt
      → IsSigned v cache now token
  unfolding verify
  verify_sound v cache now token e =
      let (header, decoded_header, e₁) = and_then-eq-ok _ _ e in
      let (kid, has_kid, e₂) = and_then-eq-ok _ _ e₁ in
      let (key, found, e₃) = and_then-eq-ok _ _ e₂ in
      let (keys, loaded, known) = find_key-eq-ok cache kid key found in
      record {
        kid = kid;
        keys = keys;
        key = key;
        header =
            map_err-eq-ok invalid _ decoded_header ∙ ap ok (ok_or-eq-ok header missing_kid has_kid);
        loaded = loaded;
        known = known;
        decoded = map_err-eq-ok invalid _ e₃;
      }

  verify_complete :
      (v : JwksVerifier) (cache : Cache jwt.Key) (now : ℕ) (token : String)
      → IsSigned v cache now token
      → verify jwt v cache now token ≡ ok tt
  unfolding verify
  verify_complete v cache now token s =
      rw s.header (rw (find_key_of_loaded cache s.kid s.key s.keys s.loaded s.known) (rw s.decoded))

  -- A token is accepted exactly when its header names a kid, the key cache was loaded and holds a
  -- key for the kid, and the token decodes under that key and the verifier's validation policy.
  pub verify_iff :
      (v : JwksVerifier) (cache : Cache jwt.Key) (now : ℕ) (token : String)
      → (verify jwt v cache now token ≡ ok tt) ↔ IsSigned v cache now token
  verify_iff v cache now token = (verify_sound v cache now token, verify_complete v cache now token)

-- The last entry of the set that carries the kid and converts to a key, if there is one.
module _ (jwt : Jwt) (kid : String) where
  abbrev usable : Option String → Result String jwt.Key → Option jwt.Key
  usable none converted = none
  usable (some id) (err e) = none
  usable (some id) (ok key) = if id == kid then some key else none

  abbrev or_else : Option jwt.Key → Option jwt.Key → Option jwt.Key
  or_else none other = other
  or_else (some key) other = some key

  abbrev pub last_usable : List jwt.Jwk → Option jwt.Key
  last_usable [] = none
  last_usable (jwk ∷ set) = or_else (last_usable set) (usable (jwt.key_id jwk) (jwt.from_jwk jwk))

  add_key-get :
      (keys : HashMap jwt.Key) (id : Option String) (converted : Result String jwt.Key)
      → add_key jwt keys id converted kid ≡ or_else (usable id converted) (keys kid)
  unfolding add_key
  add_key-get keys none converted = refl
  add_key-get keys (some id) (err e) = refl
  add_key-get keys (some id) (ok key) = ground arith

  or_else_assoc : (a b c : Option jwt.Key) → or_else a (or_else b c) ≡ or_else (or_else a b) c
  or_else_assoc none b c = refl
  or_else_assoc (some a) b c = refl

  or_else-none : (a : Option jwt.Key) → or_else a none ≡ a
  or_else-none none = refl
  or_else-none (some a) = refl

  build_key_map_from-get :
      (keys : HashMap jwt.Key) (set : List jwt.Jwk)
      → build_key_map_from jwt keys set kid ≡ or_else (last_usable set) (keys kid)
  unfolding build_key_map_from
  build_key_map_from-get keys [] = refl
  build_key_map_from-get keys (jwk ∷ set) =
      build_key_map_from-get (add_key jwt keys (jwt.key_id jwk) (jwt.from_jwk jwk)) set
      ∙ ap (or_else (last_usable set)) (add_key-get keys (jwt.key_id jwk) (jwt.from_jwk jwk))
      ∙ or_else_assoc (last_usable set) (usable (jwt.key_id jwk) (jwt.from_jwk jwk)) (keys kid)

  -- The key map answers a kid with the key of the last entry of the fetched set that carries the
  -- kid and converts, and answers nothing where no entry does.
  pub build_key_map-eq-last_usable :
      (set : List jwt.Jwk) → build_key_map jwt set kid ≡ last_usable set
  unfolding build_key_map
  build_key_map-eq-last_usable set =
      build_key_map_from-get empty_map set ∙ or_else-none (last_usable set)

module _ {W : Type 0} (jwt : Jwt) (http : Http W jwt.Jwk) (sleep : W → W) (issuer : String)
    (jwks_url : Option String) where
  -- The results of the fetches of the first rounds, in order.
  abbrev pub fetches : ℕ → W → List (Result String (HashMap jwt.Key))
  fetches zero w = []
  fetches (suc rounds) w =
      let (fetched, w') = fetch_keys jwt http issuer jwks_url w in
      fetched ∷ fetches rounds (sleep w')

  -- The last success among the results, or else the keys from before.
  abbrev pub latest :
      Option (HashMap jwt.Key) → List (Result String (HashMap jwt.Key)) → Option (HashMap jwt.Key)
  latest before [] = before
  latest before (ok fresh ∷ results) = latest (some fresh) results
  latest before (err e ∷ results) = latest before results

  swap_cache-cached :
      (before : Option (HashMap jwt.Key)) (fetched : Result String (HashMap jwt.Key))
      → swap_cache jwt http (cached before) fetched ≡ cached (latest before (fetched ∷ []))
  unfolding swap_cache
  swap_cache-cached before (ok fresh) = refl
  swap_cache-cached before (err e) = refl

  latest-cons :
      (before : Option (HashMap jwt.Key)) (fetched : Result String (HashMap jwt.Key))
      (results : List (Result String (HashMap jwt.Key)))
      → latest (latest before (fetched ∷ [])) results ≡ latest before (fetched ∷ results)
  latest-cons before (ok fresh) results = refl
  latest-cons before (err e) results = refl

  -- After any number of rounds the cache holds the keys of the last fetch that succeeded, or the
  -- keys from before where none did: a failed fetch keeps the previous keys.
  pub refresh_loop-latest :
      (rounds : ℕ) (before : Option (HashMap jwt.Key)) (w : W)
      → (refresh_loop jwt http sleep issuer jwks_url rounds (cached before) w).0
        ≡ cached (latest before (fetches rounds w))
  unfolding refresh_loop
  refresh_loop-latest zero before w = refl
  refresh_loop-latest (suc rounds) before w =
      let (fetched, w') = fetch_keys jwt http issuer jwks_url w in
      let kept = latest before (fetched ∷ []) in
      ap (λ c. (refresh_loop jwt http sleep issuer jwks_url rounds c (sleep w')).0)
        (swap_cache-cached before fetched)
      ∙ refresh_loop-latest rounds kept (sleep w')
      ∙ ap cached (latest-cons before fetched (fetches rounds (sleep w')))

  abbrev pub IsFailure : Result String (HashMap jwt.Key) → Type 0
  IsFailure (ok fresh) = ⊥
  IsFailure (err e) = Unit

  latest_of_failures :
      (results : List (Result String (HashMap jwt.Key)))
      → All IsFailure results
      → latest none results ≡ none
  latest_of_failures [] h = refl
  latest_of_failures (ok fresh ∷ results) h = absurd h.0
  latest_of_failures (err e ∷ results) h = latest_of_failures results h.1

  -- Until one fetch succeeds, no token is accepted, however many rounds pass (fail-closed).
  pub verify_of_failures :
      (rounds : ℕ) (w : W) (v : JwksVerifier) (now : ℕ) (token : String)
      → All IsFailure (fetches rounds w)
      → verify jwt v
          (refresh_loop jwt http sleep issuer jwks_url rounds (cached none) w).0
          now
          token
        ≢ ok tt
  verify_of_failures rounds w v now token failed accepted =
      let held = (verify_iff jwt v _ now token).0 accepted in
      let empty =
        refresh_loop-latest rounds none w
        ∙ ap cached (latest_of_failures (fetches rounds w) failed) in
      cc (held.loaded, empty)

-- A verifier that is spawned checks the issuer and audience of its config, and its background task
-- refreshes the keys of that issuer at an interval of at least one second.
pub spawn_interval :
    (b : ClientBuilder) (config : SaTokenVerifyConfig) (v : JwksVerifier) (task : RefreshTask b)
    → spawn b config ≡ ok (v, task)
    → (min_refresh ≤ task.interval)
      × (config.refresh ≤ task.interval)
      × (v.issuer ≡ config.issuer)
      × (v.audience ≡ config.audience)
      × (task.issuer ≡ config.issuer)
unfolding spawn
spawn_interval b config v task e =
    let (client, built, same) = and_then-eq-ok {A = b.Client} (build_client b config.ca_cert) _ e in
    ground arith
