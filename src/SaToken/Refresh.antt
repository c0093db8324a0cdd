-- ===== src/SaToken/Refresh.antt =====
-- sa_token.rs: fetching the key set over HTTP, and the background loop that swaps the cache.
use fabricd.Base.{
  trim_end_slashes, String, List, [], ◌∷◌, ℕ, zero, suc, Option, none, some, leb, ◌&&◌,
  if◌then◌else◌, format, non_empty, HashMap, Result, ok, err, ok_or, Eff, pure, raise, lift,
  mapping, ◌>>=◌,
}
use fabricd.Json.{Value, get, as_str}
use fabricd.SaToken.Keys.{Jwt, Cache, poisoned, cached, build_key_map}

-- `reqwest`'s async client: the answer's status and its text, and its body decoded as a JSON value or a key set.
pub record Http (W Jwk : Type 0) : Type 1 where
  pub Response : Type 0
  pub send : String → Eff W String Response
  pub status : Response → ℕ
  pub status_text : ℕ → String
  pub json_value : Response → Eff W String Value
  pub json_keys : Response → Eff W String (List Jwk)

-- `Option::and_then` over an optional JSON member.
abbrev text_of : Option Value → Option String
text_of none = none
text_of (some v) = as_str v

module _ {W : Type 0} (jwt : Jwt) (http : Http W jwt.Jwk) where
  -- `get_json`, whose error is a `JwksFetchError`
  unfoldable pub get_json :
      {T : Type 0} → (http.Response → Eff W String T) → String → Eff W String T
  get_json decode url = do
    response ← mapping (λ e. format ("GET " ∷ url ∷ " failed: " ∷ e ∷ [])) (http.send url)
    let status = http.status response
    if leb 200 status && leb status 299
        then mapping (λ e. format ("decode " ∷ url ∷ " failed: " ∷ e ∷ [])) (decode response)
        else raise (format ("GET " ∷ url ∷ " returned " ∷ http.status_text status ∷ []))

  unfoldable pub discover_jwks_url : String → Eff W String String
  unfolding get_json trim_end_slashes
  discover_jwks_url issuer = do
    let base = trim_end_slashes issuer
    doc ← get_json http.json_value (format (base ∷ "/.well-known/openid-configuration" ∷ []))
    lift (ok_or (non_empty (text_of (get doc "jwks_uri"))) "discovery document has no jwks_uri")

  unfoldable pub resolve_url : String → Option String → Eff W String String
  unfolding discover_jwks_url
  resolve_url issuer none = discover_jwks_url issuer
  resolve_url issuer (some explicit) = pure explicit

  unfoldable pub fetch_keys : String → Option String → Eff W String (HashMap jwt.Key)
  unfolding resolve_url build_key_map
  fetch_keys issuer jwks_url = do
    url ← resolve_url issuer jwks_url
    set ← get_json http.json_keys url
    pure (build_key_map jwt set)

  -- What one round does to the cache: a swap on success, unless the lock is poisoned.
  unfoldable pub swap_cache : Cache jwt.Key → Result String (HashMap jwt.Key) → Cache jwt.Key
  swap_cache poisoned fetched = poisoned
  swap_cache (cached keys) (ok fresh) = cached (some fresh)
  swap_cache (cached keys) (err e) = cached keys

  -- The loop after a number of rounds, with what other tasks do to the world during each `sleep`.
  unfoldable pub refresh_loop :
      (W → W) → String → Option String → ℕ → Cache jwt.Key → W → Cache jwt.Key × W
  unfolding fetch_keys swap_cache
  refresh_loop sleep issuer jwks_url zero cache w = (cache, w)
  refresh_loop sleep issuer jwks_url (suc rounds) cache w =
      let (fetched, w') = fetch_keys issuer jwks_url w in
      refresh_loop sleep issuer jwks_url rounds (swap_cache cache fetched) (sleep w')
