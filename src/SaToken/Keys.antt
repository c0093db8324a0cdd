-- ===== src/SaToken/Keys.antt =====
-- sa_token.rs: the key map, built from the fetched key set. The JWT library is a parameter.
use fabricd.Base.{
  ℕ, String, Option, none, some, List, [], ◌∷◌, HashMap, empty_map, insert, Result, ok, err,
}

-- `jsonwebtoken`: `decode_header` gives the `kid` of the header, `decode` checks the signature and
-- the claims at a given time, and `key_id` and `from_jwk` read one entry of a key set.
pub record Jwt : Type 1 where
  pub Jwk : Type 0
  pub Key : Type 0
  pub Validation : Type 0
  pub rs256 : Unit {0} → Validation
  pub set_audience : List String → Validation → Validation
  pub set_issuer : List String → Validation → Validation
  pub key_id : Jwk → Option String
  pub from_jwk : Jwk → Result String Key
  pub decode_header : String → Result String (Option String)
  pub decode : ℕ → String → Key → Validation → Result String (Unit {0})

-- `RwLock<Option<KeyMap>>`: a lock that a panic poisoned, or the keys if they were ever fetched.
pub data Cache (Key : Type 0) : Type 0 where
  poisoned : Cache Key
  cached : Option (HashMap Key) → Cache Key

module _ (jwt : Jwt) where
  -- One round of the loop of `build_key_map`.
  unfoldable pub add_key : HashMap jwt.Key → Option String → Result String jwt.Key → HashMap jwt.Key
  add_key keys none converted = keys
  add_key keys (some kid) (ok key) = insert keys kid key
  add_key keys (some kid) (err e) = keys

  unfoldable pub build_key_map_from : HashMap jwt.Key → List jwt.Jwk → HashMap jwt.Key
  unfolding add_key
  build_key_map_from keys [] = keys
  build_key_map_from keys (jwk ∷ set) =
      build_key_map_from (add_key keys (jwt.key_id jwk) (jwt.from_jwk jwk)) set

  unfoldable pub build_key_map : List jwt.Jwk → HashMap jwt.Key
  unfolding build_key_map_from
  build_key_map set = build_key_map_from empty_map set
