-- ===== src/Daemon/Run/KeyCache.antt =====
-- main.rs and sa_token.rs: the key cache of a running daemon, and the ServiceAccount tokens that it
-- accepts once the keys are fetched.
use fabricd.Base.{
  ℕ, String, ◌≡◌, refl, ap, ◌∙◌, Option, some, List, [], ◌∷◌, HashMap, Result, ok, err, map_err,
}
use fabricd.Wire.{Toolkit}
use fabricd.SaToken.{JwksVerifier, validation}
use fabricd.SaToken.Keys.{Jwt, Cache, cached}
use fabricd.SaToken.Refresh.{Http, swap_cache}
use fabricd.SaToken.Laws.{verify_iff}
use fabricd.ClientAuth.{Authenticator, service_account, authenticate}
use fabricd.BackendSet.Payloads.{Decoders}
use fabricd.BackendSet.Drivers.{DriverSet}
use fabricd.Session.{Process}
use fabricd.Daemon.Run.{
  Running, Event, silent, fetched, refresh_round, after_round, Step, uds_accepted, took_turn,
  uds_failed, quic_accepted, quic_opened, quic_ended, quic_closed, round, scrape_failed, signalled,
  elsewhere, Steps, here, next,
}

module _ {W Breaker : Type 0} (t : Toolkit) (upper : String → String) (d : DriverSet W Breaker)
    (decode : Decoders) (jwt : Jwt) (p : Process t upper d) where
  module _ (http : Http W jwt.Jwk) where
    -- Every round of the refresh failed.
    abbrev pub HasNoKeys : List (Event t upper d decode jwt p http) → Type 0
    HasNoKeys [] = Unit
    HasNoKeys (silent ∷ events) = HasNoKeys events
    HasNoKeys (fetched (ok keys) ∷ events) = ⊥
    HasNoKeys (fetched (err e) ∷ events) = HasNoKeys events

    module _ (a : Authenticator) (issuer : String) (jwks_url : Option String) where
      round-cache :
          (events : List (Event t upper d decode jwt p http)) (old : Option (HashMap jwt.Key))
          (cache : Cache jwt.Key) (result : Result String (HashMap jwt.Key))
          → cache ≡ cached old
          → HasNoKeys (fetched result ∷ events)
          → (swap_cache jwt http cache result ≡ cached old) × HasNoKeys events
      unfolding swap_cache
      round-cache events old cache (ok keys) same failed = absurd failed
      round-cache events old cache (err e) same failed = (rw same refl, failed)

      pub Step-cache :
          {s e : Running t upper d decode jwt p http} {event : Event t upper d decode jwt p http}
          (events : List (Event t upper d decode jwt p http)) {old : Option (HashMap jwt.Key)}
          → Step t upper d decode jwt p http a issuer jwks_url s event e
          → s.cache ≡ cached old
          → HasNoKeys (event ∷ events)
          → (e.cache ≡ cached old) × HasNoKeys events
      Step-cache events (uds_accepted on i new) same failed = (same, failed)
      Step-cache events (took_turn i stream there now taken frame) same failed = (same, failed)
      Step-cache events (uds_failed on) same failed = (same, failed)
      Step-cache events (quic_accepted on free) same failed = (same, failed)
      Step-cache events (quic_opened one_open i new) same failed = (same, failed)
      Step-cache events (quic_ended one_open) same failed = (same, failed)
      Step-cache events (quic_closed on) same failed = (same, failed)
      Step-cache {s} events {old} round same failed =
          round-cache events old s.cache
            (refresh_round t upper d decode jwt p http issuer jwks_url s).0 same failed
      Step-cache events (scrape_failed on) same failed = (same, failed)
      Step-cache events (signalled on) same failed = (same, failed)
      Step-cache events (elsewhere w) same failed = (same, failed)

      Steps-cache :
          {s e : Running t upper d decode jwt p http}
          {events : List (Event t upper d decode jwt p http)} {old : Option (HashMap jwt.Key)}
          → Steps t upper d decode jwt p http a issuer jwks_url s events e
          → s.cache ≡ cached old
          → HasNoKeys events
          → e.cache ≡ cached old
      Steps-cache here same failed = same
      Steps-cache (next {events} step steps) same failed =
          let (kept, rest) = Step-cache events step same failed in Steps-cache steps kept rest

      swapped-cached :
          (keys : Option (HashMap jwt.Key)) (result : Result String (HashMap jwt.Key))
          → (new : Option (HashMap jwt.Key)) × (swap_cache jwt http (cached keys) result
              ≡ cached new)
      unfolding swap_cache
      swapped-cached keys (ok fresh) = (some fresh, refl)
      swapped-cached keys (err e) = (keys, refl)

      Step-cached :
          {s e : Running t upper d decode jwt p http} {event : Event t upper d decode jwt p http}
          {old : Option (HashMap jwt.Key)}
          → Step t upper d decode jwt p http a issuer jwks_url s event e
          → s.cache ≡ cached old
          → (new : Option (HashMap jwt.Key)) × (e.cache ≡ cached new)
      Step-cached {old} (uds_accepted on i new) same = (old, same)
      Step-cached {old} (took_turn i stream there now taken frame) same = (old, same)
      Step-cached {old} (uds_failed on) same = (old, same)
      Step-cached {old} (quic_accepted on free) same = (old, same)
      Step-cached {old} (quic_opened one_open i new) same = (old, same)
      Step-cached {old} (quic_ended one_open) same = (old, same)
      Step-cached {old} (quic_closed on) same = (old, same)
      Step-cached {s} {old} round same =
          let result = (refresh_round t upper d decode jwt p http issuer jwks_url s).0 in
          let (new, swapped) = swapped-cached old result in
          (new, ap (λ c. swap_cache jwt http c result) same ∙ swapped)
      Step-cached {old} (scrape_failed on) same = (old, same)
      Step-cached {old} (signalled on) same = (old, same)
      Step-cached {old} (elsewhere w) same = (old, same)

      -- No run poisons the lock of the keys.
      pub Steps-cached :
          {s e : Running t upper d decode jwt p http}
          {events : List (Event t upper d decode jwt p http)} {old : Option (HashMap jwt.Key)}
          → Steps t upper d decode jwt p http a issuer jwks_url s events e
          → s.cache ≡ cached old
          → (new : Option (HashMap jwt.Key)) × (e.cache ≡ cached new)
      Steps-cached {old} here same = (old, same)
      Steps-cached (next step steps) same =
          let (new, kept) = Step-cached step same in Steps-cached steps kept

      -- Once a round of the refresh fetches the keys, on a lock that is not poisoned, a token signed
      -- by one of them is accepted at every later point of the run, whatever the daemon and its
      -- clients do meanwhile, as long as later rounds fail.
      pub Steps-accepts :
          (s e : Running t upper d decode jwt p http)
          (events : List (Event t upper d decode jwt p http)) (old : Option (HashMap jwt.Key))
          (keys : HashMap jwt.Key) (v : JwksVerifier) (now : ℕ) (token kid : String) (key : jwt.Key)
          → s.cache ≡ cached old
          → (refresh_round t upper d decode jwt p http issuer jwks_url s).0 ≡ ok keys
          → Steps t upper d decode jwt p http a issuer jwks_url
              (after_round t upper d decode jwt p http
                (refresh_round t upper d decode jwt p http issuer jwks_url s)
                s)
              events
              e
          → HasNoKeys events
          → jwt.decode_header token ≡ ok (some kid)
          → keys kid ≡ some key
          → jwt.decode now token key (validation jwt v) ≡ ok tt
          → authenticate t jwt e.cache now (service_account v) (some token) ≡ ok tt
      unfolding swap_cache authenticate
      Steps-accepts s e events old keys v now token kid key same fresh steps failed header known
            decoded =
          let swapped : swap_cache jwt http s.cache
                (refresh_round t upper d decode jwt p http issuer jwks_url s).0
              ≡ cached (some keys) =
            ap
              (λ c.
                swap_cache jwt http c
                  (refresh_round t upper d decode jwt p http issuer jwks_url s).0)
              same
            ∙ ap (λ r. swap_cache jwt http (cached old) r) fresh in
          let loaded = Steps-cache steps swapped failed in
          ap (map_err _) (
            (verify_iff jwt v e.cache now token).1 (record {
              kid = kid;
              keys = keys;
              key = key;
              header = header;
              loaded = loaded;
              known = known;
              decoded = decoded;
            }))
