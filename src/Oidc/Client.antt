-- ===== src/Oidc/Client.antt =====
-- crates/fabric-backends/src/auth.rs: the HTTP client, a parameter, and the memo of the discovery.
use fabricd.Base.{ℕ, String, Option, none, some, if◌then◌else◌, Mutex, false, Eff}
use fabricd.Oidc.Replies.{Endpoints}

-- `reqwest`'s blocking client over the world `W`, `Url::parse(..).ok()` with `host_str`, and
-- `utf8_percent_encode` with NON_ALPHANUMERIC.
pub record Reqwest (W : Type 0) : Type 1 where
  pub Client : Type 0
  pub RequestBuilder : Type 0
  pub Response : Type 0
  pub Error : Type 0
  pub error_text : Error → String
  pub build : (timeout_ms : ℕ) → Eff W Error Client
  pub get : Client → String → RequestBuilder
  pub post : Client → String → RequestBuilder
  pub bearer_auth : String → RequestBuilder → RequestBuilder
  pub basic_auth : String → Option String → RequestBuilder → RequestBuilder
  pub header : String → String → RequestBuilder → RequestBuilder
  pub body : String → RequestBuilder → RequestBuilder
  pub send : RequestBuilder → Eff W Error Response
  pub status : Response → ℕ
  pub text : Response → Eff W Error String
  pub host_of : String → Option String
  pub percent_encode : String → String
  pub elapsed_us : W → W → ℕ

-- `Mutex<Option<Endpoints>>`
abbrev pub Memo : Type 0
Memo = Mutex (Option Endpoints)

abbrev pub empty_memo : Memo
empty_memo = record { value = none; poisoned = false }

-- What a lock that is not poisoned shows, and the memo after storing in it.
abbrev pub recall : Memo → Option Endpoints
recall memo = if memo.poisoned then none else memo.value

abbrev pub remember : Endpoints → Memo → Memo
remember endpoints memo = if memo.poisoned then memo else record memo { value = some endpoints }
