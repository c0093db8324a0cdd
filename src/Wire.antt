-- ===== src/Wire.antt =====
-- The protocol crate `runlet_wire`, which is not part of this repository: its messages, with the
-- fields and variants that this repository builds and matches (docs/go-rewrite-wire-contract.md
-- describes them), and its operations, which are parameters with their documented laws.
use fabricd.Base.{ℕ, String, ◌≡◌, ◌↔◌, Bool, true, Option, List, [], ◌∷◌, ◌++◌, length, Result}
use fabricd.Json.{Value}

pub data ErrorOwner : Type 0 where
  caller developer operator : ErrorOwner

pub record Fault : Type 0 where
  pub code : String
  pub retryable : Bool
  pub owner : ErrorOwner

pub record EgressError : Type 0 where
  pub code : String
  pub message : String
  pub source : String
  pub details : Option Value
  pub retryable : Bool
  pub owner : ErrorOwner

-- The `Init` message: one optional logical name for each capability.
pub record WireInit : Type 0 where
  pub db : Option String
  pub mongo : Option String
  pub mail : Option String
  pub redis : Option String
  pub amq : Option String
  pub auth : Option String
  pub tenant : Option String
  pub token : Option String
  pub timeout_ms : ℕ

pub record WireCall : Type 0 where
  pub name : String
  pub action : String
  pub payload : String

pub data WireRequest : Type 0 where
  init : WireInit → WireRequest
  call : WireCall → WireRequest
  drain : WireRequest

pub record DbMetric : Type 0 where
  pub action : String
  pub duration_us : ℕ
  pub rows_returned : ℕ
  pub rows_affected : ℕ
  pub truncated : Bool

pub record MongoMetric : Type 0 where
  pub action : String
  pub duration_us : ℕ
  pub docs_returned : ℕ
  pub docs_affected : ℕ
  pub truncated : Bool

pub record MailMetric : Type 0 where
  pub action : String
  pub duration_us : ℕ
  pub recipients : ℕ
  pub bytes : ℕ
  pub accepted : Bool

pub record RedisMetric : Type 0 where
  pub action : String
  pub duration_us : ℕ
  pub bytes : ℕ
  pub hit : Bool

pub record AmqMetric : Type 0 where
  pub action : String
  pub duration_us : ℕ
  pub messages : ℕ
  pub bytes : ℕ
  pub published : Bool

pub record AuthMetric : Type 0 where
  pub action : String
  pub host : String
  pub status : ℕ
  pub duration_us : ℕ

pub record BackendMetrics : Type 0 where
  pub db : List DbMetric
  pub mongo : List MongoMetric
  pub mail : List MailMetric
  pub redis : List RedisMetric
  pub amq : List AmqMetric
  pub auth : List AuthMetric

pub data WireResponse : Type 0 where
  ack : WireResponse
  init_error : (code message : String) → WireResponse
  reply : Result EgressError String → WireResponse
  metrics : BackendMetrics → WireResponse
  protocol_error : String → WireResponse

-- `EgressError::new(source, code, message)`, `.owner(..)` and the constant-time comparison of the
-- bytes of two texts.
pub record Toolkit : Type 0 where
  pub error_new : (source code message : String) → EgressError
  pub with_owner : ErrorOwner → EgressError → EgressError
  pub ct_eq : String → String → Bool

pub record IsToolkit (t : Toolkit) : Type 0 where
  pub new_source : (s c m : String) → (t.error_new s c m).source ≡ s
  pub new_code : (s c m : String) → (t.error_new s c m).code ≡ c
  pub new_message : (s c m : String) → (t.error_new s c m).message ≡ m
  pub owner_set : (o : ErrorOwner) (e : EgressError) → t.with_owner o e ≡ record e { owner = o }
  pub ct_eq_iff : (a b : String) → (t.ct_eq a b ≡ true) ↔ (a ≡ b)

-- `metrics::Collector`: an append-only log; `drain` reads it and leaves it as it is.
pub record Collectors : Type 1 where
  pub Collector : Type 0 → Type 0
  pub new : (M : Type 0) → Collector M
  pub push : (M : Type 0) → Collector M → M → Collector M
  pub drain : (M : Type 0) → Collector M → List M
  pub op_count : (M : Type 0) → Collector M → ℕ

pub record IsLog (c : Collectors) : Type 1 where
  pub drain_new : (M : Type 0) → c.drain M (c.new M) ≡ []
  pub drain_push :
      (M : Type 0) (l : c.Collector M) (m : M) → c.drain M (c.push M l m) ≡ c.drain M l ++ m ∷ []
  pub counts : (M : Type 0) (l : c.Collector M) → c.op_count M l ≡ length (c.drain M l)

-- `CircuitBreaker`: a handle whose trip state lies in the world `W`; `report` is its `record`.
pub record Breakers (W : Type 0) : Type 1 where
  pub Breaker : Type 0
  pub new : (threshold cooldown_ms : ℕ) → Option Breaker
  pub allow : Breaker → String → W → Bool × W
  pub report : Breaker → String → Bool → W → W
  pub trips : Breaker → W → ℕ
