-- ===== src/Services.antt =====
-- The services beside the order service: app/risk-service and app/payment-service, which answer one
-- event with another. The functions of Node that they call are arguments.
pub mod EventId
pub mod Risk
pub mod Payment
pub mod Worker
use kafka_nest_playground.Prelude.{ℕ, ◌+◌, ◌*◌, String, Bool, Option, List, [], ◌∷◌}
use kafka_nest_playground.Contracts.Events.{Number}

-- `Buffer.from(text)` and `createHash("sha256")`, on bytes.
pub record Crypto : Type 0 where
  pub utf8 : String → List ℕ
  pub sha256 : List ℕ → List ℕ

-- The language's operations on doubles; `less` and `at_least` are both false on `NaN`.
pub record Doubles : Type 0 where
  pub of_nat : ℕ → Number
  pub add : Number → Number → Number
  pub mul : Number → Number → Number
  pub div : Number → Number → Number
  pub min : Number → Number → Number
  pub round : Number → Number
  pub less : Number → Number → Bool
  pub at_least : Number → Number → Bool
  pub is_finite : Number → Bool
  pub to_fixed : ℕ → Number → String
  pub to_text : Number → String
  pub number : String → Number
  pub trunc : Number → ℕ

-- A big-endian integer: `readBigUInt64BE` of eight bytes.
unfoldable pub read_big_endian : ℕ → List ℕ → ℕ
read_big_endian n [] = n
read_big_endian n (b ∷ bytes) = read_big_endian (n * 256 + b) bytes
