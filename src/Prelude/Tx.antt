-- ===== src/Prelude/Tx.antt =====
-- Code that may throw. The body of a database transaction ends in a value and the new tables, or
-- throws.
use Prim.Native.String.{String}
use mathlib.Core.Bool.{Bool, true, false}
use mathlib.Core.Path.{◌≡◌, refl}

-- What the source throws: Nest's HTTP exceptions, the two database errors, and
-- `KafkaNonRetryableError`.
pub data Error : Type 0 where
  bad_request not_found conflict unprocessable unauthorized forbidden too_many_requests : Error
  unique_violation : Error
  non_retryable : String → Error
  plain_error : String → Error

pub data Result {ℓ} (A : Type ℓ) : Type ℓ where
  err : (thrown : Error) → Result A
  ok : (value : A) → Result A

-- `if (!holds) { throw … }`.
abbrev pub guard : (holds : Bool) (otherwise : Error) → Result (Unit {0})
guard false otherwise = err otherwise
guard true otherwise = ok tt

infixl 5 ◌>>=◌ ◌>>◌
abbrev pub ◌>>=◌ {ℓ κ} :
    {X : Type ℓ} {Y : Type κ} (first : Result X) (next : X → Result Y) → Result Y
err thrown >>= next = err thrown
ok value >>= next = next value

abbrev pub ◌>>◌ {ℓ} : {Y : Type ℓ} (first : Result (Unit {0})) (next : Result Y) → Result Y
err thrown >> next = err thrown
ok u >> next = next

-- Inversion of a chain that succeeds.
pub >>=-eq-ok {ℓ κ} :
    {X : Type ℓ} {Y : Type κ} (first : Result X) (next : X → Result Y) {y : Y}
    → (first >>= next) ≡ ok y
    → (x : X) × (first ≡ ok x) × (next x ≡ ok y)
>>=-eq-ok (ok x) next h = (x, refl, h)
>>=-eq-ok (err thrown) next h = cc

pub >>-eq-ok {ℓ} :
    {Y : Type ℓ} (first : Result (Unit {0})) (next : Result Y) {y : Y}
    → (first >> next) ≡ ok y
    → (first ≡ ok tt) × (next ≡ ok y)
>>-eq-ok (ok u) next h = (refl, h)
>>-eq-ok (err thrown) next h = cc
