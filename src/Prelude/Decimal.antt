-- ===== src/Prelude/Decimal.antt =====
-- `String(n)` and `Number(text)` of a natural number, on the code units of a text. A text that is
-- not written in decimal digits has no number here; a number beyond 2^53 is kept exact.
use Prim.Native.Nat.{ℕ, zero, suc, ◌+◌, ◌-◌, ◌*◌, ◌/◌, ◌%◌, ◌<◌}
use mathlib.Core.Path.{◌≡◌, refl, ◌∙◌}
use mathlib.Core.Logic.{inl, inr}
use mathlib.Core.Bool.{Bool, true, false, ◌&&◌}
use mathlib.Core.List.{List, [], ◌∷◌}
use mathlib.Core.Option.{Option, none, some}
use native.Mathlib.Omega.{arith}
use kafka_nest_playground.Prelude.Tests.{leb, eqb, if◌then◌else◌, Bool-cases}

-- The digits of `n` before `out`, on fuel; a fuel above `n` is enough.
unfoldable pub digits : ℕ → ℕ → List ℕ → List ℕ
digits zero n out = out
digits (suc f) n out =
    let rest = digits f (n / 10) ((48 + n % 10) ∷ out) in if eqb n 0 then out else rest

unfoldable pub decimal : ℕ → List ℕ
decimal n = if eqb n 0 then 48 ∷ [] else digits (suc n) n []

abbrev pub is_digit : ℕ → Bool
is_digit c = leb 48 c && leb c 57

-- The number that digits spell behind `n`.
unfoldable pub read_digits : ℕ → List ℕ → Option ℕ
read_digits n [] = some n
read_digits n (c ∷ cs) =
    let more = read_digits (n * 10 + (c - 48)) cs in if is_digit c then more else none

unfoldable pub read_decimal : List ℕ → Option ℕ
unfolding read_digits
read_decimal [] = none
read_decimal (c ∷ cs) = read_digits 0 (c ∷ cs)

read_digits_last :
    (n : ℕ) (out : List ℕ) → read_digits (n / 10) ((48 + n % 10) ∷ out) ≡ read_digits n out
unfolding read_digits
read_digits_last n out = ground arith

read_digits-digits :
    (f n : ℕ) (out : List ℕ) → n < f → read_digits 0 (digits f n out) ≡ read_digits n out
unfolding digits
read_digits-digits zero n out h = elim h [ ]
read_digits-digits (suc f) n out h =
    ground (arith, read_digits_last n out, read_digits-digits f (n / 10) ((48 + n % 10) ∷ out))

-- A list that does not spell the end at once is read as its digits are.
read_decimal-eq :
    (cs : List ℕ) (n : ℕ) → eqb n 0 ≡ false → read_digits 0 cs ≡ some n → read_decimal cs ≡ some n
unfolding read_decimal read_digits
read_decimal-eq [] n h e = ground arith
read_decimal-eq (c ∷ cs) n h e = e

read_digits-decimal : (n : ℕ) → read_digits 0 (digits (suc n) n []) ≡ some n
read_digits-decimal n = read_digits-digits (suc n) n [] (omega arith) ∙ unfold read_digits in refl

read_decimal-zero : (n : ℕ) → eqb n 0 ≡ true → read_decimal (48 ∷ []) ≡ some n
unfolding read_decimal read_digits
read_decimal-zero n e = ground arith

-- What `String(n)` prints is what `Number` reads.
pub read_decimal-decimal : (n : ℕ) → read_decimal (decimal n) ≡ some n
unfolding decimal
read_decimal-decimal n = elim (Bool-cases (eqb n 0)) [
  | inl e ↦ rw e (read_decimal-zero n e)
  | inr e ↦ rw e (read_decimal-eq (digits (suc n) n []) n e (read_digits-decimal n))
]

abbrev pub All {ℓ κ} : {A : Type ℓ} → (A → Type κ) → List A → Type κ
All P [] = Unit
All P (x ∷ xs) = P x × All P xs

abbrev pub IsDigit : ℕ → Type 0
IsDigit c = is_digit c ≡ true

All-digits : (f n : ℕ) (out : List ℕ) → All IsDigit out → All IsDigit (digits f n out)
unfolding digits
All-digits zero n out h = h
All-digits (suc f) n out h = elim (Bool-cases (eqb n 0)) [
  | inl e ↦ rw e h
  | inr e ↦ rw e (All-digits f (n / 10) _ (ground arith, h))
]

pub All-decimal : (n : ℕ) → All IsDigit (decimal n)
unfolding decimal
All-decimal n = elim (Bool-cases (eqb n 0)) [
  | inl e ↦ rw e (refl, tt)
  | inr e ↦ rw e (All-digits (suc n) n [] tt)
]
