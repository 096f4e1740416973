-- ===== src/Services/EventId/Uuid.antt =====
-- The shape of the ids that deterministic-event-id.ts makes.
use kafka_nest_playground.Prelude.{
  ℕ, zero, suc, ◌+◌, ◌≤◌, ◌<◌, ◌≡◌, refl, ap, ◌∙◌, String, Bool, true, false, List, [], ◌∷◌, length,
  leb, eqb, ◌&&◌, ◌||◌, arith,
}
use Prim.Native.Nat.{◌/◌, ◌%◌}
use Prim.Native.Char.{Char, code}
use kafka_nest_playground.Prelude.Text.{codes}
use kafka_nest_playground.Prelude.Decimal.{All}
use kafka_nest_playground.Outbox.Store.{take}
use kafka_nest_playground.Services.{Crypto}
use kafka_nest_playground.Services.EventId.{
  hex_table, digit_at, hex_digit, hex, take_text, drop_text, set_byte, as_version_5, as_variant,
  join_dash, dashed, create_deterministic_event_id,
}

unfoldable pub is_lower_hex : ℕ → Bool
is_lower_hex c = (leb b'0' c && leb c b'9') || (leb b'a' c && leb c b'f')

-- One test for each code of a text.
unfoldable pub matches : List (ℕ → Bool) → List ℕ → Bool
matches [] [] = true
matches [] (c ∷ cs) = false
matches (p ∷ ps) [] = false
matches (p ∷ ps) (c ∷ cs) = p c && matches ps cs

abbrev pub hex_digits : ℕ → List (ℕ → Bool) → List (ℕ → Bool)
hex_digits zero ps = ps
hex_digits (suc n) ps = is_lower_hex ∷ hex_digits n ps

abbrev pub is_dash : ℕ → Bool
is_dash c = eqb c b'-'

abbrev pub is_five : ℕ → Bool
is_five c = eqb c b'5'

-- One of `8`, `9`, `a` and `b`.
unfoldable pub is_variant : ℕ → Bool
is_variant c = eqb c b'8' || eqb c b'9' || eqb c b'a' || eqb c b'b'

-- RFC 4122: a UUID of version 5 in lower case.
abbrev pub uuid_5 : List (ℕ → Bool)
uuid_5 = hex_digits 8 (
    is_dash
    ∷ hex_digits 4 (
        is_dash
        ∷ is_five
        ∷ hex_digits 3 (is_dash ∷ is_variant ∷ hex_digits 3 (is_dash ∷ hex_digits 12 []))))

abbrev pub IsUuid5 : String → Type 0
IsUuid5 text = matches uuid_5 (codes text) ≡ true

digit_at_lem :
    (cs : List Char) (n : ℕ)
    → All (λ c. is_lower_hex (code c) ≡ true) cs
    → is_lower_hex (code (digit_at cs n)) ≡ true
unfolding is_lower_hex
digit_at_lem [] n all = refl
digit_at_lem (c ∷ cs) zero all = all.0
digit_at_lem (c ∷ cs) (suc n) all = digit_at_lem cs n all.1

table-All : All (λ c. is_lower_hex (code c) ≡ true) hex_table
unfolding is_lower_hex
table-All = (
  refl,
  (
    refl,
    (
      refl,
      (
        refl,
        (refl, (refl, (refl, (refl, (refl, (refl, (refl, (refl, (refl, (refl, (refl, tt))))))))))),
      ),
    ),
  ),
)

hex_digit_lem : (n : ℕ) → is_lower_hex (code (hex_digit n)) ≡ true
unfolding hex_digit
hex_digit_lem n = digit_at_lem hex_table n table-All

version_digit : (b : ℕ) → code (hex_digit (as_version_5 b / 16)) ≡ b'5'
unfolding hex_digit
version_digit b =
    let e : as_version_5 b / 16 ≡ 5 = omega arith in ap (λ n. code (digit_at hex_table n)) e

variant_from : (r : ℕ) → r < 4 → is_variant (code (hex_digit (8 + r))) ≡ true
unfolding is_variant hex_digit
variant_from zero h = refl
variant_from (suc zero) h = refl
variant_from (suc (suc zero)) h = refl
variant_from (suc (suc (suc zero))) h = refl
variant_from (suc (suc (suc (suc r)))) h = absurd (omega arith)

variant_digit : (b : ℕ) → is_variant (code (hex_digit (as_variant b / 16))) ≡ true
variant_digit b =
    let e : as_variant b / 16 ≡ 8 + b % 64 / 16 = omega arith in
    ap (λ n. is_variant (code (hex_digit n))) e ∙ variant_from (b % 64 / 16) (omega arith)

-- A property of the lists of a length, as one of their elements.
abbrev Curried : ℕ → (List ℕ → Type 0) → Type 0
Curried zero P = P []
Curried (suc n) P = (x : ℕ) → Curried n (λ xs. P (x ∷ xs))

uncurried : (n : ℕ) (P : List ℕ → Type 0) → Curried n P → (xs : List ℕ) → length xs ≡ n → P xs
uncurried zero P h [] e = h
uncurried zero P h (x ∷ xs) e = absurd (ground arith)
uncurried (suc n) P h [] e = absurd (ground arith)
uncurried (suc n) P h (x ∷ xs) e = uncurried n (λ ys. P (x ∷ ys)) (h x) xs (omega arith)

length-take : (n : ℕ) (xs : List ℕ) → n ≤ length xs → length (take n xs) ≡ n
length-take zero xs h = refl
length-take (suc n) [] h = omega arith
length-take (suc n) (x ∷ xs) h = omega (arith, length-take n xs (omega arith))

abbrev marked : List ℕ → String
marked bytes = dashed (hex (set_byte 8 as_variant (set_byte 6 as_version_5 bytes)))

-- The texts that pass, as they are built.
data Matched : List (ℕ → Bool) → List ℕ → Type 0 where
  done : Matched [] []
  next :
      {p : ℕ → Bool} {ps : List (ℕ → Bool)} {c : ℕ} {cs : List ℕ}
      → p c ≡ true
      → Matched ps cs
      → Matched (p ∷ ps) (c ∷ cs)

Matched-matches : {ps : List (ℕ → Bool)} {cs : List ℕ} → Matched ps cs → matches ps cs ≡ true
unfolding matches
Matched-matches done = refl
Matched-matches (next {p} {ps} {c} {cs} h rest) = rw h (Matched-matches rest)

-- The tests on one byte, and on a dash.
module _ {ps : List (ℕ → Bool)} {cs : List ℕ} (rest : Matched ps cs) where
  byte :
      (b : ℕ)
      → Matched
          (is_lower_hex ∷ is_lower_hex ∷ ps)
          (code (hex_digit (b / 16)) ∷ code (hex_digit (b % 16)) ∷ cs)
  byte b = next (hex_digit_lem (b / 16)) (next (hex_digit_lem (b % 16)) rest)

  version_byte :
      (b : ℕ)
      → Matched
          (is_five ∷ is_lower_hex ∷ ps)
          (code (hex_digit (as_version_5 b / 16)) ∷ code (hex_digit (as_version_5 b % 16)) ∷ cs)
  version_byte b =
      next (rw (version_digit b) refl) (next (hex_digit_lem (as_version_5 b % 16)) rest)

  variant_byte :
      (b : ℕ)
      → Matched
          (is_variant ∷ is_lower_hex ∷ ps)
          (code (hex_digit (as_variant b / 16)) ∷ code (hex_digit (as_variant b % 16)) ∷ cs)
  variant_byte b = next (variant_digit b) (next (hex_digit_lem (as_variant b % 16)) rest)

  dash : Matched (is_dash ∷ ps) (b'-' ∷ cs)
  dash = next refl rest

marked-IsUuid5 : Curried 16 (λ bytes. IsUuid5 (marked bytes))
unfolding hex take_text drop_text set_byte join_dash
marked-IsUuid5 b0 b1 b2 b3 b4 b5 b6 b7 b8 b9 b10 b11 b12 b13 b14 b15 =
    let node = byte (byte (byte (byte (byte (byte done b15) b14) b13) b12) b11) b10 in
    let clock = dash (variant_byte (byte (dash node) b9) b8) in
    let low = byte (byte (dash (version_byte (byte clock b7) b6)) b5) b4 in
    Matched-matches (byte (byte (byte (byte (dash low) b3) b2) b1) b0)

-- Whatever the namespace and the source id, the id of an answer is a UUID of version 5 in lower case;
-- SHA-256 gives 32 bytes.
pub create_deterministic_event_id-IsUuid5 :
    (crypto : Crypto) (namespace source_event_id : String)
    → ((bytes : List ℕ) → length (crypto.sha256 bytes) ≡ 32)
    → IsUuid5 (create_deterministic_event_id crypto namespace source_event_id)
unfolding create_deterministic_event_id
create_deterministic_event_id-IsUuid5 crypto namespace source_event_id long =
    uncurried 16 (λ bytes. IsUuid5 (marked bytes)) marked-IsUuid5 _
      (length-take 16 _ (omega (arith, long _)))
