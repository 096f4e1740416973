-- ===== src/Services/EventId.antt =====
-- packages/kafka/src/inbox/deterministic-event-id.ts.
pub mod Uuid
use kafka_nest_playground.Prelude.{
  ℕ, zero, suc, ◌+◌, String, List, [], ◌∷◌, ◌++◌, eqb, if◌then◌else◌,
}
use Prim.Native.Nat.{◌/◌, ◌%◌}
use Prim.Native.Char.{Char}
use Prim.Native.String
use kafka_nest_playground.Outbox.Store.{take}
use kafka_nest_playground.Services.{Crypto}

abbrev pub hex_table : List Char
hex_table =
    "0" ∷ "1" ∷ "2" ∷ "3" ∷ "4" ∷ "5" ∷ "6" ∷ "7" ∷ "8" ∷ "9" ∷ "a" ∷ "b" ∷ "c" ∷ "d" ∷ "e" ∷ []

-- A digit of the table, or `f` behind it.
abbrev pub digit_at : List Char → ℕ → Char
digit_at [] n = "f"
digit_at (c ∷ cs) zero = c
digit_at (c ∷ cs) (suc n) = digit_at cs n

unfoldable pub hex_digit : ℕ → Char
hex_digit n = digit_at hex_table n

-- `bytes.toString("hex")`.
unfoldable pub hex : List ℕ → String
hex [] = String.[]
hex (b ∷ bytes) = String.◌∷◌ (hex_digit (b / 16)) (String.◌∷◌ (hex_digit (b % 16)) (hex bytes))

-- `text.slice(0, n)` and `text.slice(n)`.
unfoldable pub take_text : ℕ → String → String
take_text zero s = String.[]
take_text (suc n) String.[] = String.[]
take_text (suc n) (String.◌∷◌ c s) = String.◌∷◌ c (take_text n s)

unfoldable pub drop_text : ℕ → String → String
drop_text zero s = s
drop_text (suc n) String.[] = String.[]
drop_text (suc n) (String.◌∷◌ c s) = drop_text n s

-- `bytes[index] = …`.
unfoldable pub set_byte : ℕ → (ℕ → ℕ) → List ℕ → List ℕ
set_byte index change [] = []
set_byte zero change (b ∷ bytes) = change b ∷ bytes
set_byte (suc index) change (b ∷ bytes) = b ∷ set_byte index change bytes

-- `(byte & 0x0f) | 0x50` and `(byte & 0x3f) | 0x80`.
abbrev pub as_version_5 : ℕ → ℕ
as_version_5 byte = byte % 16 + 80

abbrev pub as_variant : ℕ → ℕ
as_variant byte = byte % 64 + 128

-- Two texts with a dash between, as `join("-")` puts them.
unfoldable pub join_dash : String → String → String
join_dash String.[] rest = String.◌∷◌ "-" rest
join_dash (String.◌∷◌ c s) rest = String.◌∷◌ c (join_dash s rest)

abbrev pub dashed : String → String
dashed text = join_dash (take_text 8 text) (
    join_dash (take_text 4 (drop_text 8 text)) (
      join_dash (take_text 4 (drop_text 12 text))
        (join_dash (take_text 4 (drop_text 16 text)) (drop_text 20 text))))

unfoldable pub create_deterministic_event_id :
    Crypto → (namespace source_event_id : String) → String
create_deterministic_event_id crypto namespace source_event_id =
    let digest = crypto.sha256 (crypto.utf8 namespace ++ 0 ∷ crypto.utf8 source_event_id) in
    dashed (hex (set_byte 8 as_variant (set_byte 6 as_version_5 (take 16 digest))))
