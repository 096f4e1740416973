-- ===== src/Kafka/Errors.antt =====
-- packages/kafka/src/kafka-errors.ts, and the error codes of configurable-kafka-retry-policy.ts.
use kafka_nest_playground.Prelude.{
  ℕ, String, Bool, true, false, Option, leb, eqb, ◌&&◌, ◌||◌, if◌then◌else◌,
}
use kafka_nest_playground.Prelude.Text.{is_empty}
use Prim.Native.Char.{Char, code}

-- A value that a handler throws.
pub data Thrown : Type 0 where
  non_retryable : (error_code message : String) (stack : Option String) → Thrown
  error : (name message : String) (stack : Option String) → Thrown
  other : (text : String) → Thrown

abbrev pub is_lower : ℕ → Bool
is_lower c = leb b'a' c && leb c b'z'

abbrev pub is_upper : ℕ → Bool
is_upper c = leb b'A' c && leb c b'Z'

abbrev pub is_digit : ℕ → Bool
is_digit c = leb b'0' c && leb c b'9'

abbrev underscore : Char
underscore = "_"

abbrev starts_upper : String → Bool
starts_upper String.[] = false
starts_upper (String.◌∷◌ c s) = is_upper (code c)

-- `.replace(/([a-z0-9])([A-Z])/g, "$1_$2")`.
unfoldable pub split_camel : String → String
split_camel String.[] = String.[]
split_camel (String.◌∷◌ c s) =
    let rest = split_camel s in
    if (is_lower (code c) || is_digit (code c)) && starts_upper s
    then String.◌∷◌ c (String.◌∷◌ underscore rest)
    else String.◌∷◌ c rest

-- `.replace(/[^a-zA-Z0-9]+/g, "_")`; the flag says that a run is open.
unfoldable pub collapse : Bool → String → String
collapse in_run String.[] = String.[]
collapse in_run (String.◌∷◌ c s) =
    let inside = collapse true s in
    let outside = collapse false s in
    if is_lower (code c) || is_upper (code c) || is_digit (code c)
    then String.◌∷◌ c outside
    else if in_run
    then inside
    else String.◌∷◌ underscore inside

unfoldable pub strip_start : String → String
strip_start String.[] = String.[]
strip_start (String.◌∷◌ c s) =
    let rest = strip_start s in if eqb (code c) b'_' then rest else String.◌∷◌ c s

abbrev strip_char : Char → String → String
strip_char c String.[] = if eqb (code c) b'_' then String.[] else String.◌∷◌ c String.[]
strip_char c (String.◌∷◌ d s) = String.◌∷◌ c (String.◌∷◌ d s)

unfoldable pub strip_end : String → String
strip_end String.[] = String.[]
strip_end (String.◌∷◌ c s) = strip_char c (strip_end s)

-- The character that stands in the second alphabet where `c` stands in the first.
unfoldable pub translate : Char → String → String → Char
translate c String.[] to = c
translate c (String.◌∷◌ a from) String.[] = c
translate c (String.◌∷◌ a from) (String.◌∷◌ b to) =
    if eqb (code c) (code a) then b else translate c from to

-- `.toUpperCase()`, on the letters, digits and underscores that are left.
unfoldable pub to_upper_case : String → String
unfolding translate
to_upper_case String.[] = String.[]
to_upper_case (String.◌∷◌ c s) =
    String.◌∷◌ (translate c "abcdefghijklmnopqrstuvwxyz" "ABCDEFGHIJKLMNOPQRSTUVWXYZ")
      (to_upper_case s)

unfoldable pub normalize_error_code : String → String
unfolding split_camel collapse strip_start strip_end to_upper_case
normalize_error_code value =
    to_upper_case (strip_end (strip_start (collapse false (split_camel value))))

unfoldable pub get_error_code : Thrown → String
unfolding normalize_error_code
get_error_code (Thrown.non_retryable error_code message stack) = error_code
get_error_code (Thrown.error name message stack) =
    if is_empty name then "UNKNOWN_ERROR" else normalize_error_code name
get_error_code (Thrown.other text) = "UNKNOWN_ERROR"

abbrev pub is_non_retryable : Thrown → Bool
is_non_retryable (Thrown.non_retryable error_code message stack) = true
is_non_retryable _ = false
