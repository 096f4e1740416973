-- ===== src/Admin/Redis/RoundTrip.antt =====
-- A command that the client writes is an array of texts in the protocol that it reads.
use kafka_nest_playground.Prelude.{
  ℕ, suc, ◌+◌, ◌<◌, ◌≡◌, refl, ◌∙◌, ap, false, List, [], ◌∷◌, ◌++◌, some, arith, length,
  length-append, ltb, eqb, append_assoc,
}
use kafka_nest_playground.Prelude.Decimal.{
  decimal, read_decimal, read_decimal-decimal, All, IsDigit, All-decimal,
}
use kafka_nest_playground.Outbox.Store.{take}
use kafka_nest_playground.Admin.Redis.{
  Units, Signed, Replies, text, array, nil, cons, parsed, before_line, read_line, read_signed,
  with_sign, drop, bulk_text, parse_items, reply_of_type, parse_redis_reply, unit_bytes, is_pair,
  byte_length, encode_part, encode_parts, encode_redis_command,
}

read_line-cons :
    (c : ℕ) (s : Units) → eqb c 13 ≡ false → read_line (c ∷ s) ≡ before_line c (read_line s)
unfolding read_line
read_line-cons c [] h = refl
read_line-cons c (d ∷ s) h = rw h

digit_ne_cr : (c : ℕ) → IsDigit c → eqb c 13 ≡ false
digit_ne_cr c h = ground arith

digit_ne_minus : (c : ℕ) → IsDigit c → eqb c b'-' ≡ false
digit_ne_minus c h = ground arith

read_line-digits :
    (ds rest : Units) → All IsDigit ds → read_line (ds ++ 13 ∷ 10 ∷ rest) ≡ parsed ds rest
read_line-digits [] rest h = unfold read_line in refl
read_line-digits (c ∷ ds) rest (h, hs) =
    read_line-cons c (ds ++ 13 ∷ 10 ∷ rest) (digit_ne_cr c h)
    ∙ ap (before_line c) (read_line-digits ds rest hs)

read_signed-digits :
    (ds : Units) (n : ℕ)
    → All IsDigit ds
    → read_decimal ds ≡ some n
    → read_signed ds ≡ some (Signed.plus n)
unfolding read_signed
read_signed-digits [] n h e = unfold read_decimal in cc
read_signed-digits (c ∷ ds) n (h, hs) e = rw (digit_ne_minus c h) (ap (with_sign Signed.plus) e)

read_signed-decimal : (n : ℕ) → read_signed (decimal n) ≡ some (Signed.plus n)
read_signed-decimal n = read_signed-digits (decimal n) n (All-decimal n) (read_decimal-decimal n)

take-length : (p s : Units) → take (length p) (p ++ s) ≡ p
take-length [] s = refl
take-length (c ∷ p) s = ap (λ (q : Units). c ∷ q) (take-length p s)

drop-length : (p s : Units) → drop (length p + 2) (p ++ 13 ∷ 10 ∷ s) ≡ s
drop-length [] s = refl
drop-length (c ∷ p) s =
    let e : length (c ∷ p) + 2 ≡ suc (length p + 2) = omega arith in rw e (drop-length p s)

-- A text of ASCII has as many bytes as code units.
abbrev pub IsAscii : Units → Type 0
IsAscii s = All (λ c. c < 128) s

byte_length-ascii : (s : Units) → IsAscii s → byte_length s ≡ length s
unfolding byte_length
byte_length-ascii [] h = refl
byte_length-ascii (c ∷ []) h = ground arith
byte_length-ascii (c ∷ d ∷ s) (h, h') =
    let unpaired : is_pair c d ≡ false = ground arith in
    let one : unit_bytes c ≡ 1 = ground arith in
    rw (unpaired, one, byte_length-ascii (d ∷ s) h') (omega arith)

bulk_text-length : (p s : Units) → bulk_text (length p) (p ++ 13 ∷ 10 ∷ s) ≡ parsed (text p) s
unfolding bulk_text
bulk_text-length p s =
    let enough : ltb (length (p ++ 13 ∷ 10 ∷ s)) (length p + 2) ≡ false =
      ground (arith, length-append p (13 ∷ 10 ∷ s)) in
    rw (enough, take-length p (13 ∷ 10 ∷ s), drop-length p s)

-- The reader of one reply of the array takes one encoded part.
parse_part :
    (f : ℕ) (part rest : Units)
    → IsAscii part
    → parse_redis_reply (suc f) (encode_part part ++ rest) ≡ parsed (text part) rest
unfolding parse_redis_reply reply_of_type
parse_part f part rest h =
    let printed : encode_part part ++ rest
        ≡ b'$' ∷ (decimal (length part) ++ 13 ∷ 10 ∷ (part ++ 13 ∷ 10 ∷ rest)) =
      simp (append_assoc, byte_length-ascii part h) in
    ap (parse_redis_reply (suc f)) printed
    ∙ (rw
        (
          read_line-digits (decimal (length part)) (part ++ 13 ∷ 10 ∷ rest)
              (All-decimal (length part)),
          read_signed-decimal (length part),
        )
        (bulk_text-length part rest))

abbrev pub texts : List Units → Replies
texts [] = nil
texts (part ∷ parts) = cons (text part) (texts parts)

parse_parts :
    (f : ℕ) (parts : List Units) (rest : Units)
    → All IsAscii parts
    → parse_items (parse_redis_reply (suc f)) (length parts) (encode_parts parts ++ rest)
      ≡ parsed (texts parts) rest
unfolding parse_items
parse_parts f [] rest h = refl
parse_parts f (part ∷ parts) rest (h, hs) =
    rw (append_assoc (encode_part part) (encode_parts parts) rest)
      (rw (parse_part f part (encode_parts parts ++ rest) h) (rw (parse_parts f parts rest hs)))

parse_command :
    (f : ℕ) (parts : List Units) (rest : Units)
    → All IsAscii parts
    → parse_redis_reply (suc (suc f)) (encode_redis_command parts ++ rest)
      ≡ parsed (array (texts parts)) rest
unfolding parse_redis_reply reply_of_type encode_redis_command
parse_command f parts rest h =
    let printed : encode_redis_command parts ++ rest
        ≡ b'*' ∷ (decimal (length parts) ++ 13 ∷ 10 ∷ (encode_parts parts ++ rest)) =
      simp append_assoc in
    ap (parse_redis_reply (suc (suc f))) printed
    ∙ (rw
        (
          read_line-digits (decimal (length parts)) (encode_parts parts ++ rest)
              (All-decimal (length parts)),
          read_signed-decimal (length parts),
        )
        (rw (parse_parts f parts rest h)))

-- A command whose words are ASCII, whatever follows it, is read back as the array of its words, and
-- what follows is left, with the fuel that a client gives. (A word outside ASCII is announced by its
-- bytes, and read by its code units.)
pub parse_redis_reply-encode_redis_command :
    (parts : List Units) (rest : Units)
    → All IsAscii parts
    → let whole = encode_redis_command parts ++ rest in
      parse_redis_reply (suc (length whole)) whole ≡ parsed (array (texts parts)) rest
unfolding encode_redis_command
parse_redis_reply-encode_redis_command parts rest h = parse_command _ parts rest h
