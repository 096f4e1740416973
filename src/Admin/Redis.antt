-- ===== src/Admin/Redis.antt =====
-- app/order-service/src/modules/admin-security/admin-rate-limit.store.ts, from `RedisReply` on: the
-- protocol of the Redis client. A text is its UTF-16 code units. Where the source passes an offset
-- into the text, the model passes the rest of the text from there.
pub mod Extends
pub mod Fuel
pub mod RoundTrip
pub mod Client
pub mod Streams
use kafka_nest_playground.Prelude.{
  ℕ, zero, suc, ◌+◌, Bool, List, [], ◌∷◌, ◌++◌, Option, none, some, length, ltb, leb, eqb,
  if◌then◌else◌, ◌&&◌, ◌||◌,
}
use kafka_nest_playground.Prelude.Decimal.{decimal, read_decimal}
use kafka_nest_playground.Outbox.Store.{take}

abbrev pub Units : Type 0
Units = List ℕ

-- A number of a reply; `minus n` is -n.
pub data Signed : Type 0 where
  plus minus : ℕ → Signed

-- `RedisReply`.
mutual
  pub data RedisReply : Type 0 where
    text : Units → RedisReply
    number : Signed → RedisReply
    null : RedisReply
    array : Replies → RedisReply

  pub data Replies : Type 0 where
    nil : Replies
    cons : RedisReply → Replies → Replies

-- What `parseRedisReply` throws. `not_resp` stands for a length or an integer that is not a decimal
-- number, and for a bulk length with a minus sign other than -1, which the protocol excludes: the
-- model does not follow the source beyond it.
pub data ParseError : Type 0 where
  redis_error : Units → ParseError
  unsupported_type : ℕ → ParseError
  not_resp : ParseError

-- `incomplete` is the source's `null`; `out_of_fuel` has no counterpart.
pub data Parsed (A : Type 0) : Type 0 where
  incomplete out_of_fuel : Parsed A
  failed : ParseError → Parsed A
  parsed : (reply : A) (rest : Units) → Parsed A

infixl 5 ◌>>=◌
abbrev pub ◌>>=◌ : {A B : Type 0} → Parsed A → (A → Units → Parsed B) → Parsed B
incomplete >>= next = incomplete
out_of_fuel >>= next = out_of_fuel
failed e >>= next = failed e
parsed a rest >>= next = next a rest

abbrev pub crlf : Units
crlf = 13 ∷ 10 ∷ []

abbrev pub before_line : ℕ → Parsed Units → Parsed Units
before_line c line = line >>= λ value rest. parsed (c ∷ value) rest

-- `input.indexOf("\r\n", …)` with the two slices at it.
unfoldable pub read_line : Units → Parsed Units
read_line [] = incomplete
read_line (c ∷ []) = incomplete
read_line (c ∷ d ∷ s) =
    if eqb c 13 && eqb d 10 then parsed [] s else before_line c (read_line (d ∷ s))

-- `Number(value)`.
abbrev pub with_sign : (ℕ → Signed) → Option ℕ → Option Signed
with_sign sign none = none
with_sign sign (some n) = some (sign n)

unfoldable pub read_signed : Units → Option Signed
read_signed [] = none
read_signed (c ∷ cs) =
    if eqb c b'-'
    then with_sign Signed.minus (read_decimal cs)
    else with_sign Signed.plus (read_decimal (c ∷ cs))

abbrev pub drop {ℓ} : {A : Type ℓ} → ℕ → List A → List A
drop zero xs = xs
drop (suc n) [] = []
drop (suc n) (x ∷ xs) = drop n xs

-- The reply of `:`, of a bulk text and of an array whose length is read.
abbrev pub integer_reply : Option Signed → Units → Parsed RedisReply
integer_reply none rest = failed not_resp
integer_reply (some n) rest = parsed (number n) rest

-- The line end after a bulk text is skipped and not compared.
unfoldable pub bulk_text : ℕ → Units → Parsed RedisReply
bulk_text n rest =
    if ltb (length rest) (n + 2)
    then incomplete
    else parsed (text (take n rest)) (drop (n + 2) rest)

abbrev pub bulk_reply : Option Signed → Units → Parsed RedisReply
bulk_reply none rest = failed not_resp
bulk_reply (some (Signed.plus n)) rest = bulk_text n rest
bulk_reply (some (Signed.minus n)) rest = if eqb n 1 then parsed null rest else failed not_resp

-- `for (let index = 0; index < length; index += 1)`, with the reader of one item.
unfoldable pub parse_items : (Units → Parsed RedisReply) → ℕ → Units → Parsed Replies
parse_items item zero s = parsed nil s
parse_items item (suc n) s = item s >>= λ reply rest.
    parse_items item n rest >>= λ items last. parsed (cons reply items) last

-- No round is made for a negative length.
abbrev pub array_reply : (Units → Parsed RedisReply) → Option Signed → Units → Parsed RedisReply
array_reply item none rest = failed not_resp
array_reply item (some (Signed.plus n)) rest =
    parse_items item n rest >>= λ items last. parsed (array items) last
array_reply item (some (Signed.minus n)) rest = parsed (array nil) rest

-- The three kinds of one line.
abbrev pub line_reply : ℕ → Units → Units → Parsed RedisReply
line_reply kind value rest =
    if eqb kind b'-'
    then failed (redis_error value)
    else if eqb kind b':'
    then integer_reply (read_signed value) rest
    else parsed (text value) rest

-- By the type, the first code unit.
unfoldable pub reply_of_type : (Units → Parsed RedisReply) → ℕ → Units → Parsed RedisReply
reply_of_type item kind s =
    if eqb kind b'+' || (eqb kind b'-' || eqb kind b':')
    then (read_line s >>= line_reply kind)
    else if eqb kind b'$'
    then (read_line s >>= λ value. bulk_reply (read_signed value))
    else if eqb kind b'*'
    then (read_line s >>= λ value. array_reply item (read_signed value))
    else failed (unsupported_type kind)

-- `parseRedisReply`; each nested reply costs a unit of fuel.
unfoldable pub parse_redis_reply : ℕ → Units → Parsed RedisReply
parse_redis_reply zero s = out_of_fuel
parse_redis_reply (suc fuel) [] = incomplete
parse_redis_reply (suc fuel) (kind ∷ s) = reply_of_type (parse_redis_reply fuel) kind s

abbrev pub unit_bytes : ℕ → ℕ
unit_bytes c = if ltb c 128 then 1 else if ltb c 2048 then 2 else 3

abbrev pub is_pair : ℕ → ℕ → Bool
is_pair c d = leb 55296 c && (ltb c 56320 && (leb 56320 d && ltb d 57344))

-- `Buffer.byteLength`: the bytes of a text in UTF-8; a surrogate pair has four.
unfoldable pub byte_length : Units → ℕ
byte_length [] = 0
byte_length (c ∷ []) = unit_bytes c
byte_length (c ∷ d ∷ s) =
    let paired = 4 + byte_length s in
    let single = unit_bytes c + byte_length (d ∷ s) in if is_pair c d then paired else single

-- The two parts of one word, each with its line end.
abbrev pub encode_part : Units → Units
encode_part part = b'$' ∷ (decimal (byte_length part) ++ (crlf ++ (part ++ crlf)))

abbrev pub encode_parts : List Units → Units
encode_parts [] = []
encode_parts (part ∷ parts) = encode_part part ++ encode_parts parts

-- `encodeRedisCommand`.
unfoldable pub encode_redis_command : List Units → Units
encode_redis_command parts = b'*' ∷ (decimal (length parts) ++ (crlf ++ encode_parts parts))
