-- ===== src/Examples/AdminLimits.antt =====
-- Replies of Redis in pieces, an error among them, and requests at the rate limit.
use kafka_nest_playground.Prelude.{
  ℕ, suc, ltb, leb, if◌then◌else◌, ◌*◌, ◌≤◌, ◌≡◌, refl, arith, String, true, List, [], ◌∷◌, ◌++◌,
  Option, none, some, count_by, length,
}
use kafka_nest_playground.Prelude.Text.{codes}
use kafka_nest_playground.Prelude.Decimal.{digits, decimal, read_digits, read_decimal}
use kafka_nest_playground.Prelude.Tx.{ok, err, Error}
use kafka_nest_playground.Examples.KafkaRetry.{node}
use kafka_nest_playground.Admin.Redis.{
  Units, Signed, number, text, array, parsed, read_line, read_signed, bulk_text, reply_of_type,
  parse_redis_reply, byte_length, encode_redis_command,
}
use kafka_nest_playground.Admin.Redis.RoundTrip.{texts, parse_redis_reply-encode_redis_command}
use kafka_nest_playground.Admin.Redis.Client.{
  Bytes, Client, resolved, drain, on_text, on_data, connect, send_command, receive, run,
}
use kafka_nest_playground.Admin.Redis.Streams.Pieces.{observed}
use kafka_nest_playground.Admin.Redis.Streams.{
  IsUtf8, receive_all, receive_all-joined, is_resolved, parse_error_sticks,
}
use kafka_nest_playground.Admin.RateLimit.{
  in_memory_store, redis_store, answered, Call, admitted, answers, read_limits, read_positive_int,
  can_activate, increment_in_memory, lookup,
}
use kafka_nest_playground.Admin.RateLimit.Laws.{admitted-le-twice}
use kafka_nest_playground.Admin.RateLimit.Agreement.{one_longer, redis_store-as-memory}

abbrev command : List Units
command = codes "EVAL" ∷ codes "return 1" ∷ codes "0" ∷ []

encoded : encode_redis_command command ≡ codes "*3\r\n$4\r\nEVAL\r\n$8\r\nreturn 1\r\n$1\r\n0\r\n"
unfolding encode_redis_command decimal digits byte_length
encoded = refl

parse_redis_reply-encode_redis_command_example :
    let whole = encode_redis_command command ++ codes ":7" in
    parse_redis_reply (suc (length whole)) whole ≡ parsed (array (texts command)) (codes ":7")
parse_redis_reply-encode_redis_command_example =
    parse_redis_reply-encode_redis_command command (codes ":7") (omega arith)

-- The bytes of ASCII, and a replacement for each other byte that starts a character.
unfoldable decode : Bytes → Units
decode [] = []
decode (b ∷ bytes) =
    let rest = decode bytes in
    if ltb b 128 then b ∷ rest else if leb 192 b then 65533 ∷ rest else rest

decode-append : (s t : Bytes) → decode (s ++ t) ≡ decode s ++ decode t
unfolding decode
decode-append [] t = refl
decode-append (b ∷ s) t = ground (arith, decode-append s t)

decode-IsUtf8 : IsUtf8 decode
unfolding decode
decode-IsUtf8 = record { empty = refl; splits = λ s t h. decode-append s t }

-- Two commands wait.
abbrev waiting : Client
waiting = record { connected = true; buffer = []; pending = 1 ∷ 2 ∷ []; settled = [] }

receive_all-joined_example :
    observed (receive_all decode (codes ":1\r" ∷ codes "\n$2\r\nO" ∷ codes "K\r\n" ∷ []) waiting)
    ≡ observed (on_data decode (codes ":1\r\n$2\r\nOK\r\n") waiting)
receive_all-joined_example =
    receive_all-joined decode (codes ":1\r") (codes "\n$2\r\nO" ∷ codes "K\r\n" ∷ []) waiting
      decode-IsUtf8 (refl, (refl, tt))

both_resolved :
    (on_data decode (codes ":1\r\n$2\r\nOK\r\n") waiting).settled
    ≡ resolved 1 (number (Signed.plus 1)) ∷ resolved 2 (text (codes "OK")) ∷ []
unfolding decode on_data on_text drain parse_redis_reply reply_of_type read_line read_signed
    read_decimal read_digits bulk_text
both_resolved = refl

-- A server that is loading, and what a new connection finds.
parse_error_sticks_example :
    count_by is_resolved
      (run decode
        (connect ∷ send_command 3 ∷ receive (codes ":1\r\n") ∷ [])
        (on_data decode (codes "-LOADING\r\n") waiting)).settled
    ≡ count_by is_resolved (on_data decode (codes "-LOADING\r\n") waiting).settled
parse_error_sticks_example =
    parse_error_sticks decode (codes "-LOADING\r\n") waiting
      (connect ∷ send_command 3 ∷ receive (codes ":1\r\n") ∷ []) refl
      (unfold decode on_data on_text drain parse_redis_reply reply_of_type read_line in refl)

abbrev no_env : String → Option String
no_env name = none

abbrev at : ℕ → Call
at now = record { now = now; principal = some "operator" }

admitted-le-twice_example :
    admitted in_memory_store (read_limits node no_env) "operator" (at 1000 ∷ at 60999 ∷ []) []
    ≤ 2 * (read_limits node no_env).max_requests
admitted-le-twice_example =
    admitted-le-twice node no_env "operator" 1000 (at 1000 ∷ at 60999 ∷ []) []
      (unfold read_limits read_positive_int in omega arith)

redis_store-as-memory_example :
    answers
      (redis_store "prefix" (λ _. answered))
      (read_limits node no_env)
      (at 1000 ∷ at 61000 ∷ [])
      []
    ≡ answers in_memory_store (one_longer (read_limits node no_env)) (at 1000 ∷ at 61000 ∷ []) []
redis_store-as-memory_example = redis_store-as-memory node no_env "prefix" (at 1000 ∷ at 61000 ∷ [])

-- The third request in a window of two.
limited :
    answers in_memory_store
      (record { window_ms = 100; max_requests = 2 })
      (at 1 ∷ at 2 ∷ at 3 ∷ at 101 ∷ [])
      []
    ≡ ok true ∷ ok true ∷ err Error.too_many_requests ∷ ok true ∷ []
unfolding answers can_activate increment_in_memory lookup
limited = refl
