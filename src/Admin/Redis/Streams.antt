-- ===== src/Admin/Redis/Streams.antt =====
-- The client on a stream of data: in whatever pieces it comes, and after an error in it.
pub mod Pieces
use kafka_nest_playground.Prelude.{
  ℕ, suc, ltb, leb, ◌||◌, ◌≡◌, refl, ◌∙◌, sym, ap, Bool, true, false, List, [], ◌∷◌, ◌++◌, map,
  append_assoc, append-nil, subst, count_by, count_by-append, arith, length, length-append,
  if◌then◌else◌, Bool-cases, inl, inr,
}
use kafka_nest_playground.Prelude.Decimal.{All}
use kafka_nest_playground.Admin.Redis.{
  Units, RedisReply, ParseError, Parsed, incomplete, out_of_fuel, failed, parsed, parse_redis_reply,
}
use kafka_nest_playground.Admin.Redis.Extends.{Extends, parse_redis_reply-Extends}
use kafka_nest_playground.Admin.Redis.Client.{
  Client, Failure, parse_failed, socket_failed, Settled, resolved, rejected, reject_pending, settle,
  Bytes, drain, on_text, on_data, Event, connect, socket_error, close, send_command, receive, step,
  run,
}
use kafka_nest_playground.Admin.Redis.Streams.Pieces.{
  observed, parse, poisoned_more, on_text_connected, on_text_destroyed, on_text-append,
}

-- The data in one piece.
abbrev pub joined : List Units → Units
joined [] = []
joined (chunk ∷ chunks) = chunk ++ joined chunks

abbrev receive_texts : List Units → Client → Client
receive_texts [] c = c
receive_texts (text ∷ texts) c = receive_texts texts (on_text text c)

receive_texts-joined :
    (first : Units) (texts : List Units) (c : Client)
    → observed (receive_texts (first ∷ texts) c) ≡ observed (on_text (joined (first ∷ texts)) c)
receive_texts-joined first [] c = rw append-nil
receive_texts-joined first (text ∷ texts) c =
    receive_texts-joined text texts (on_text first c)
    ∙ sym (on_text-append first (joined (text ∷ texts)) c)

-- The first byte, if there is one, is not in the middle of a character.
abbrev pub starts_character : Bytes → Bool
starts_character [] = true
starts_character (b ∷ bytes) = ltb b 128 || leb 192 b

-- UTF-8 is decoded character by character, and a byte that starts one ends what was before it.
pub record IsUtf8 (decode : Bytes → Units) : Type 0 where
  pub empty : decode [] ≡ []
  pub splits : (s t : Bytes) → starts_character t ≡ true → decode (s ++ t) ≡ decode s ++ decode t

starts_character-joined :
    (chunks : List Bytes)
    → All (λ t. starts_character t ≡ true) chunks
    → starts_character (joined chunks) ≡ true
starts_character-joined [] h = refl
starts_character-joined ([] ∷ chunks) h = starts_character-joined chunks h.1
starts_character-joined ((b ∷ bytes) ∷ chunks) h = h.0

decode-joined :
    (decode : Bytes → Units)
    → IsUtf8 decode
    → (first : Bytes) (chunks : List Bytes) → All (λ t. starts_character t ≡ true) chunks
    → decode (joined (first ∷ chunks)) ≡ joined (map decode (first ∷ chunks))
decode-joined decode utf8 first [] h =
    utf8.splits first [] refl ∙ ap (λ (t : Units). decode first ++ t) utf8.empty
decode-joined decode utf8 first (chunk ∷ chunks) h =
    utf8.splits first (joined (chunk ∷ chunks)) (starts_character-joined (chunk ∷ chunks) h)
    ∙ ap (λ (t : Units). decode first ++ t) (decode-joined decode utf8 chunk chunks h.1)

abbrev pub receive_all : (decode : Bytes → Units) → List Bytes → Client → Client
receive_all decode [] c = c
receive_all decode (chunk ∷ chunks) c = receive_all decode chunks (on_data decode chunk c)

receive_all-texts :
    (decode : Bytes → Units) (chunks : List Bytes) (c : Client)
    → receive_all decode chunks c ≡ receive_texts (map decode chunks) c
unfolding on_data
receive_all-texts decode [] c = refl
receive_all-texts decode (chunk ∷ chunks) c =
    receive_all-texts decode chunks (on_text (decode chunk) c)

-- However the socket splits the data into pieces, even inside a reply, but not inside a character of
-- UTF-8, every command comes to the same, in the same order, as if all of it came at once, the same
-- commands are left waiting, and the client is in the same state. (Each piece is decoded alone, so
-- that a split inside a character damages it.)
pub receive_all-joined :
    (decode : Bytes → Units) (first : Bytes) (chunks : List Bytes) (c : Client)
    → IsUtf8 decode
    → All (λ t. starts_character t ≡ true) chunks
    → observed (receive_all decode (first ∷ chunks) c)
      ≡ observed (on_data decode (joined (first ∷ chunks)) c)
unfolding on_data
receive_all-joined decode first chunks c utf8 split =
    ap observed (receive_all-texts decode (first ∷ chunks) c)
    ∙ (receive_texts-joined (decode first) (map decode chunks) c
        ∙ ap (λ (t : Units). observed (on_text t c))
            (sym (decode-joined decode utf8 first chunks split)))

-- The text that has come in begins with what the parser throws at.
abbrev pub IsPoisoned : Client → Type 0
IsPoisoned c = (e : ParseError) × (parse c.buffer ≡ failed e)

abbrev pub is_resolved : Settled → Bool
is_resolved (resolved id reply) = true
is_resolved (rejected failure id) = false

count_resolved-rejected :
    (f : Failure) (ids : List ℕ) → count_by is_resolved (map (rejected f) ids) ≡ 0
count_resolved-rejected f [] = refl
count_resolved-rejected f (id ∷ ids) = count_resolved-rejected f ids

-- A poisoned client resolves nothing and stays poisoned.
abbrev StaysPoisoned : Client → Client → Type 0
StaysPoisoned c c' =
    IsPoisoned c' × (count_by is_resolved c'.settled ≡ count_by is_resolved c.settled)

reject_pending-StaysPoisoned :
    (f : Failure) (c : Client)
    → count_by is_resolved (reject_pending f c).settled ≡ count_by is_resolved c.settled
reject_pending-StaysPoisoned f c =
    count_by-append is_resolved c.settled (map (rejected f) c.pending)
    ∙ omega (arith, count_resolved-rejected f c.pending)

drain-StaysPoisoned :
    (ids : List ℕ) (s : Units) (done : List Settled) (e : ParseError)
    → parse s ≡ failed e
    → (parse (drain ids s done).buffer ≡ failed e)
      × (count_by is_resolved (drain ids s done).settled ≡ count_by is_resolved done)
unfolding drain
drain-StaysPoisoned [] s done e h = (h, refl)
drain-StaysPoisoned (id ∷ ids) s done e h = rw h (
  h,
  reject_pending-StaysPoisoned (parse_failed e)
      (record { connected = false; buffer = s; pending = id ∷ ids; settled = done }),
)

on_text-StaysPoisoned :
    (t : Units) (c : Client) (e : ParseError)
    → parse c.buffer ≡ failed e
    → StaysPoisoned c (on_text t c)
on_text-StaysPoisoned t c e h = elim (Bool-cases c.connected) [
  | inl u ↦
      let still : parse (c.buffer ++ t) ≡ failed e = poisoned_more c.buffer t e h in
      let (same, kept) = drain-StaysPoisoned c.pending (c.buffer ++ t) c.settled e still in
      rw (on_text_connected t c u) ((e, same), kept)
  | inr u ↦ rw (on_text_destroyed t c u) ((e, h), refl)
]

step-StaysPoisoned :
    (decode : Bytes → Units) (ev : Event) (c : Client)
    → IsPoisoned c
    → StaysPoisoned c (step decode ev c)
unfolding step on_data
step-StaysPoisoned decode connect c p = (p, refl)
step-StaysPoisoned decode socket_error c p = (p, reject_pending-StaysPoisoned socket_failed c)
step-StaysPoisoned decode close c p = (p, refl)
step-StaysPoisoned decode (send_command id) c p = (p, refl)
step-StaysPoisoned decode (receive chunk) c (e, h) = on_text-StaysPoisoned (decode chunk) c e h

run_poisoned :
    (decode : Bytes → Units) (es : List Event) (c : Client)
    → IsPoisoned c
    → count_by is_resolved (run decode es c).settled ≡ count_by is_resolved c.settled
unfolding run
run_poisoned decode [] c p = refl
run_poisoned decode (ev ∷ es) c p =
    let (p', kept) = step-StaysPoisoned decode ev c p in
    run_poisoned decode es (step decode ev c) p' ∙ kept

settle-IsPoisoned :
    (id : ℕ) (ids : List ℕ) (s : Units) (done : List Settled) (p : Parsed RedisReply)
    → parse s ≡ p
    → ((rest : Units) (done' : List Settled)
        → (drain ids rest done').connected ≡ false
        → IsPoisoned (drain ids rest done'))
    → (settle id ids s done p (drain ids)).connected ≡ false
    → IsPoisoned (settle id ids s done p (drain ids))
settle-IsPoisoned id ids s done incomplete e ih h = cc
settle-IsPoisoned id ids s done out_of_fuel e ih h = cc
settle-IsPoisoned id ids s done (failed x) e ih h = (x, e)
settle-IsPoisoned id ids s done (parsed reply rest) e ih h = ih rest _ h

drain-IsPoisoned :
    (ids : List ℕ) (s : Units) (done : List Settled)
    → (drain ids s done).connected ≡ false
    → IsPoisoned (drain ids s done)
unfolding drain
drain-IsPoisoned [] s done h = cc
drain-IsPoisoned (id ∷ ids) s done h =
    settle-IsPoisoned id ids s done (parse s) refl (drain-IsPoisoned ids) h

-- When data makes the client destroy its socket (the parser threw at it), no command is ever
-- resolved again, whatever connects, is sent and comes in later: the data stays in the buffer, and
-- every later reply is read from behind it.
pub parse_error_sticks :
    (decode : Bytes → Units) (chunk : Bytes) (c : Client) (es : List Event)
    → c.connected ≡ true
    → (on_data decode chunk c).connected ≡ false
    → count_by is_resolved (run decode es (on_data decode chunk c)).settled
      ≡ count_by is_resolved (on_data decode chunk c).settled
unfolding on_data
parse_error_sticks decode chunk c es e h =
    let same = on_text_connected (decode chunk) c e in
    run_poisoned decode es (on_text (decode chunk) c) (
      subst IsPoisoned (sym same) (
        drain-IsPoisoned c.pending (c.buffer ++ decode chunk) c.settled
          (ap (λ (d : Client). d.connected) (sym same) ∙ h)))
