-- ===== src/Admin/Redis/Streams/Pieces.antt =====
-- `onData` on the decoded text: what was drained and what comes behind it.
use kafka_nest_playground.Prelude.{
  ℕ, suc, ◌≡◌, refl, ◌∙◌, sym, ap, true, false, List, [], ◌∷◌, ◌++◌, append_assoc, subst, arith,
  length, length-append, if◌then◌else◌, Bool-cases, inl, inr,
}
use kafka_nest_playground.Admin.Redis.{
  Units, RedisReply, ParseError, Parsed, incomplete, out_of_fuel, failed, parsed, parse_redis_reply,
}
use kafka_nest_playground.Admin.Redis.Extends.{Extends, parse_redis_reply-Extends}
use kafka_nest_playground.Admin.Redis.Client.{Client, Settled, resolved, settle, drain, on_text}

-- What the callers can see of a client, and what the next data meets. The buffer behind a destroyed
-- socket is left out.
abbrev pub observed : Client → Client
observed c = record c { buffer = if c.connected then c.buffer else [] }

abbrev pub parse : Units → Parsed RedisReply
parse s = parse_redis_reply (suc (length s)) s

parse-Extends : (s t : Units) → Extends t (parse s) (parse (s ++ t))
parse-Extends s t =
    parse_redis_reply-Extends (suc (length s)) (suc (length (s ++ t))) s t
      (omega (arith, length-append s t))

pub poisoned_more : (s t : Units) (e : ParseError) → parse s ≡ failed e → parse (s ++ t) ≡ failed e
poisoned_more s t e h =
    subst (λ (p : Parsed RedisReply). Extends t p (parse (s ++ t))) h (parse-Extends s t)

settle-append :
    (id : ℕ) (ids : List ℕ) (s t : Units) (done : List Settled) (p : Parsed RedisReply)
    → parse s ≡ p
    → Extends t p (parse (s ++ t))
    → ((rest : Units) (done' : List Settled)
        → observed (drain ids (rest ++ t) done') ≡ observed (on_text t (drain ids rest done')))
    → observed (drain (id ∷ ids) (s ++ t) done)
      ≡ observed (on_text t (settle id ids s done p (drain ids)))
unfolding drain on_text
settle-append id ids s t done incomplete e h ih = refl
settle-append id ids s t done out_of_fuel e h ih = refl
settle-append id ids s t done (failed x) e h ih = rw h
settle-append id ids s t done (parsed reply rest) e h ih =
    rw h (ih rest (done ++ resolved id reply ∷ []))

-- Data behind what was drained is as if it had been there before.
pub drain-append :
    (ids : List ℕ) (s t : Units) (done : List Settled)
    → observed (drain ids (s ++ t) done) ≡ observed (on_text t (drain ids s done))
unfolding drain on_text
drain-append [] s t done = refl
drain-append (id ∷ ids) s t done =
    settle-append id ids s t done (parse s) refl (parse-Extends s t)
      (λ rest done'. drain-append ids rest t done')

pub on_text_connected :
    (t : Units) (c : Client)
    → c.connected ≡ true
    → on_text t c ≡ drain c.pending (c.buffer ++ t) c.settled
unfolding on_text
on_text_connected t c e = rw e

pub on_text_destroyed : (t : Units) (c : Client) → c.connected ≡ false → on_text t c ≡ c
unfolding on_text
on_text_destroyed t c e = rw e

pub on_text-append :
    (s t : Units) (c : Client) → observed (on_text (s ++ t) c) ≡ observed (on_text t (on_text s c))
on_text-append s t c = elim (Bool-cases c.connected) [
  | inl e ↦
      ap observed (
        on_text_connected (s ++ t) c e
        ∙ ap (λ (b : Units). drain c.pending b c.settled) (sym (append_assoc c.buffer s t)))
      ∙ (drain-append c.pending (c.buffer ++ s) t c.settled
          ∙ ap (λ (d : Client). observed (on_text t d)) (sym (on_text_connected s c e)))
  | inr e ↦ ap observed (
      on_text_destroyed (s ++ t) c e
      ∙ (sym (on_text_destroyed t c e) ∙ ap (on_text t) (sym (on_text_destroyed s c e))))
]
