-- ===== src/Admin/Redis/Fuel.antt =====
-- The fuel of a parse: more than the length of the text is enough, at any depth of nesting.
use kafka_nest_playground.Prelude.{
  ℕ, zero, suc, ◌+◌, ◌≤◌, ◌<◌, [], ◌∷◌, Option, none, some, arith, length, ltb, eqb, Bool-cases,
  inl, inr, ◌&&◌, ◌||◌,
}
use kafka_nest_playground.Admin.Redis.{
  Units, Signed, RedisReply, Parsed, incomplete, out_of_fuel, failed, parsed, ◌>>=◌, read_line,
  read_signed, drop, bulk_text, bulk_reply, parse_items, array_reply, line_reply, integer_reply,
  reply_of_type, parse_redis_reply,
}

-- The fuel was enough, and what is left of the text is no longer than `n`.
abbrev pub Within : {A : Type 0} → ℕ → Parsed A → Type 0
Within n incomplete = Unit {0}
Within n out_of_fuel = ⊥
Within n (failed e) = Unit {0}
Within n (parsed a rest) = length rest ≤ n

Within-bind :
    {A B : Type 0} (n : ℕ) (p : Parsed A) (next : A → Units → Parsed B)
    → Within n p
    → ((a : A) (rest : Units) → length rest ≤ n → Within n (next a rest))
    → Within n (p >>= next)
Within-bind n incomplete next h k = tt
Within-bind n out_of_fuel next h k = h
Within-bind n (failed e) next h k = tt
Within-bind n (parsed a rest) next h k = k a rest h

Within-le : {A : Type 0} (m n : ℕ) (p : Parsed A) → m ≤ n → Within m p → Within n p
Within-le m n incomplete le h = tt
Within-le m n out_of_fuel le h = h
Within-le m n (failed e) le h = tt
Within-le m n (parsed a rest) le h = omega arith

read_line-Within : (s : Units) → Within (length s) (read_line s)
unfolding read_line
read_line-Within [] = tt
read_line-Within (c ∷ []) = tt
read_line-Within (c ∷ d ∷ s) = elim (Bool-cases (eqb c 13 && eqb d 10)) [
  | inl e ↦ rw e (omega arith)
  | inr e ↦ rw e (
      Within-bind _ (read_line (d ∷ s)) _
        (Within-le _ _ (read_line (d ∷ s)) (omega arith) (read_line-Within (d ∷ s)))
        (λ value rest h. h))
]

length-drop : (n : ℕ) (s : Units) → length (drop n s) ≤ length s
length-drop zero s = omega arith
length-drop (suc n) [] = omega arith
length-drop (suc n) (c ∷ s) = omega (arith, length-drop n s)

bulk_reply-Within : (n : Option Signed) (rest : Units) → Within (length rest) (bulk_reply n rest)
unfolding bulk_text
bulk_reply-Within none rest = tt
bulk_reply-Within (some (Signed.plus n)) rest = elim (Bool-cases (ltb (length rest) (n + 2))) [
  | inl e ↦ rw e tt
  | inr e ↦ rw e (length-drop (n + 2) rest)
]
bulk_reply-Within (some (Signed.minus n)) rest = elim (Bool-cases (eqb n 1)) [
  | inl e ↦ rw e (omega arith)
  | inr e ↦ rw e tt
]

integer_reply-Within :
    (n : Option Signed) (rest : Units) → Within (length rest) (integer_reply n rest)
integer_reply-Within none rest = tt
integer_reply-Within (some n) rest = omega arith

line_reply-Within :
    (kind : ℕ) (value rest : Units) → Within (length rest) (line_reply kind value rest)
line_reply-Within kind value rest = elim (Bool-cases (eqb kind b'-')) [
  | inl e ↦ rw e tt
  | inr e ↦ elim (Bool-cases (eqb kind b':')) [
    | inl e' ↦ rw (e, e') (integer_reply-Within (read_signed value) rest)
    | inr e' ↦ rw (e, e') (omega arith)
  ]
]

module _ (item : Units → Parsed RedisReply) (bound : ℕ)
    (reads : (s : Units) → length s < bound → Within (length s) (item s)) where
  parse_items-Within :
      (n : ℕ) (s : Units) → length s < bound → Within (length s) (parse_items item n s)
  unfolding parse_items
  parse_items-Within zero s h = omega arith
  parse_items-Within (suc n) s h = Within-bind _ (item s) _ (reads s h) (λ reply rest le.
      Within-bind _ (parse_items item n rest) _
        (Within-le _ _ (parse_items item n rest) le (parse_items-Within n rest (omega arith)))
        (λ items last le'. le'))

  array_reply-Within :
      (n : Option Signed) (rest : Units)
      → length rest < bound
      → Within (length rest) (array_reply item n rest)
  array_reply-Within none rest h = tt
  array_reply-Within (some (Signed.plus n)) rest h =
      Within-bind _ (parse_items item n rest) _ (parse_items-Within n rest h) (λ items last le. le)
  array_reply-Within (some (Signed.minus n)) rest h = omega arith

  reply_of_type-Within :
      (kind : ℕ) (s : Units) → length s < bound → Within (length s) (reply_of_type item kind s)
  unfolding reply_of_type
  reply_of_type-Within kind s h =
      let line = read_line-Within s in
      elim (Bool-cases (eqb kind b'+' || (eqb kind b'-' || eqb kind b':'))) [
        | inl e ↦ rw e (
            Within-bind _ (read_line s) _ line (λ value rest le.
              Within-le _ _ (line_reply kind value rest) le (line_reply-Within kind value rest)))
        | inr e ↦ elim (Bool-cases (eqb kind b'$')) [
          | inl e' ↦
              rw (e, e')
                (Within-bind _ (read_line s) _ line (λ value rest le.
                  Within-le _ _ (bulk_reply (read_signed value) rest) le
                    (bulk_reply-Within (read_signed value) rest)))
          | inr e' ↦ elim (Bool-cases (eqb kind b'*')) [
            | inl e'' ↦
                rw (e, e', e'')
                  (Within-bind _ (read_line s) _ line (λ value rest le.
                    Within-le _ _ (array_reply item (read_signed value) rest) le
                      (array_reply-Within (read_signed value) rest (omega arith))))
            | inr e'' ↦ rw (e, e', e'') tt
          ]
        ]
      ]

-- A reply takes a part of the text, and the fuel does not run out.
pub parse_redis_reply-Within :
    (f : ℕ) (s : Units) → length s < f → Within (length s) (parse_redis_reply f s)
unfolding parse_redis_reply
parse_redis_reply-Within zero s h = absurd (omega arith)
parse_redis_reply-Within (suc f) [] h = tt
parse_redis_reply-Within (suc f) (kind ∷ s) h =
    Within-le _ _ (reply_of_type (parse_redis_reply f) kind s) (omega arith) (
      reply_of_type-Within (parse_redis_reply f) f (λ s'. parse_redis_reply-Within f s') kind s
        (omega arith))
