-- ===== src/Admin/Redis/Extends.antt =====
-- A reply that is read from the start of a text is read alike when more text follows.
use kafka_nest_playground.Prelude.{
  ℕ, zero, suc, ◌+◌, ◌≤◌, ◌≡◌, refl, false, [], ◌∷◌, ◌++◌, Option, none, some, arith, length,
  length-append, ltb, eqb, Bool-cases, inl, inr, ◌&&◌, ◌||◌,
}
use kafka_nest_playground.Outbox.Store.{take}
use kafka_nest_playground.Admin.Redis.{
  Units, Signed, RedisReply, Parsed, incomplete, out_of_fuel, failed, parsed, ◌>>=◌, read_line,
  read_signed, drop, bulk_text, bulk_reply, parse_items, array_reply, line_reply, integer_reply,
  reply_of_type, parse_redis_reply,
}

-- What reading a text with `t` behind it gives, from what reading the text gave.
abbrev pub Extends : {A : Type 0} → Units → Parsed A → Parsed A → Type 0
Extends t incomplete q = Unit {0}
Extends t out_of_fuel q = Unit {0}
Extends t (failed e) q = q ≡ failed e
Extends t (parsed a rest) q = q ≡ parsed a (rest ++ t)

module _ {A B : Type 0} (t : Units) where
  Extends-bind :
      (p q : Parsed A) (next next' : A → Units → Parsed B)
      → Extends t p q
      → ((a : A) (rest : Units) → Extends t (next a rest) (next' a (rest ++ t)))
      → Extends t (p >>= next) (q >>= next')
  Extends-bind incomplete q next next' h k = tt
  Extends-bind out_of_fuel q next next' h k = tt
  Extends-bind (failed e) q next next' h k = rw h
  Extends-bind (parsed a rest) q next next' h k = rw h (k a rest)

read_line-Extends : (t s : Units) → Extends t (read_line s) (read_line (s ++ t))
unfolding read_line
read_line-Extends t [] = tt
read_line-Extends t (c ∷ []) = tt
read_line-Extends t (c ∷ d ∷ s) = elim (Bool-cases (eqb c 13 && eqb d 10)) [
  | inl e ↦ rw e
  | inr e ↦ rw e (
      Extends-bind t (read_line (d ∷ s)) (read_line (d ∷ (s ++ t))) _ _
        (read_line-Extends t (d ∷ s)) (λ value rest. refl))
]

take-append : (n : ℕ) (s t : Units) → n ≤ length s → take n (s ++ t) ≡ take n s
take-append zero s t h = refl
take-append (suc n) [] t h = absurd (omega arith)
take-append (suc n) (c ∷ s) t h = cc (take-append n s t (omega arith))

drop-append : (n : ℕ) (s t : Units) → n ≤ length s → drop n (s ++ t) ≡ drop n s ++ t
drop-append zero s t h = refl
drop-append (suc n) [] t h = absurd (omega arith)
drop-append (suc n) (c ∷ s) t h = drop-append n s t (omega arith)

not_ltb-le : (a b : ℕ) → ltb a b ≡ false → b ≤ a
not_ltb-le a b h = ground arith

ltb_of_le : (a b : ℕ) → b ≤ a → ltb a b ≡ false
ltb_of_le a b h = ground arith

bulk_text-Extends :
    (t : Units) (n : ℕ) (rest : Units) → Extends t (bulk_text n rest) (bulk_text n (rest ++ t))
unfolding bulk_text
bulk_text-Extends t n rest = elim (Bool-cases (ltb (length rest) (n + 2))) [
  | inl e ↦ rw e tt
  | inr e ↦
      let enough : n + 2 ≤ length rest = not_ltb-le _ _ e in
      rw (
        e,
        ltb_of_le (length (rest ++ t)) (n + 2) (omega (arith, length-append rest t)),
        take-append n rest t (omega arith),
        drop-append (n + 2) rest t enough,
      )
]

bulk_reply-Extends :
    (t : Units) (n : Option Signed) (rest : Units)
    → Extends t (bulk_reply n rest) (bulk_reply n (rest ++ t))
bulk_reply-Extends t none rest = refl
bulk_reply-Extends t (some (Signed.plus n)) rest = bulk_text-Extends t n rest
bulk_reply-Extends t (some (Signed.minus n)) rest = elim (Bool-cases (eqb n 1)) [
  | inl e ↦ rw e
  | inr e ↦ rw e
]

integer_reply-Extends :
    (t : Units) (n : Option Signed) (rest : Units)
    → Extends t (integer_reply n rest) (integer_reply n (rest ++ t))
integer_reply-Extends t none rest = refl
integer_reply-Extends t (some n) rest = refl

line_reply-Extends :
    (t : Units) (kind : ℕ) (value rest : Units)
    → Extends t (line_reply kind value rest) (line_reply kind value (rest ++ t))
line_reply-Extends t kind value rest = elim (Bool-cases (eqb kind b'-')) [
  | inl e ↦ rw e
  | inr e ↦ elim (Bool-cases (eqb kind b':')) [
    | inl e' ↦ rw (e, e') (integer_reply-Extends t (read_signed value) rest)
    | inr e' ↦ rw (e, e')
  ]
]

module _ (t : Units) (item item' : Units → Parsed RedisReply)
    (reads : (s : Units) → Extends t (item s) (item' (s ++ t))) where
  parse_items-Extends :
      (n : ℕ) (s : Units) → Extends t (parse_items item n s) (parse_items item' n (s ++ t))
  unfolding parse_items
  parse_items-Extends zero s = refl
  parse_items-Extends (suc n) s =
      Extends-bind t (item s) (item' (s ++ t)) _ _ (reads s) (λ reply rest.
        Extends-bind t (parse_items item n rest) (parse_items item' n (rest ++ t)) _ _
          (parse_items-Extends n rest) (λ items last. refl))

  array_reply-Extends :
      (n : Option Signed) (rest : Units)
      → Extends t (array_reply item n rest) (array_reply item' n (rest ++ t))
  array_reply-Extends none rest = refl
  array_reply-Extends (some (Signed.plus n)) rest =
      Extends-bind t (parse_items item n rest) (parse_items item' n (rest ++ t)) _ _
        (parse_items-Extends n rest) (λ items last. refl)
  array_reply-Extends (some (Signed.minus n)) rest = refl

  reply_of_type-Extends :
      (kind : ℕ) (s : Units)
      → Extends t (reply_of_type item kind s) (reply_of_type item' kind (s ++ t))
  unfolding reply_of_type
  reply_of_type-Extends kind s =
      let line = read_line-Extends t s in
      elim (Bool-cases (eqb kind b'+' || (eqb kind b'-' || eqb kind b':'))) [
        | inl e ↦ rw e (Extends-bind t _ _ _ _ line (line_reply-Extends t kind))
        | inr e ↦ elim (Bool-cases (eqb kind b'$')) [
          | inl e' ↦
              rw (e, e')
                (Extends-bind t _ _ _ _ line (λ value. bulk_reply-Extends t (read_signed value)))
          | inr e' ↦ elim (Bool-cases (eqb kind b'*')) [
            | inl e'' ↦
                rw (e, e', e'')
                  (Extends-bind t _ _ _ _ line (λ value. array_reply-Extends (read_signed value)))
            | inr e'' ↦ rw (e, e', e'')
          ]
        ]
      ]

-- More text and more fuel change neither a reply nor an error.
pub parse_redis_reply-Extends :
    (f g : ℕ) (s t : Units)
    → f ≤ g
    → Extends t (parse_redis_reply f s) (parse_redis_reply g (s ++ t))
unfolding parse_redis_reply
parse_redis_reply-Extends zero g s t h = tt
parse_redis_reply-Extends (suc f) zero s t h = absurd (omega arith)
parse_redis_reply-Extends (suc f) (suc g) [] t h = tt
parse_redis_reply-Extends (suc f) (suc g) (kind ∷ s) t h =
    reply_of_type-Extends t (parse_redis_reply f) (parse_redis_reply g)
      (λ s'. parse_redis_reply-Extends f g s' t (omega arith)) kind s
