-- ===== src/Dlq/Rows.antt =====
-- Lemmas on the tables of the dead letters: counts under appends and deletions.
use kafka_nest_playground.Prelude.{
  ℕ, ◌+◌, ◌≡◌, refl, ap, sym, ◌∙◌, subst, String, Bool, true, false, List, [], ◌∷◌, ◌++◌, some, any,
  count_by, ◌||◌, eq_iff, eq_refl, arith, Bool-cases, inl, inr,
}
use kafka_nest_playground.Prelude.Decimal.{All}
use kafka_nest_playground.Dlq.Tables.{DeadLetterRow, has_id, find_by_id, save_dead_letter, filter}

module _ {ℓ} {A : Type ℓ} where
  pub count_by-filter :
      (p q : A → Bool) (xs : List A)
      → ((a : A) → p a ≡ true → q a ≡ true)
      → count_by p (filter q xs) ≡ count_by p xs
  unfolding filter
  count_by-filter p q [] h = refl
  count_by-filter p q (x ∷ xs) h = ground (arith, h x, count_by-filter p q xs h)

  pub count_by-filter_zero :
      (p q : A → Bool) (xs : List A)
      → ((a : A) → p a ≡ true → q a ≡ false)
      → count_by p (filter q xs) ≡ 0
  unfolding filter
  count_by-filter_zero p q [] h = refl
  count_by-filter_zero p q (x ∷ xs) h = ground (arith, h x, count_by-filter_zero p q xs h)

  pub count_by-zero :
      (p q : A → Bool) (xs : List A)
      → ((a : A) → p a ≡ true → q a ≡ true)
      → count_by q xs ≡ 0
      → count_by p xs ≡ 0
  count_by-zero p q [] h e = refl
  count_by-zero p q (x ∷ xs) h e = ground (arith, h x, count_by-zero p q xs h)

  pub count_by-any :
      (p q : A → Bool) (xs : List A)
      → ((a : A) → p a ≡ true → q a ≡ true)
      → any q xs ≡ false
      → count_by p xs ≡ 0
  count_by-any p q [] h e = refl
  count_by-any p q (x ∷ xs) h e = ground (arith, h x, count_by-any p q xs h)

  pub any-or : (p q : A → Bool) (xs : List A) → any (λ x. p x || q x) xs ≡ false → any p xs ≡ false
  any-or p q [] h = refl
  any-or p q (x ∷ xs) h = ground (arith, any-or p q xs)

  pub any-append : (p : A → Bool) (xs ys : List A) → any p (xs ++ ys) ≡ false → any p xs ≡ false
  any-append p [] ys h = refl
  any-append p (x ∷ xs) ys h = ground (arith, any-append p xs ys)

module _ {ℓ κ} {A : Type ℓ} (P : A → Type κ) where
  pub All-append : (xs ys : List A) → All P xs → All P ys → All P (xs ++ ys)
  All-append [] ys h k = k
  All-append (x ∷ xs) ys (h, hs) k = (h, All-append xs ys hs k)

  pub All-filter : (q : A → Bool) (xs : List A) → All P xs → All P (filter q xs)
  unfolding filter
  All-filter q [] h = h
  All-filter q (x ∷ xs) (h, hs) = elim (Bool-cases (q x)) [
    | inl e ↦ rw e (h, All-filter q xs hs)
    | inr e ↦ rw e (All-filter q xs hs)
  ]

module _ {ℓ κ μ} {A : Type ℓ} (P : A → Type κ) (Q : A → Type μ) where
  pub All-map : (xs : List A) → ((a : A) → P a → Q a) → All P xs → All Q xs
  All-map [] k h = tt
  All-map (x ∷ xs) k (h, hs) = (k x h, All-map xs k hs)

or_true : (a b : Bool) → b ≡ true → (a || b) ≡ true
or_true true b h = refl
or_true false b h = h

some-injective : {a b : DeadLetterRow} → some a ≡ some b → a ≡ b
some-injective h = cc

-- A row is among the rows in which it is.
pub All-has_id :
    (rows : List DeadLetterRow) → All (λ (r : DeadLetterRow). any (has_id r.id) rows ≡ true) rows
All-has_id [] = tt
All-has_id (r ∷ rs) =
    (rw (eq_refl r.id), All-map _ _ rs (λ a h. or_true (has_id a.id r) _ h) (All-has_id rs))

module _ {κ} (P : DeadLetterRow → Type κ) where
  pub find_by_id-All :
      (id : String) (rows : List DeadLetterRow) (r : DeadLetterRow)
      → All P rows
      → find_by_id id rows ≡ some r
      → P r × (r.id ≡ id)
  unfolding find_by_id
  find_by_id-All id [] r h e = cc
  find_by_id-All id (x ∷ xs) r (h, hs) e = elim (Bool-cases (has_id id x)) [
    | inr other ↦ find_by_id-All id xs r hs (sym (rw other) ∙ e)
    | inl here ↦
        let first : find_by_id id (x ∷ xs) ≡ some x = rw here in
        let same : x ≡ r = some-injective (sym first ∙ e) in
        (subst P same h, ap (λ (y : DeadLetterRow). y.id) (sym same) ∙ (eq_iff x.id id).0 here)
  ]

  -- `save` writes the row of its id, and keeps the others.
  pub save_dead_letter-All :
      (now : ℕ) (row : DeadLetterRow) (rows : List DeadLetterRow)
      → P (record row { version = row.version + 1; updated_at = now })
      → All (λ (r : DeadLetterRow). has_id row.id r ≡ false → P r) rows
      → All P (save_dead_letter now row rows)
  unfolding save_dead_letter
  save_dead_letter-All now row [] h hs = tt
  save_dead_letter-All now row (r ∷ rs) h (k, ks) = elim (Bool-cases (has_id row.id r)) [
    | inl e ↦ rw e (h, save_dead_letter-All now row rs h ks)
    | inr e ↦ rw e (k e, save_dead_letter-All now row rs h ks)
  ]

-- The ids of the table are those that it had.
pub any-save_dead_letter :
    (id : String) (now : ℕ) (row : DeadLetterRow) (rows : List DeadLetterRow)
    → any (has_id id) (save_dead_letter now row rows) ≡ any (has_id id) rows
unfolding save_dead_letter
any-save_dead_letter id now row [] = refl
any-save_dead_letter id now row (r ∷ rs) = elim (Bool-cases (has_id row.id r)) [
  | inl e ↦
      let same : row.id ≡ r.id = sym ((eq_iff r.id row.id).0 e) in
      rw (e, any-save_dead_letter id now row rs, same)
  | inr e ↦ rw (e, any-save_dead_letter id now row rs)
]
