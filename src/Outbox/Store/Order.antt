-- ===== src/Outbox/Store/Order.antt =====
-- The order in which a claim chooses the rows of the outbox.
use kafka_nest_playground.Prelude.{
  ℕ, zero, suc, ◌+◌, ◌≤◌, String, ◌≡◌, refl, ap, Bool, true, List, [], ◌∷◌, count_by, length, ◌&&◌,
  ◌||◌, arith, Bool-cases, inl, inr, ◌⊎◌,
}
use kafka_nest_playground.Outbox.Entity.{OutboxEvent}
use kafka_nest_playground.Outbox.Store.{
  is_publishable, text_leb, precedes, insert_sorted, publishable_rows, take, candidates,
}

text_leb-total : (s t : String) → (text_leb s t || text_leb t s) ≡ true
unfolding text_leb
text_leb-total String.[] t = refl
text_leb-total (String.◌∷◌ c s) String.[] = refl
text_leb-total (String.◌∷◌ c s) (String.◌∷◌ d t) = ground (arith, text_leb-total s t)

text_leb_trans : (s t u : String) → text_leb s t ≡ true → text_leb t u ≡ true → text_leb s u ≡ true
unfolding text_leb
text_leb_trans String.[] t u p q = refl
text_leb_trans (String.◌∷◌ c s) String.[] u p q = cc
text_leb_trans (String.◌∷◌ c s) (String.◌∷◌ d t) String.[] p q = cc
text_leb_trans (String.◌∷◌ c s) (String.◌∷◌ d t) (String.◌∷◌ e u) p q =
    ground (arith, text_leb_trans s t u)

precedes-total : (a b : OutboxEvent) → (precedes a b || precedes b a) ≡ true
precedes-total a b = ground (arith, text_leb-total a.id b.id)

precedes_trans :
    (a b c : OutboxEvent) → precedes a b ≡ true → precedes b c ≡ true → precedes a c ≡ true
precedes_trans a b c p q = ground (arith, text_leb_trans a.id b.id c.id)

-- `a` precedes every row of the list.
abbrev pub is_before : OutboxEvent → List OutboxEvent → Bool
is_before a [] = true
is_before a (x ∷ xs) = precedes a x && is_before a xs

abbrev pub is_sorted : List OutboxEvent → Bool
is_sorted [] = true
is_sorted (x ∷ xs) = is_before x xs && is_sorted xs

-- Every row of the first list precedes every row of the second.
abbrev pub are_before : List OutboxEvent → List OutboxEvent → Bool
are_before [] ys = true
are_before (x ∷ xs) ys = is_before x ys && are_before xs ys

is_before-insert_sorted :
    (a x : OutboxEvent) (xs : List OutboxEvent)
    → is_before a (insert_sorted x xs) ≡ (precedes a x && is_before a xs)
unfolding insert_sorted
is_before-insert_sorted a x [] = refl
is_before-insert_sorted a x (y ∷ ys) = ground (arith, is_before-insert_sorted a x ys)

is_before_trans :
    (a b : OutboxEvent) (xs : List OutboxEvent)
    → precedes a b ≡ true
    → is_before b xs ≡ true
    → is_before a xs ≡ true
is_before_trans a b [] p q = refl
is_before_trans a b (x ∷ xs) p q = ground (arith, precedes_trans a b x, is_before_trans a b xs p)

insert_sorted-is_sorted :
    (x : OutboxEvent) (xs : List OutboxEvent)
    → is_sorted xs ≡ true
    → is_sorted (insert_sorted x xs) ≡ true
unfolding insert_sorted
insert_sorted-is_sorted x [] h = refl
insert_sorted-is_sorted x (y ∷ ys) h = elim (Bool-cases (precedes x y)) [
  | inl before ↦ rw before (ground (arith, is_before_trans x y ys before))
  | inr after ↦
      let other : precedes y x ≡ true = ground (arith, precedes-total x y) in
      rw after (ground (arith, insert_sorted-is_sorted x ys, is_before-insert_sorted y x ys))
]

publishable_rows-is_sorted :
    (now : ℕ) (rows : List OutboxEvent) → is_sorted (publishable_rows now rows) ≡ true
unfolding publishable_rows
publishable_rows-is_sorted now [] = refl
publishable_rows-is_sorted now (x ∷ xs) =
    ground (
      arith,
      publishable_rows-is_sorted now xs,
      insert_sorted-is_sorted x (publishable_rows now xs),
    )

count-insert :
    (p : OutboxEvent → Bool) (x : OutboxEvent) (xs : List OutboxEvent)
    → count_by p (insert_sorted x xs) ≡ count_by p (x ∷ xs)
unfolding insert_sorted
count-insert p x [] = refl
count-insert p x (y ∷ ys) = ground (arith, count-insert p x ys)

count-publishable :
    (p : OutboxEvent → Bool) (now : ℕ) (rows : List OutboxEvent)
    → count_by p (publishable_rows now rows) ≡ count_by (λ r. is_publishable now r && p r) rows
unfolding publishable_rows
count-publishable p now [] = refl
count-publishable p now (x ∷ xs) =
    ground (arith, count-publishable p now xs, count-insert p x (publishable_rows now xs))

abbrev pub drop : ℕ → List OutboxEvent → List OutboxEvent
drop zero xs = xs
drop (suc n) [] = []
drop (suc n) (x ∷ xs) = drop n xs

count-take-drop :
    (p : OutboxEvent → Bool) (n : ℕ) (xs : List OutboxEvent)
    → count_by p (take n xs) + count_by p (drop n xs) ≡ count_by p xs
count-take-drop p zero xs = omega arith
count-take-drop p (suc n) [] = omega arith
count-take-drop p (suc n) (x ∷ xs) = ground (arith, count-take-drop p n xs)

is_before-drop :
    (a : OutboxEvent) (n : ℕ) (xs : List OutboxEvent)
    → is_before a xs ≡ true
    → is_before a (drop n xs) ≡ true
is_before-drop a zero xs h = h
is_before-drop a (suc n) [] h = h
is_before-drop a (suc n) (x ∷ xs) h = is_before-drop a n xs (ground arith)

are_before-take-drop :
    (n : ℕ) (xs : List OutboxEvent)
    → is_sorted xs ≡ true
    → are_before (take n xs) (drop n xs) ≡ true
are_before-take-drop zero xs h = refl
are_before-take-drop (suc n) [] h = refl
are_before-take-drop (suc n) (x ∷ xs) h =
    ground (arith, are_before-take-drop n xs, is_before-drop x n xs)

length-take :
    (n : ℕ) (xs : List OutboxEvent)
    → (length (take n xs) ≤ n) × ((length (take n xs) ≡ n) ⊎ (drop n xs ≡ []))
length-take zero xs = (omega arith, inl refl)
length-take (suc n) [] = (omega arith, inr refl)
length-take (suc n) (x ∷ xs) =
    let (short, full) = length-take n xs in
    (omega (arith, short), elim full [ inl e ↦ inl (ap suc e) | inr e ↦ inr e ])

-- The rows that a claim chooses, and those that it leaves for later.
pub record IsOldestFirst (now limit : ℕ) (rows chosen left : List OutboxEvent) : Type 0 where
  pub all_of_them :
      (p : OutboxEvent → Bool)
      → count_by p chosen + count_by p left ≡ count_by (λ r. is_publishable now r && p r) rows
  pub oldest : are_before chosen left ≡ true
  pub bounded : length chosen ≤ limit
  pub full : (length chosen ≡ limit) ⊎ (left ≡ [])

-- A claim chooses the oldest of the rows that may be published: with the rows that it leaves, those
-- are exactly the publishable rows of the table, each as often as there; every chosen row precedes
-- every row left, by its date and then its id; and it chooses no more than the limit, and as many as
-- the limit unless none is left.
pub candidates-IsOldestFirst :
    (now limit : ℕ) (rows : List OutboxEvent)
    → (left : List OutboxEvent) × IsOldestFirst now limit rows (candidates now limit rows) left
unfolding candidates
candidates-IsOldestFirst now limit rows =
    let all = publishable_rows now rows in
    let (short, full) = length-take limit all in
    (
      drop limit all,
      record {
        all_of_them = λ p. omega (arith, count-take-drop p limit all, count-publishable p now rows);
        oldest = are_before-take-drop limit all (publishable_rows-is_sorted now rows);
        bounded = short;
        full = full;
      },
    )
