-- ===== src/Outbox/Store/Rows.antt =====
-- The rows of an outbox table by their ids.
use kafka_nest_playground.Prelude.{
  ℕ, zero, suc, ◌≤◌, String, ◌≡◌, refl, true, false, List, [], ◌∷◌, map, Option, none, some, any,
  count_by, if◌then◌else◌, ◌==◌, eq_iff, arith,
}
use kafka_nest_playground.Outbox.Entity.{OutboxEvent}
use kafka_nest_playground.Outbox.Store.{
  is_publishable, insert_sorted, publishable_rows, take, candidates, has_id, leased, lease_rows,
  update_row, find_row,
}

-- No id stands twice, as the primary key guarantees.
pub record HasDistinctIds (rows : List OutboxEvent) : Type 0 where
  pub at : (k : String) → count_by (has_id k) rows ≤ 1

abbrev pub map_row : (OutboxEvent → OutboxEvent) → Option OutboxEvent → Option OutboxEvent
map_row f none = none
map_row f (some r) = some (f r)

module _ (k : String) where
  pub find_row-absent :
      (rows : List OutboxEvent) → count_by (has_id k) rows ≤ 0 → find_row k rows ≡ none
  unfolding find_row
  find_row-absent [] h = refl
  find_row-absent (x ∷ xs) h = ground (arith, find_row-absent xs)

  pub any-find_row :
      (rows : List OutboxEvent) (r : OutboxEvent)
      → find_row k rows ≡ some r
      → (any (has_id k) rows ≡ true) × (r.id ≡ k)
  unfolding find_row
  any-find_row [] r h = cc
  any-find_row (x ∷ xs) r h = ground (arith, any-find_row xs r, eq_iff x.id k)

  pub find_row-any :
      (rows : List OutboxEvent) → any (has_id k) rows ≡ false → find_row k rows ≡ none
  unfolding find_row
  find_row-any [] h = refl
  find_row-any (x ∷ xs) h = ground (arith, find_row-any xs)

  pub find_row-none :
      (rows : List OutboxEvent) → find_row k rows ≡ none → any (has_id k) rows ≡ false
  unfolding find_row
  find_row-none [] h = refl
  find_row-none (x ∷ xs) h = ground (arith, find_row-none xs)

  pub count-insert_sorted :
      (x : OutboxEvent) (xs : List OutboxEvent)
      → count_by (has_id k) (insert_sorted x xs) ≡ count_by (has_id k) (x ∷ xs)
  unfolding insert_sorted
  count-insert_sorted x [] = refl
  count-insert_sorted x (y ∷ ys) = ground (arith, count-insert_sorted x ys)

  pub count-publishable_rows :
      (now : ℕ) (rows : List OutboxEvent)
      → count_by (has_id k) (publishable_rows now rows) ≤ count_by (has_id k) rows
  unfolding publishable_rows
  count-publishable_rows now [] = omega arith
  count-publishable_rows now (x ∷ xs) =
      ground (arith, count-publishable_rows now xs, count-insert_sorted x (publishable_rows now xs))

  pub count-take :
      (n : ℕ) (rows : List OutboxEvent)
      → count_by (has_id k) (take n rows) ≤ count_by (has_id k) rows
  count-take zero rows = ground arith
  count-take (suc n) [] = omega arith
  count-take (suc n) (x ∷ xs) = ground (arith, count-take n xs)

  -- Under distinct ids the sorting and the choice keep each id's row.
  pub find_row-insert_sorted :
      (x : OutboxEvent) (xs : List OutboxEvent)
      → count_by (has_id k) (x ∷ xs) ≤ 1
      → find_row k (insert_sorted x xs) ≡ find_row k (x ∷ xs)
  unfolding find_row insert_sorted
  find_row-insert_sorted x [] h = refl
  find_row-insert_sorted x (y ∷ ys) h =
      ground (arith, find_row-insert_sorted x ys, find_row-absent (y ∷ ys), find_row-absent ys)

  pub find_row-publishable_rows :
      (now : ℕ) (rows : List OutboxEvent) (e : OutboxEvent)
      → count_by (has_id k) rows ≤ 1
      → find_row k (publishable_rows now rows) ≡ some e
      → find_row k rows ≡ some e
  unfolding find_row publishable_rows
  find_row-publishable_rows now [] e h there = there
  find_row-publishable_rows now (x ∷ xs) e h there = ground (
    arith,
    find_row-publishable_rows now xs e,
    count-publishable_rows now xs,
    find_row-insert_sorted x (publishable_rows now xs),
    find_row-absent xs,
    find_row-absent (publishable_rows now xs),
  )

  pub find_row-take :
      (n : ℕ) (rows : List OutboxEvent) (e : OutboxEvent)
      → find_row k (take n rows) ≡ some e
      → find_row k rows ≡ some e
  unfolding find_row
  find_row-take zero rows e h = cc
  find_row-take (suc n) [] e h = cc
  find_row-take (suc n) (x ∷ xs) e h = ground (arith, find_row-take n xs e)

  pub find_row-is_publishable :
      (now : ℕ) (rows : List OutboxEvent) (e : OutboxEvent)
      → find_row k (publishable_rows now rows) ≡ some e
      → count_by (has_id k) rows ≤ 1
      → is_publishable now e ≡ true
  unfolding find_row publishable_rows
  find_row-is_publishable now [] e there h = cc
  find_row-is_publishable now (x ∷ xs) e there h = ground (
    arith,
    find_row-is_publishable now xs e,
    count-publishable_rows now xs,
    find_row-insert_sorted x (publishable_rows now xs),
    find_row-absent xs,
    find_row-absent (publishable_rows now xs),
  )

  -- The rows that a claim chooses are rows of the table, which may be published.
  pub find_row-candidates :
      (now limit : ℕ) (rows : List OutboxEvent) (e : OutboxEvent)
      → count_by (has_id k) rows ≤ 1
      → find_row k (candidates now limit rows) ≡ some e
      → (find_row k rows ≡ some e) × (is_publishable now e ≡ true)
  unfolding candidates
  find_row-candidates now limit rows e h there =
      let t = find_row-take limit (publishable_rows now rows) e there in
      (find_row-publishable_rows now rows e h t, find_row-is_publishable now rows e t h)

  pub count-candidates :
      (now limit : ℕ) (rows : List OutboxEvent)
      → count_by (has_id k) (candidates now limit rows) ≤ count_by (has_id k) rows
  unfolding candidates
  count-candidates now limit rows =
      omega (arith, count-take limit (publishable_rows now rows), count-publishable_rows now rows)

  pub find_row-update_row :
      (id : String) (change : OutboxEvent → OutboxEvent) (rows : List OutboxEvent)
      → ((r : OutboxEvent) → (change r).id ≡ r.id)
      → find_row k (update_row id change rows)
        ≡ (if id == k then map_row change (find_row k rows) else find_row k rows)
  unfolding find_row update_row
  find_row-update_row id change [] same = ground arith
  find_row-update_row id change (x ∷ xs) same = ground (
    arith,
    find_row-update_row id change xs same,
    same x,
    eq_iff x.id id,
    eq_iff x.id k,
    eq_iff id k,
  )

  pub find_row-lease_rows :
      (owner_id : String) (until : ℕ) (chosen rows : List OutboxEvent)
      → find_row k (lease_rows owner_id until chosen rows) ≡ (
          if any (has_id k) chosen
          then map_row (leased owner_id until) (find_row k rows)
          else find_row k rows)
  unfolding find_row lease_rows
  find_row-lease_rows owner_id until chosen [] = ground arith
  find_row-lease_rows owner_id until chosen (x ∷ xs) =
      let at : (x.id == k) ≡ true → any (has_id x.id) chosen ≡ any (has_id k) chosen =
        λ e. rw ((eq_iff x.id k).0 e) refl in
      ground (arith, find_row-lease_rows owner_id until chosen xs)

  pub find_row-map-leased :
      (owner_id : String) (until : ℕ) (rows : List OutboxEvent)
      → find_row k (map (leased owner_id until) rows)
        ≡ map_row (leased owner_id until) (find_row k rows)
  unfolding find_row
  find_row-map-leased owner_id until [] = refl
  find_row-map-leased owner_id until (x ∷ xs) =
      ground (arith, find_row-map-leased owner_id until xs)

  pub count-map-leased :
      (owner_id : String) (until : ℕ) (rows : List OutboxEvent)
      → count_by (has_id k) (map (leased owner_id until) rows) ≡ count_by (has_id k) rows
  count-map-leased owner_id until [] = refl
  count-map-leased owner_id until (x ∷ xs) = ground (arith, count-map-leased owner_id until xs)
