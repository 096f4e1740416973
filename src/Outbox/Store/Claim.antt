-- ===== src/Outbox/Store/Claim.antt =====
-- What a claim of the outbox chooses, and which rows it leaves alone.
use kafka_nest_playground.Prelude.{
  ℕ, zero, suc, ◌≤◌, String, ◌≡◌, refl, Bool, true, false, not, List, [], ◌∷◌, map, any, length,
  ◌==◌, ◌&&◌, ◌||◌, eq_iff, arith,
}
use kafka_nest_playground.Outbox.Entity.{OutboxEvent}
use kafka_nest_playground.Outbox.Store.{
  is_publishable, insert_sorted, publishable_rows, take, candidates, has_id, leased, lease_rows,
  update_row,
}

any-insert_sorted :
    (p : OutboxEvent → Bool) (r : OutboxEvent) (xs : List OutboxEvent)
    → any p (insert_sorted r xs) ≡ (p r || any p xs)
unfolding insert_sorted
any-insert_sorted p r [] = refl
any-insert_sorted p r (x ∷ xs) = ground (arith, any-insert_sorted p r xs)

pub any-take {ℓ} :
    {A : Type ℓ} (p : A → Bool) (n : ℕ) (xs : List A) → any p xs ≡ false → any p (take n xs) ≡ false
any-take p zero xs h = refl
any-take p (suc n) [] h = refl
any-take p (suc n) (x ∷ xs) h = ground (arith, any-take p n xs)

pub length-take_le {ℓ} : {A : Type ℓ} (n : ℕ) (xs : List A) → length (take n xs) ≤ n
length-take_le zero xs = omega arith
length-take_le (suc n) [] = omega arith
length-take_le (suc n) (x ∷ xs) = omega (arith, length-take_le n xs)

-- The rows of one id that satisfy a test.
module _ (k : String) (p : OutboxEvent → Bool) where
  abbrev pub breaks : OutboxEvent → Bool
  breaks r = (r.id == k) && not (p r)

  -- Where the test rules out publication, no row of the id is chosen.
  publishable_rows-none :
      (now : ℕ) (rows : List OutboxEvent)
      → ((r : OutboxEvent) → p r ≡ true → is_publishable now r ≡ false)
      → any breaks rows ≡ false
      → any (has_id k) (publishable_rows now rows) ≡ false
  unfolding publishable_rows
  publishable_rows-none now [] blocked h = refl
  publishable_rows-none now (x ∷ xs) blocked h = ground (
    arith,
    publishable_rows-none now xs blocked,
    any-insert_sorted (has_id k) x (publishable_rows now xs),
    blocked x,
  )

  pub candidates-none :
      (now limit : ℕ) (rows : List OutboxEvent)
      → ((r : OutboxEvent) → p r ≡ true → is_publishable now r ≡ false)
      → any breaks rows ≡ false
      → any (has_id k) (candidates now limit rows) ≡ false
  unfolding candidates
  candidates-none now limit rows blocked h =
      any-take (has_id k) limit (publishable_rows now rows)
        (publishable_rows-none now rows blocked h)

  -- A claim that does not choose the id leaves its rows alone.
  pub lease_rows-keeps :
      (owner_id : String) (until : ℕ) (chosen rows : List OutboxEvent)
      → any (has_id k) chosen ≡ false
      → any breaks rows ≡ false
      → any breaks (lease_rows owner_id until chosen rows) ≡ false
  unfolding lease_rows
  lease_rows-keeps owner_id until chosen [] none_chosen h = refl
  lease_rows-keeps owner_id until chosen (x ∷ xs) none_chosen h =
      let at : (x.id == k) ≡ true → any (has_id x.id) chosen ≡ false =
        λ e. rw ((eq_iff x.id k).0 e) none_chosen in
      ground (arith, lease_rows-keeps owner_id until chosen xs none_chosen)

  -- An update of another id leaves them alone, and one that gains the test keeps it.
  pub update_row-other :
      (id : String) (change : OutboxEvent → OutboxEvent) (rows : List OutboxEvent)
      → ((r : OutboxEvent) → (change r).id ≡ r.id)
      → (id == k) ≡ false
      → any breaks rows ≡ false
      → any breaks (update_row id change rows) ≡ false
  unfolding update_row
  update_row-other id change [] same ne h = refl
  update_row-other id change (x ∷ xs) same ne h = ground (
    arith,
    update_row-other id change xs same ne,
    same x,
    eq_iff x.id id,
    eq_iff x.id k,
    eq_iff id k,
  )

  pub update_row-gains :
      (id : String) (change : OutboxEvent → OutboxEvent) (rows : List OutboxEvent)
      → ((r : OutboxEvent) → (change r).id ≡ r.id)
      → ((r : OutboxEvent) → p (change r) ≡ true)
      → any breaks rows ≡ false
      → any breaks (update_row id change rows) ≡ false
  unfolding update_row
  update_row-gains id change [] same gains h = refl
  update_row-gains id change (x ∷ xs) same gains h =
      ground (arith, update_row-gains id change xs same gains, same x, gains x)

  pub update_row_self-gains :
      (change : OutboxEvent → OutboxEvent) (rows : List OutboxEvent)
      → ((r : OutboxEvent) → p (change r) ≡ true)
      → any breaks (update_row k change rows) ≡ false
  unfolding update_row
  update_row_self-gains change [] gains = refl
  update_row_self-gains change (x ∷ xs) gains =
      ground (arith, update_row_self-gains change xs gains, gains x)

  -- A claim that chooses the id gives its rows the test, where a lease does.
  pub lease_rows-gains :
      (owner_id : String) (until : ℕ) (chosen rows : List OutboxEvent)
      → any (has_id k) chosen ≡ true
      → ((r : OutboxEvent) → p (leased owner_id until r) ≡ true)
      → any breaks (lease_rows owner_id until chosen rows) ≡ false
  unfolding lease_rows
  lease_rows-gains owner_id until chosen [] is_chosen gains = refl
  lease_rows-gains owner_id until chosen (x ∷ xs) is_chosen gains =
      let at : (x.id == k) ≡ true → any (has_id x.id) chosen ≡ true =
        λ e. rw ((eq_iff x.id k).0 e) is_chosen in
      ground (arith, lease_rows-gains owner_id until chosen xs is_chosen gains, gains x)

pub any-map-leased :
    (k : String) (owner_id : String) (until : ℕ) (rows : List OutboxEvent)
    → any (has_id k) (map (leased owner_id until) rows) ≡ any (has_id k) rows
any-map-leased k owner_id until [] = refl
any-map-leased k owner_id until (x ∷ xs) = ground (arith, any-map-leased k owner_id until xs)

pub length-map {ℓ} : {A B : Type ℓ} (f : A → B) (xs : List A) → length (map f xs) ≡ length xs
length-map f [] = refl
length-map f (x ∷ xs) = omega (arith, length-map f xs)
