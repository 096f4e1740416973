-- ===== src/Kafka/Inbox/History.antt =====
-- The inbox over time: the statements of all consumers, one after another, as the row locks of
-- PostgreSQL serialise them.
use kafka_nest_playground.Prelude.{
  ℕ, String, ◌≡◌, refl, ◌∙◌, Bool, true, not, List, [], ◌∷◌, Option, none, some, count_by, eqb,
  ◌&&◌, Bool-cases, inl, inr,
}
use kafka_nest_playground.Prelude.Tx.{Result, ok, err}
use kafka_nest_playground.Kafka.Inbox.{
  InboxRow, InboxStatus, KafkaInboxClaim, LeaseKey, is_completed, is_processing, is_prepared, holds,
  may_acquire, acquired, new_row, through, find_inbox, update_inbox, claim, claim_found,
  claim_existing, update_single, is_at, save_prepared, mark_completed, release,
}
use kafka_nest_playground.Kafka.Inbox.Rows.{same_key, find_inbox-update_inbox, find_inbox-append}

-- A call of the store by some consumer.
pub data InboxCall (R : Type 0) : Type 0 where
  claims : (now : ℕ) → KafkaInboxClaim → InboxCall R
  saves : LeaseKey → Option R → InboxCall R
  completes : LeaseKey → InboxCall R
  releases : (now : ℕ) → LeaseKey → (message : String) → InboxCall R

abbrev pub rows_or {ℓ} : {A : Type ℓ} → A → Result A → A
rows_or rows (ok rows') = rows'
rows_or rows (err e) = rows

module _ {R : Type 0} (json : R → R) where
  -- The table that a call leaves.
  unfoldable pub serve_inbox : InboxCall R → List (InboxRow R) → List (InboxRow R)
  serve_inbox (claims now c) rows = (claim now c rows).1
  serve_inbox (saves k result) rows = rows_or rows (save_prepared json k result rows)
  serve_inbox (completes k) rows = rows_or rows (mark_completed k rows)
  serve_inbox (releases now k message) rows = release now k message rows

  unfoldable pub run_inbox : List (InboxCall R) → List (InboxRow R) → List (InboxRow R)
  run_inbox [] rows = rows
  run_inbox (call ∷ calls) rows = run_inbox calls (serve_inbox call rows)

-- The calls leave the row `(c, e)` in one of the states of `P`.
module _ {R : Type 0} (json : R → R) (c e : String) where
  -- An update of any key, if the row passes its test.
  updated :
      (P : InboxRow R → Type 0) (c' e' : String) (may : InboxRow R → Bool)
      (change : InboxRow R → InboxRow R) (rows : List (InboxRow R)) (r : InboxRow R)
      → ((x : InboxRow R)
          → ((change x).consumer_name ≡ x.consumer_name) × ((change x).event_id ≡ x.event_id))
      → ((same_key c' e' c e) ≡ true → may r ≡ true → P (change r))
      → find_inbox c e rows ≡ some r
      → P r
      → (r' : InboxRow R) × (find_inbox c e (update_inbox c' e' may change rows) ≡ some r') × P r'
  updated P c' e' may change rows r keeps holds_after there p =
      elim (Bool-cases (same_key c' e' c e)) [
        | inl same ↦ elim (Bool-cases (may r)) [
          | inl passes ↦ (
            change r,
            find_inbox-update_inbox c e c' e' may change rows keeps ∙ rw (same, there, passes) refl,
            holds_after same passes,
          )
          | inr fails ↦ (
            r,
            find_inbox-update_inbox c e c' e' may change rows keeps ∙ rw (same, there, fails) refl,
            p,
          )
        ]
        | inr other ↦
            (r, find_inbox-update_inbox c e c' e' may change rows keeps ∙ rw (other, there) refl, p)
      ]

abbrev pub Admitted : {R : Type 0} → (InboxCall R → Bool) → List (InboxCall R) → Type 0
Admitted a [] = Unit
Admitted a (call ∷ calls) = (a call ≡ true) × Admitted a calls

-- `P` is kept by each admitted call that changes the row.
pub record IsInvariant (R : Type 0) (json : R → R) (c e : String) (P : InboxRow R → Type 0)
    (a : InboxCall R → Bool) : Type 0 where
  pub on_claim :
      (now : ℕ) (cl : KafkaInboxClaim) (r : InboxRow R)
      → a (claims now cl) ≡ true
      → may_acquire now r ≡ true
      → P r
      → P (acquired cl r)
  pub on_save :
      (k : LeaseKey) (result : Option R) (r : InboxRow R)
      → a (saves k result) ≡ true
      → (holds k.lock_token r.lock_token && is_processing r.status) ≡ true
      → P r
      → P (record r { status = InboxStatus.prepared; result = through json result })
  pub on_complete :
      (k : LeaseKey) (r : InboxRow R)
      → a (completes k) ≡ true
      → (holds k.lock_token r.lock_token && is_prepared r.status) ≡ true
      → P r
      → P (record r { status = InboxStatus.completed; lock_token = none; locked_until = none })
  pub on_release :
      (now : ℕ) (k : LeaseKey) (message : String) (r : InboxRow R)
      → a (releases now k message) ≡ true
      → (holds k.lock_token r.lock_token && not (is_completed r.status)) ≡ true
      → P r
      → P (record r { lock_token = none; locked_until = some now; last_error = some message })

module _ {R : Type 0} (json : R → R) (c e : String) (P : InboxRow R → Type 0)
    (a : InboxCall R → Bool) (inv : IsInvariant R json c e P a) where
  single :
      (k : LeaseKey) (may : InboxRow R → Bool) (change : InboxRow R → InboxRow R)
      (rows : List (InboxRow R)) (r : InboxRow R)
      → ((x : InboxRow R)
          → ((change x).consumer_name ≡ x.consumer_name) × ((change x).event_id ≡ x.event_id))
      → (may r ≡ true → P (change r))
      → find_inbox c e rows ≡ some r
      → P r
      → (r' : InboxRow R) × (find_inbox c e (rows_or rows (update_single k may change rows))
          ≡ some r')
        × P r'
  unfolding update_single
  single k may change rows r keeps holds_after there p =
      elim (Bool-cases (eqb (count_by (λ x. is_at k.consumer_name k.event_id x && may x) rows) 1)) [
        | inl one ↦ rw one (
            updated json c e P k.consumer_name k.event_id may change rows r keeps
              (λ s m. holds_after m) there p)
        | inr other ↦ rw other (r, there, p)
      ]

  claim_found-keeps :
      (now : ℕ) (cl : KafkaInboxClaim) (found : Option (InboxRow R)) (rows : List (InboxRow R))
      (r : InboxRow R)
      → a (claims now cl) ≡ true
      → find_inbox c e rows ≡ some r
      → P r
      → (r' : InboxRow R) × (find_inbox c e (claim_found now cl found rows).1 ≡ some r') × P r'
  unfolding claim_found claim_existing
  claim_found-keeps now cl none rows r admitted there p =
      (r, find_inbox-append c e rows (new_row cl) r there, p)
  claim_found-keeps now cl (some x) rows r admitted there p =
      elim (Bool-cases (may_acquire now x)) [
        | inl free ↦ rw free (
            updated json c e P cl.consumer_name cl.event_id (may_acquire now) (acquired cl) rows r
              (λ y. (refl, refl)) (λ s m. inv.on_claim now cl r admitted m p) there p)
        | inr held ↦ rw held (r, there, p)
      ]

  serve-keeps :
      (call : InboxCall R) (rows : List (InboxRow R)) (r : InboxRow R)
      → a call ≡ true
      → find_inbox c e rows ≡ some r
      → P r
      → (r' : InboxRow R) × (find_inbox c e (serve_inbox json call rows) ≡ some r') × P r'
  unfolding serve_inbox claim save_prepared mark_completed release
  serve-keeps (claims now cl) rows r admitted there p =
      claim_found-keeps now cl (find_inbox cl.consumer_name cl.event_id rows) rows r admitted there
        p
  serve-keeps (saves k result) rows r admitted there p =
      single k _ _ rows r (λ y. (refl, refl)) (λ m. inv.on_save k result r admitted m p) there p
  serve-keeps (completes k) rows r admitted there p =
      single k _ _ rows r (λ y. (refl, refl)) (λ m. inv.on_complete k r admitted m p) there p
  serve-keeps (releases now k message) rows r admitted there p =
      updated json c e P k.consumer_name k.event_id _ _ rows r (λ y. (refl, refl))
        (λ s m. inv.on_release now k message r admitted m p) there p

  pub run-keeps :
      (calls : List (InboxCall R)) (rows : List (InboxRow R)) (r : InboxRow R)
      → Admitted a calls
      → find_inbox c e rows ≡ some r
      → P r
      → (r' : InboxRow R) × (find_inbox c e (run_inbox json calls rows) ≡ some r') × P r'
  unfolding run_inbox
  run-keeps [] rows r admitted there p = (r, there, p)
  run-keeps (call ∷ calls) rows r admitted there p =
      let (r', there', p') = serve-keeps call rows r admitted.0 there p in
      run-keeps calls (serve_inbox json call rows) r' admitted.1 there' p'

abbrev pub any_call : {R : Type 0} → InboxCall R → Bool
any_call call = true

pub any_call-Admitted : {R : Type 0} (calls : List (InboxCall R)) → Admitted any_call calls
any_call-Admitted [] = tt
any_call-Admitted (call ∷ calls) = (refl, any_call-Admitted calls)
