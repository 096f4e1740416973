-- ===== src/Kafka/Inbox/Rows.antt =====
-- How the statements on the inbox read back.
use kafka_nest_playground.Prelude.{
  String, ◌≡◌, Bool, true, List, [], ◌∷◌, ◌++◌, Option, none, some, count_by, if◌then◌else◌, ◌==◌,
  ◌&&◌, eq_iff, arith,
}
use kafka_nest_playground.Kafka.Inbox.{InboxRow, is_at, find_inbox, update_inbox}

-- What an update leaves of the row that it is about.
abbrev pub changed {ℓ} : {A : Type ℓ} → (may : A → Bool) (change : A → A) → Option A → Option A
changed may change none = none
changed may change (some r) = some (if may r then change r else r)

abbrev pub same_key : String → String → String → String → Bool
same_key c e c' e' = (c == c') && (e == e')

module _ {R : Type 0} (c e : String) where
  pub find_inbox-update_inbox :
      (c' e' : String) (may : InboxRow R → Bool) (change : InboxRow R → InboxRow R)
      (rows : List (InboxRow R))
      → ((r : InboxRow R)
          → ((change r).consumer_name ≡ r.consumer_name) × ((change r).event_id ≡ r.event_id))
      → find_inbox c e (update_inbox c' e' may change rows) ≡ (
          if same_key c' e' c e
          then changed may change (find_inbox c e rows)
          else find_inbox c e rows)
  unfolding find_inbox update_inbox
  find_inbox-update_inbox c' e' may change [] keeps = ground arith
  find_inbox-update_inbox c' e' may change (r ∷ rs) keeps = ground (
    arith,
    find_inbox-update_inbox c' e' may change rs keeps,
    keeps r,
    eq_iff r.consumer_name c',
    eq_iff r.event_id e',
    eq_iff r.consumer_name c,
    eq_iff r.event_id e,
    eq_iff c' c,
    eq_iff e' e,
  )

  pub find_inbox-append :
      (rows : List (InboxRow R)) (last r : InboxRow R)
      → find_inbox c e rows ≡ some r
      → find_inbox c e (rows ++ last ∷ []) ≡ some r
  unfolding find_inbox
  find_inbox-append [] last r h = cc
  find_inbox-append (x ∷ xs) last r h = ground (arith, find_inbox-append xs last r)

  pub find_inbox-new :
      (rows : List (InboxRow R)) (last : InboxRow R)
      → find_inbox c e rows ≡ none
      → is_at c e last ≡ true
      → find_inbox c e (rows ++ last ∷ []) ≡ some last
  unfolding find_inbox
  find_inbox-new [] last h is_there = ground arith
  find_inbox-new (x ∷ xs) last h is_there = ground (arith, find_inbox-new xs last)

  -- The row of an id that has no other.
  pub update_inbox-new :
      (may : InboxRow R → Bool) (change : InboxRow R → InboxRow R) (rows : List (InboxRow R))
      (last : InboxRow R)
      → find_inbox c e rows ≡ none
      → is_at c e last ≡ true
      → may last ≡ true
      → update_inbox c e may change (rows ++ last ∷ []) ≡ rows ++ change last ∷ []
  unfolding find_inbox update_inbox
  update_inbox-new may change [] last h is_there m = ground arith
  update_inbox-new may change (x ∷ xs) last h is_there m =
      ground (arith, update_inbox-new may change xs last)

  pub count-new :
      (may : InboxRow R → Bool) (rows : List (InboxRow R)) (last : InboxRow R)
      → find_inbox c e rows ≡ none
      → is_at c e last ≡ true
      → may last ≡ true
      → count_by (λ r. is_at c e r && may r) (rows ++ last ∷ []) ≡ 1
  unfolding find_inbox
  count-new may [] last h is_there m = ground arith
  count-new may (x ∷ xs) last h is_there m = ground (arith, count-new may xs last)
