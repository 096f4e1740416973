-- ===== src/Dlq/Saved.antt =====
-- What the two statements of a command on a dead letter leave of the tables.
use kafka_nest_playground.Prelude.{
  ℕ, ◌+◌, ◌≡◌, refl, ap, sym, ◌∙◌, subst, String, true, false, List, [], ◌∷◌, ◌++◌, Option, none,
  some, any, count_by, count_by-append, ◌==◌, eq_iff, eq_refl, arith, Bool-cases, inl, inr,
}
use kafka_nest_playground.Prelude.Decimal.{All}
use kafka_nest_playground.Prelude.Tx.{ok, >>=-eq-ok}
use kafka_nest_playground.Orders.Entity.{Draws}
use kafka_nest_playground.Dlq.Conforms.{ok-injective}
use kafka_nest_playground.Dlq.Tables.{
  DeadLetterStatus, is_new, DeadLetterRow, DlqAuditLog, OutboxJsonRow, DlqDb, has_id, find_by_id,
  save_dead_letter, insert_audit, is_for,
}
use kafka_nest_playground.Dlq.Service.{found, settle_row}
use kafka_nest_playground.Dlq.Rows.{
  All-map, find_by_id-All, save_dead_letter-All, any-save_dead_letter,
}
use kafka_nest_playground.Dlq.Decided.{
  carries, DecidedBy, Decided, Consistent, DecidedBy-frame, insert_audit-eq, audit-kept,
}

is_new-eq : (s : DeadLetterStatus) → is_new s ≡ true → s ≡ DeadLetterStatus.new
is_new-eq DeadLetterStatus.new h = refl
is_new-eq DeadLetterStatus.reprocessed h = cc
is_new-eq DeadLetterStatus.ignored h = cc

-- The row that a command finds new has no audit row and no new event yet.
pub new-no_audit :
    (db : DlqDb) (id : String) (r : DeadLetterRow)
    → Consistent db
    → find_by_id id db.dead_letters ≡ some r
    → is_new r.status ≡ true
    → (count_by (is_for r.id) db.audit ≡ 0) × (r.reprocessed_event_id ≡ none)
new-no_audit db id r c f n =
    let (decided, _) = find_by_id-All (Decided db) id db.dead_letters r c.rows f in
    subst (λ (s : DeadLetterStatus). DecidedBy s r db.audit db.outbox) (is_new-eq r.status n)
      decided

true_ne_false : true ≡ false → ⊥
true_ne_false h = cc

eqb_sym_false : (s t : String) → (s == t) ≡ false → (t == s) ≡ false
eqb_sym_false s t h = ground (arith, eq_iff s t, eq_iff t s)

-- `save` leaves what the decision is told by.
DecidedBy-saved :
    (s : DeadLetterStatus) (now : ℕ) (row : DeadLetterRow) (audit : List DlqAuditLog)
    (outbox : List OutboxJsonRow)
    → DecidedBy s row audit outbox
    → DecidedBy s (record row { version = row.version + 1; updated_at = now }) audit outbox
DecidedBy-saved DeadLetterStatus.new now row audit outbox h = h
DecidedBy-saved DeadLetterStatus.reprocessed now row audit outbox h = h
DecidedBy-saved DeadLetterStatus.ignored now row audit outbox h = h

module _ (draws : Draws) (row : DeadLetterRow) (a : DlqAuditLog) (db db' : DlqDb)
    (outbox : List OutboxJsonRow) (c : Consistent db) (own : a.dead_letter_event_id ≡ row.id)
    (is_row : any (has_id row.id) db.dead_letters ≡ true)
    (kept : (r : DeadLetterRow)
      → count_by (carries r) db.outbox ≡ 1
      → count_by (carries r) outbox ≡ 1)
    (decided : DecidedBy row.status row (db.audit ++ a ∷ []) outbox) where
  -- The audit row is for the settled row alone.
  is_for_other : (id : String) → (row.id == id) ≡ false → is_for id a ≡ false
  is_for_other id h = rw own h

  settled_rows :
      All
        (λ (r : DeadLetterRow). DecidedBy r.status r (db.audit ++ a ∷ []) outbox)
        (save_dead_letter draws.now row db.dead_letters)
  settled_rows =
      save_dead_letter-All (λ (r : DeadLetterRow). DecidedBy r.status r (db.audit ++ a ∷ []) outbox)
        draws.now row db.dead_letters (DecidedBy-saved row.status draws.now row _ _ decided)
        (All-map (Decided db) _ db.dead_letters
          (λ r d other.
            let (e, f) =
              audit-kept r a db.audit (is_for_other r.id (eqb_sym_false r.id row.id other)) in
            DecidedBy-frame r.status r db.audit (db.audit ++ a ∷ []) db.outbox outbox e f (kept r)
              d)
          c.rows)

  settled_no_orphans :
      (id : String)
      → any (has_id id) (save_dead_letter draws.now row db.dead_letters) ≡ false
      → count_by (is_for id) (db.audit ++ a ∷ []) ≡ 0
  settled_no_orphans id h =
      let absent : any (has_id id) db.dead_letters ≡ false =
        sym (any-save_dead_letter id draws.now row db.dead_letters) ∙ h in
      elim (Bool-cases (row.id == id)) [
        | inl e ↦
            let same =
              ap (λ (i : String). any (has_id i) db.dead_letters) ((eq_iff row.id id).0 e) in
            absurd (true_ne_false (sym is_row ∙ (same ∙ absent)))
        | inr e ↦
            count_by-append (is_for id) db.audit (a ∷ [])
            ∙ rw (is_for_other id e) (omega (arith, c.no_orphans id absent))
      ]

  pub settle_row-Consistent :
      settle_row draws row a (record db { outbox = outbox }) ≡ ok db' → Consistent db'
  unfolding settle_row
  settle_row-Consistent h =
      let (audit, inserted, made) = >>=-eq-ok (insert_audit a db.audit) _ h in
      let at_end = insert_audit-eq a db.audit audit inserted in
      let built : DlqDb = record {
        dead_letters = save_dead_letter draws.now row db.dead_letters;
        audit = db.audit ++ a ∷ [];
        outbox = outbox;
      } in
      let is_built : built ≡ db' =
        ap (λ (l : List DlqAuditLog). record built { audit = l }) (sym at_end)
        ∙ ok-injective made in
      subst Consistent is_built (record { rows = settled_rows; no_orphans = settled_no_orphans })

pub found-some : (o : Option DeadLetterRow) (r : DeadLetterRow) → found o ≡ ok r → o ≡ some r
unfolding found
found-some none r h = cc
found-some (some x) r h = ap some (ok-injective h)

pub found-any :
    (id : String) (rows : List DeadLetterRow) (r : DeadLetterRow)
    → find_by_id id rows ≡ some r
    → any (has_id r.id) rows ≡ true
unfolding find_by_id
found-any id [] r h = cc
found-any id (x ∷ xs) r h = ground (arith, found-any id xs r, eq_refl x.id)
