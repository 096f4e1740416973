-- ===== src/Dlq/History.antt =====
-- Any sequence of calls of the dead letter service.
use kafka_nest_playground.Prelude.{
  ℕ, ◌≡◌, refl, ap, ◌∙◌, subst, String, Bool, true, not, List, [], ◌∷◌, some, any, ◌==◌, ◌||◌,
  eq_iff, Bool-cases, inl, inr,
}
use kafka_nest_playground.Prelude.Decimal.{All}
use kafka_nest_playground.Prelude.Tx.{Result, ok, err}
use kafka_nest_playground.Orders.Entity.{Draws}
use kafka_nest_playground.Dlq.Json.{Fields}
use kafka_nest_playground.Dlq.Tables.{
  DeadLetterRow, DlqAuditLog, DlqDb, has_id, find_by_id, find_by_event, insert_or_ignore,
  new_dead_letter, SaveDeadLetterEventParams, save_if_absent, filter, is_for, is_resolved_before,
  delete_resolved_before,
}
use kafka_nest_playground.Dlq.Conforms.{ok-injective}
use kafka_nest_playground.Dlq.Service
use kafka_nest_playground.Dlq.Service.{Runtime, DeadLetterContext, OperatorCommand}
use kafka_nest_playground.Dlq.Rows.{
  count_by-filter, count_by-filter_zero, any-or, any-append, All-append, All-filter, All-map,
  All-has_id, find_by_id-All,
}
use kafka_nest_playground.Dlq.Decided.{
  records, Decided, Consistent, DecidedBy-frame, records-is_for,
}
use kafka_nest_playground.Dlq.Commands.{ignore-Consistent, reprocess-Consistent}

-- A call: a message from Kafka, one of the operator's two commands, or a pass of retention.
pub data DlqCall : Type 0 where
  capture : DeadLetterContext → DlqCall
  reprocess : (id : String) → Fields → OperatorCommand → DlqCall
  ignore : (id : String) → OperatorCommand → DlqCall
  clean_up : (date : ℕ) → DlqCall

abbrev pub left_by : Result (DeadLetterRow × DlqDb) → DlqDb → DlqDb
left_by (ok (row, db')) db = db'
left_by (err thrown) db = db

unfoldable pub serve : Runtime → Draws → DlqCall → DlqDb → DlqDb
serve runtime draws (capture context) db = left_by (Service.capture runtime draws context db) db
serve runtime draws (reprocess id corrected command) db =
    left_by (Service.reprocess runtime draws id corrected command db) db
serve runtime draws (ignore id command) db = left_by (Service.ignore draws id command db) db
serve runtime draws (clean_up date) db = (delete_resolved_before date db).1

unfoldable pub run : Runtime → List (Draws × DlqCall) → DlqDb → DlqDb
run runtime [] db = db
run runtime ((draws, call) ∷ calls) db = run runtime calls (serve runtime draws call db)

abbrev pub empty_db : DlqDb
empty_db = record { dead_letters = []; audit = []; outbox = [] }

left_by-Consistent :
    (m : Result (DeadLetterRow × DlqDb)) (db : DlqDb)
    → Consistent db
    → ((answer : DeadLetterRow × DlqDb) → m ≡ ok answer → Consistent answer.1)
    → Consistent (left_by m db)
left_by-Consistent (ok (row, db')) db c after = after (row, db') refl
left_by-Consistent (err thrown) db c after = c

-- A new row has a new id, so no audit row is for it.
insert_or_ignore-Consistent :
    (id : String) (now : ℕ) (params : SaveDeadLetterEventParams) (db : DlqDb)
    → Consistent db
    → Consistent (record db {
      dead_letters = insert_or_ignore (new_dead_letter id now params) db.dead_letters;
    })
unfolding insert_or_ignore
insert_or_ignore-Consistent id now params db c =
    let row = new_dead_letter id now params in
    let clash = λ (r : DeadLetterRow). has_id id r || r.dead_letter_event_id == params.event_id in
    elim (Bool-cases (any clash db.dead_letters)) [
      | inl e ↦ rw e c
      | inr e ↦
          let absent =
            any-or (has_id id) (λ (r : DeadLetterRow). r.dead_letter_event_id == params.event_id)
              db.dead_letters e in
          rw e (record {
            rows =
                All-append (Decided db) db.dead_letters (row ∷ []) c.rows
                  ((c.no_orphans id absent, refl), tt);
            no_orphans = λ other h.
                c.no_orphans other (any-append (has_id other) db.dead_letters (row ∷ []) h);
          })
    ]

saved_db :
    (r : Result DeadLetterRow) (db : DlqDb) (answer : DeadLetterRow × DlqDb)
    → elim r [ err thrown ↦ err thrown | ok row ↦ ok (row, db) ] ≡ ok answer
    → db ≡ answer.1
saved_db (err thrown) db answer h = cc
saved_db (ok row) db answer h = ap (λ (p : DeadLetterRow × DlqDb). p.1) (ok-injective h)

save_if_absent-Consistent :
    (id : String) (now : ℕ) (params : SaveDeadLetterEventParams) (db : DlqDb)
    {answer : DeadLetterRow × DlqDb}
    → Consistent db
    → save_if_absent id now params db ≡ ok answer
    → Consistent answer.1
unfolding save_if_absent
save_if_absent-Consistent id now params db {answer} c h =
    subst Consistent
      (saved_db
        (find_by_event params.event_id
          (insert_or_ignore (new_dead_letter id now params) db.dead_letters))
        _ answer h)
      (insert_or_ignore-Consistent id now params db c)

All-both :
    (kept : List DeadLetterRow) (db : DlqDb) (rows : List DeadLetterRow)
    → All (Decided db) rows
    → All (λ (r : DeadLetterRow). any (has_id r.id) kept ≡ true) rows
    → All (λ (r : DeadLetterRow). Decided db r × (any (has_id r.id) kept ≡ true)) rows
All-both kept db [] h k = tt
All-both kept db (r ∷ rs) (h, hs) (k, ks) = ((h, k), All-both kept db rs hs ks)

module _ (kept : List DeadLetterRow) where
  abbrev alive : DlqAuditLog → Bool
  alive a = any (has_id a.dead_letter_event_id) kept

  -- The audit rows of one dead letter stay or go with it.
  alive_for : (id : String) (a : DlqAuditLog) → is_for id a ≡ true → alive a ≡ any (has_id id) kept
  alive_for id a h =
      ap (λ (i : String). any (has_id i) kept) ((eq_iff a.dead_letter_event_id id).0 h)

  alive-Consistent :
      (db : DlqDb)
      → All (Decided db) kept
      → Consistent (record db { dead_letters = kept; audit = filter alive db.audit })
  alive-Consistent db decided = record {
    rows =
        All-map _ _ kept
          (λ r (d, there).
            DecidedBy-frame r.status r db.audit (filter alive db.audit) db.outbox db.outbox
              (count_by-filter (is_for r.id) alive db.audit (λ a k. alive_for r.id a k ∙ there))
              (count_by-filter (records r) alive db.audit
                (λ a k. alive_for r.id a (records-is_for r a k) ∙ there))
              (λ k. k) d)
          (All-both kept db kept decided (All-has_id kept));
    no_orphans =
        λ id h. count_by-filter_zero (is_for id) alive db.audit (λ a k. alive_for id a k ∙ h);
  }

-- Retention keeps what tells of the rows that it keeps.
delete_resolved_before-Consistent :
    (date : ℕ) (db : DlqDb) → Consistent db → Consistent (delete_resolved_before date db).1
unfolding delete_resolved_before
delete_resolved_before-Consistent date db c =
    alive-Consistent
      (filter (λ (r : DeadLetterRow). not (is_resolved_before date r)) db.dead_letters) db
      (All-filter (Decided db) (λ (r : DeadLetterRow). not (is_resolved_before date r))
        db.dead_letters c.rows)

capture-Consistent :
    (runtime : Runtime) (draws : Draws) (context : DeadLetterContext) (db : DlqDb)
    {answer : DeadLetterRow × DlqDb}
    → Consistent db
    → Service.capture runtime draws context db ≡ ok answer
    → Consistent answer.1
unfolding Service.capture
capture-Consistent runtime draws context db c h =
    save_if_absent-Consistent (draws.row_id 0) draws.now _ db c h

serve-Consistent :
    (runtime : Runtime) (draws : Draws) (call : DlqCall) (db : DlqDb)
    → Consistent db
    → Consistent (serve runtime draws call db)
unfolding serve
serve-Consistent runtime draws (capture context) db c =
    left_by-Consistent (Service.capture runtime draws context db) db c
      (λ answer h. capture-Consistent runtime draws context db c h)
serve-Consistent runtime draws (reprocess id corrected command) db c =
    left_by-Consistent (Service.reprocess runtime draws id corrected command db) db c
      (λ answer h. reprocess-Consistent runtime draws id corrected command db c h)
serve-Consistent runtime draws (ignore id command) db c =
    left_by-Consistent (Service.ignore draws id command db) db c
      (λ answer h. ignore-Consistent draws id command db c h)
serve-Consistent runtime draws (clean_up date) db c = delete_resolved_before-Consistent date db c

run-Consistent :
    (runtime : Runtime) (calls : List (Draws × DlqCall)) (db : DlqDb)
    → Consistent db
    → Consistent (run runtime calls db)
unfolding run
run-Consistent runtime [] db c = c
run-Consistent runtime ((draws, call) ∷ calls) db c =
    run-Consistent runtime calls (serve runtime draws call db)
      (serve-Consistent runtime draws call db c)

-- After any calls of the dead letter service on empty tables, with retention in between and whatever
-- the calls throw, a dead letter that is `NEW` has no audit row and no new event; one that is
-- `IGNORED` or `REPROCESSED` has exactly one audit row, which holds the same operator, comment and
-- event, and for one that is `REPROCESSED` the outbox holds exactly one message of its new event, to
-- its original topic.
pub decided_once :
    (runtime : Runtime) (calls : List (Draws × DlqCall)) (id : String) (r : DeadLetterRow)
    → find_by_id id (run runtime calls empty_db).dead_letters ≡ some r
    → Decided (run runtime calls empty_db) r
decided_once runtime calls id r h =
    let c =
      run-Consistent runtime calls empty_db (record { rows = tt; no_orphans = λ other k. refl }) in
    (find_by_id-All (Decided (run runtime calls empty_db)) id _ r c.rows h).0
