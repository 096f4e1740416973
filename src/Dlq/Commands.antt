-- ===== src/Dlq/Commands.antt =====
-- Each command of dlq.service.ts keeps the tables consistent.
use kafka_nest_playground.Prelude.{
  ◌≡◌, refl, ap, sym, ◌∙◌, subst, String, true, List, none, some, count_by, eq_refl,
}
use kafka_nest_playground.Prelude.Tx.{Result, ok, Error, ◌>>◌, guard, >>=-eq-ok, >>-eq-ok}
use kafka_nest_playground.Outbox.Entity.{assert_non_empty_string}
use kafka_nest_playground.Orders.Entity.{Draws}
use kafka_nest_playground.Dlq.Json.{Fields, get}
use kafka_nest_playground.Dlq.Conforms.{guard-ok, ok-injective}
use kafka_nest_playground.Dlq.Contract.{as_record}
use kafka_nest_playground.Dlq.Reprocess.{
  ReprocessedEventResult, text_of, get_message_key, create_reprocessed_event,
}
use kafka_nest_playground.Dlq.Tables.{
  is_new, DeadLetterRow, DlqAuditAction, OutboxJsonRow, DlqDb, find_by_id, insert_outbox_json,
}
use kafka_nest_playground.Dlq.Service
use kafka_nest_playground.Dlq.Service.{
  Runtime, DeadLetterContext, OperatorCommand, found, require_comment, assert_new_status,
  assert_expected_version, valid_original, assert_valid_json_envelope, create_outbox_json,
  as_reprocessed, as_ignored, audit_row, settle_row, key_or, reprocess_row,
}
use kafka_nest_playground.Dlq.Decided.{
  records, carries, Consistent, insert_outbox_json-eq, message-carries, carries-first, carries-kept,
  audit-first,
}
use kafka_nest_playground.Dlq.Saved.{new-no_audit, found-some, found-any, settle_row-Consistent}

-- The audit rows of the two commands record what they do.
ignored-records :
    (draws : Draws) (command : OperatorCommand) (reason : String) (row : DeadLetterRow)
    → let row' = as_ignored draws command reason row in
      row.reprocessed_event_id ≡ none
      → records row' (audit_row draws DlqAuditAction.ignore command reason none row') ≡ true
ignored-records draws command reason row h =
    rw (eq_refl row.id, eq_refl command.operator_id, eq_refl reason, h)

reprocessed-records :
    (draws : Draws) (command : OperatorCommand) (comment event_id : String) (row : DeadLetterRow)
    → let row' = as_reprocessed draws command comment event_id row in
      records row' (audit_row draws DlqAuditAction.reprocess command comment (some event_id) row')
      ≡ true
reprocessed-records draws command comment event_id row =
    rw (eq_refl row.id, eq_refl command.operator_id, eq_refl comment, eq_refl event_id)

pub ignore-Consistent :
    (draws : Draws) (id : String) (command : OperatorCommand) (db : DlqDb)
    {answer : DeadLetterRow × DlqDb}
    → Consistent db
    → Service.ignore draws id command db ≡ ok answer
    → Consistent answer.1
unfolding Service.ignore assert_new_status
ignore-Consistent draws id command db {answer} c h =
    let (reason, _, h1) = >>=-eq-ok (require_comment command.comment) _ h in
    let (row, is_found, h2) = >>=-eq-ok (found (find_by_id id db.dead_letters)) _ h1 in
    let f = found-some (find_by_id id db.dead_letters) row is_found in
    let (is_fresh, h3) = >>-eq-ok (guard (is_new row.status) Error.conflict) _ h2 in
    let (_, h4) = >>-eq-ok (assert_expected_version row command.expected_version) _ h3 in
    let row' = as_ignored draws command reason row in
    let a = audit_row draws DlqAuditAction.ignore command reason none row' in
    let (db', settled, made) = >>=-eq-ok (settle_row draws row' a db) _ h4 in
    let (no_audit, no_event) = new-no_audit db id row c f (guard-ok _ _ is_fresh) in
    let (one, own) =
      audit-first row' a db.audit (ignored-records draws command reason row no_event) no_audit in
    subst Consistent (ap (λ (p : DeadLetterRow × DlqDb). p.1) (ok-injective made)) (
      settle_row-Consistent draws row' a db db' db.outbox c refl
        (found-any id db.dead_letters row f) (λ r k. k) (one, own) settled)

peel : {A : Type 0} (m : Result (Unit {0})) (n : Result A) {a : A} → (m >> n) ≡ ok a → n ≡ ok a
peel m n h = (>>-eq-ok m n h).1

create_reprocessed_event-topic :
    (uuid now_text : String) (original corrected : Fields) (topic : String)
    (r : ReprocessedEventResult)
    → create_reprocessed_event uuid now_text original corrected topic ≡ ok r
    → r.topic ≡ topic
unfolding create_reprocessed_event
create_reprocessed_event-topic uuid now_text original corrected topic r h =
    let (base, _, h1) = >>=-eq-ok (as_record (get "payload" original)) _ (peel _ _ h) in
    let (key, _, made) = >>=-eq-ok (get_message_key _) _ (peel _ _ (peel _ _ h1)) in
    ap (λ (x : ReprocessedEventResult). x.topic) (sym (ok-injective made))

create_outbox_json-fields :
    (runtime : Runtime) (draws : Draws) (topic key : String) (event : Fields) (o : OutboxJsonRow)
    → create_outbox_json runtime draws topic key event ≡ ok o
    → (o.topic ≡ topic) × (o.event_id ≡ text_of (get "eventId" event))
unfolding create_outbox_json
create_outbox_json-fields runtime draws topic key event o h =
    let h1 = peel (assert_non_empty_string topic "topic") _ h in
    let h2 = peel (assert_non_empty_string key "messageKey") _ h1 in
    let made = peel (assert_valid_json_envelope runtime event) _ h2 in
    let is_o = sym (ok-injective made) in
    (ap (λ (x : OutboxJsonRow). x.topic) is_o, ap (λ (x : OutboxJsonRow). x.event_id) is_o)

reprocess_row-Consistent :
    (runtime : Runtime) (draws : Draws) (command : OperatorCommand) (comment : String)
    (corrected : Fields) (id : String) (row : DeadLetterRow) (db : DlqDb)
    {answer : DeadLetterRow × DlqDb}
    → Consistent db
    → find_by_id id db.dead_letters ≡ some row
    → reprocess_row runtime draws command comment corrected row db ≡ ok answer
    → Consistent answer.1
unfolding reprocess_row assert_new_status
reprocess_row-Consistent runtime draws command comment corrected id row db {answer} c f h =
    let (is_fresh, h1) = >>-eq-ok (guard (is_new row.status) Error.conflict) _ h in
    let h2 = peel (assert_expected_version row command.expected_version) _ h1 in
    let (original, _, h3) = >>=-eq-ok (valid_original row.original_event) _ h2 in
    let (made, is_made, h4) =
      >>=-eq-ok (create_reprocessed_event _ _ original corrected row.original_topic) _ h3 in
    let (o, is_o, h5) = >>=-eq-ok (create_outbox_json runtime draws made.topic _ made.event) _ h4 in
    let (outbox, is_outbox, h6) = >>=-eq-ok (insert_outbox_json o db.outbox) _ h5 in
    let event_id = text_of (get "eventId" made.event) in
    let row' = as_reprocessed draws command comment event_id row in
    let a = audit_row draws DlqAuditAction.reprocess command comment (some event_id) row' in
    let (db', settled, given) =
      >>=-eq-ok (settle_row draws row' a (record db { outbox = outbox })) _ h6 in
    let (no_audit, _) = new-no_audit db id row c f (guard-ok _ _ is_fresh) in
    let (one, own) =
      audit-first row' a db.audit (reprocessed-records draws command comment event_id row)
        no_audit in
    let (fresh, at_end) = insert_outbox_json-eq o db.outbox outbox is_outbox in
    let (to_topic, has_event) =
      create_outbox_json-fields runtime draws made.topic _ made.event o is_o in
    let carried =
      message-carries event_id row' o
        (to_topic
          ∙ create_reprocessed_event-topic _ _ original corrected row.original_topic made is_made)
        has_event refl in
    let message = sym at_end in
    subst Consistent (ap (λ (p : DeadLetterRow × DlqDb). p.1) (ok-injective given)) (
      settle_row-Consistent draws row' a db db' outbox c refl (found-any id db.dead_letters row f)
        (λ r k.
          subst (λ (os : List OutboxJsonRow). count_by (carries r) os ≡ 1) message
            (carries-kept r o db.outbox fresh k))
        (
          one,
          own,
          subst (λ (os : List OutboxJsonRow). count_by (carries row') os ≡ 1) message
              (carries-first row' o db.outbox fresh carried),
        )
        settled)

pub reprocess-Consistent :
    (runtime : Runtime) (draws : Draws) (id : String) (corrected : Fields)
    (command : OperatorCommand) (db : DlqDb) {answer : DeadLetterRow × DlqDb}
    → Consistent db
    → Service.reprocess runtime draws id corrected command db ≡ ok answer
    → Consistent answer.1
unfolding Service.reprocess
reprocess-Consistent runtime draws id corrected command db c h =
    let (comment, _, h1) = >>=-eq-ok (require_comment command.comment) _ h in
    let (row, is_found, h2) = >>=-eq-ok (found (find_by_id id db.dead_letters)) _ h1 in
    reprocess_row-Consistent runtime draws command comment corrected id row db c
      (found-some (find_by_id id db.dead_letters) row is_found) h2
