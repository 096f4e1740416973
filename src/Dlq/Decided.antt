-- ===== src/Dlq/Decided.antt =====
-- How the row of a dead letter, the audit log and the outbox tell of the operator's decision.
use kafka_nest_playground.Prelude.{
  ◌≡◌, refl, ap, sym, ◌∙◌, String, Bool, true, false, List, [], ◌∷◌, ◌++◌, Option, none, some, any,
  count_by, count_by-append, ◌==◌, ◌&&◌, ◌||◌, eq_iff, eq_refl, arith, Bool-cases, inl, inr,
}
use kafka_nest_playground.Prelude.Decimal.{All}
use kafka_nest_playground.Prelude.Tx.{ok}
use kafka_nest_playground.Dlq.Tables.{
  DeadLetterStatus, DeadLetterRow, DlqAuditAction, DlqAuditLog, OutboxJsonRow, DlqDb, has_id,
  insert_outbox_json, insert_audit, is_for,
}
use kafka_nest_playground.Dlq.Rows.{count_by-zero, count_by-any}

abbrev pub is_text_of : Option String → String → Bool
is_text_of none s = false
is_text_of (some t) s = t == s

abbrev pub same_option : Option String → Option String → Bool
same_option none none = true
same_option (some s) (some t) = s == t
same_option _ _ = false

abbrev pub tells : DlqAuditAction → DeadLetterStatus → Bool
tells DlqAuditAction.reprocess DeadLetterStatus.reprocessed = true
tells DlqAuditAction.ignore DeadLetterStatus.ignored = true
tells _ _ = false

-- The audit row `a` records the decision in the row `r`: the same action, operator, comment and
-- event.
abbrev pub records : DeadLetterRow → DlqAuditLog → Bool
records r a =
    is_for r.id a
    && (tells a.action r.status
        && (is_text_of r.resolved_by a.operator_id
            && (is_text_of r.resolution_comment a.comment
                && same_option a.reprocessed_event_id r.reprocessed_event_id)))

-- The outbox row carries the new event of the row `r`, to the topic where the dead letter came from.
abbrev pub carries : DeadLetterRow → OutboxJsonRow → Bool
carries r o = is_text_of r.reprocessed_event_id o.event_id && o.topic == r.original_topic

-- By the status: no audit row and no new event; or exactly one, which records the decision, with,
-- for a reprocessed row, exactly one message in the outbox.
abbrev pub DecidedBy :
    DeadLetterStatus → DeadLetterRow → List DlqAuditLog → List OutboxJsonRow → Type 0
DecidedBy DeadLetterStatus.new r audit outbox =
    (count_by (is_for r.id) audit ≡ 0) × (r.reprocessed_event_id ≡ none)
DecidedBy DeadLetterStatus.ignored r audit outbox =
    (count_by (is_for r.id) audit ≡ 1) × (count_by (records r) audit ≡ 1)
DecidedBy DeadLetterStatus.reprocessed r audit outbox =
    (count_by (is_for r.id) audit ≡ 1)
    × (count_by (records r) audit ≡ 1)
    × (count_by (carries r) outbox ≡ 1)

abbrev pub Decided : DlqDb → DeadLetterRow → Type 0
Decided db r = DecidedBy r.status r db.audit db.outbox

pub record Consistent (db : DlqDb) : Type 0 where
  pub rows : All (Decided db) db.dead_letters
  pub no_orphans :
      (id : String) → any (has_id id) db.dead_letters ≡ false → count_by (is_for id) db.audit ≡ 0

-- The counts of a row are what matters.
pub DecidedBy-frame :
    (s : DeadLetterStatus) (r : DeadLetterRow) (audit audit' : List DlqAuditLog)
    (outbox outbox' : List OutboxJsonRow)
    → count_by (is_for r.id) audit' ≡ count_by (is_for r.id) audit
    → count_by (records r) audit' ≡ count_by (records r) audit
    → (count_by (carries r) outbox ≡ 1 → count_by (carries r) outbox' ≡ 1)
    → DecidedBy s r audit outbox
    → DecidedBy s r audit' outbox'
DecidedBy-frame DeadLetterStatus.new r audit audit' outbox outbox' e f g (h, k) = (e ∙ h, k)
DecidedBy-frame DeadLetterStatus.ignored r audit audit' outbox outbox' e f g (h, k) = (e ∙ h, f ∙ k)
DecidedBy-frame DeadLetterStatus.reprocessed r audit audit' outbox outbox' e f g (h, k, l) =
    (e ∙ h, f ∙ k, g l)

pub and_left : (a b : Bool) → (a && b) ≡ true → a ≡ true
and_left true b h = refl
and_left false b h = h

pub and_right : (a b : Bool) → (a && b) ≡ true → b ≡ true
and_right true b h = h
and_right false b h = cc

pub records-is_for :
    (r : DeadLetterRow) (a : DlqAuditLog) → records r a ≡ true → is_for r.id a ≡ true
records-is_for r a h = and_left _ _ h

-- An inserted row stands at the end, and its event is new.
pub insert_audit-eq :
    (a : DlqAuditLog) (rows rows' : List DlqAuditLog)
    → insert_audit a rows ≡ ok rows'
    → rows' ≡ rows ++ a ∷ []
unfolding insert_audit
insert_audit-eq a rows rows' h = ground arith

pub insert_outbox_json-eq :
    (o : OutboxJsonRow) (rows rows' : List OutboxJsonRow)
    → insert_outbox_json o rows ≡ ok rows'
    → (any (λ (r : OutboxJsonRow). r.id == o.id || r.event_id == o.event_id) rows ≡ false)
      × (rows' ≡ rows ++ o ∷ [])
unfolding insert_outbox_json
insert_outbox_json-eq o rows rows' h = ground arith

abbrev pub clashes : OutboxJsonRow → OutboxJsonRow → Bool
clashes o r = r.id == o.id || r.event_id == o.event_id

is_text_of-eq : (o : Option String) (s : String) → is_text_of o s ≡ true → o ≡ some s
is_text_of-eq none s h = cc
is_text_of-eq (some t) s h = ap some ((eq_iff t s).0 h)

text-injective : {s t : String} → some s ≡ some t → s ≡ t
text-injective h = cc

or_right : (a b : Bool) → b ≡ true → (a || b) ≡ true
or_right true b h = refl
or_right false b h = h

carries-clashes :
    (r : DeadLetterRow) (o x : OutboxJsonRow)
    → carries r o ≡ true
    → carries r x ≡ true
    → clashes o x ≡ true
carries-clashes r o x h k =
    let mine = is_text_of-eq r.reprocessed_event_id o.event_id (and_left _ _ h) in
    let its = is_text_of-eq r.reprocessed_event_id x.event_id (and_left _ _ k) in
    let same : x.event_id ≡ o.event_id = text-injective (sym its ∙ mine) in
    or_right _ _ ((eq_iff x.event_id o.event_id).1 same)

-- A message of a new event is none of a row that has one, and the first of its own.
carries-before :
    (r : DeadLetterRow) (o : OutboxJsonRow) (rows : List OutboxJsonRow)
    → any (clashes o) rows ≡ false
    → carries r o ≡ true
    → count_by (carries r) rows ≡ 0
carries-before r o rows fresh h =
    count_by-any (carries r) (clashes o) rows (λ x k. carries-clashes r o x h k) fresh

pub carries-kept :
    (r : DeadLetterRow) (o : OutboxJsonRow) (rows : List OutboxJsonRow)
    → any (clashes o) rows ≡ false
    → count_by (carries r) rows ≡ 1
    → count_by (carries r) (rows ++ o ∷ []) ≡ 1
carries-kept r o rows fresh one = elim (Bool-cases (carries r o)) [
  | inl e ↦ absurd (omega (arith, carries-before r o rows fresh e, one))
  | inr e ↦ count_by-append (carries r) rows (o ∷ []) ∙ rw e (omega (arith, one))
]

pub carries-first :
    (r : DeadLetterRow) (o : OutboxJsonRow) (rows : List OutboxJsonRow)
    → any (clashes o) rows ≡ false
    → carries r o ≡ true
    → count_by (carries r) (rows ++ o ∷ []) ≡ 1
carries-first r o rows fresh own =
    count_by-append (carries r) rows (o ∷ [])
    ∙ rw own (omega (arith, carries-before r o rows fresh own))

pub message-carries :
    (event_id : String) (r : DeadLetterRow) (o : OutboxJsonRow)
    → o.topic ≡ r.original_topic
    → o.event_id ≡ event_id
    → r.reprocessed_event_id ≡ some event_id
    → carries r o ≡ true
message-carries event_id r o topic mine its =
    rw (its, mine, topic, eq_refl event_id, eq_refl r.original_topic)

-- An audit row of another dead letter changes neither count.
pub audit-kept :
    (r : DeadLetterRow) (a : DlqAuditLog) (audit : List DlqAuditLog)
    → is_for r.id a ≡ false
    → (count_by (is_for r.id) (audit ++ a ∷ []) ≡ count_by (is_for r.id) audit)
      × (count_by (records r) (audit ++ a ∷ []) ≡ count_by (records r) audit)
audit-kept r a audit other = (
  count_by-append (is_for r.id) audit (a ∷ []) ∙ rw other (omega arith),
  count_by-append (records r) audit (a ∷ []) ∙ rw other (omega arith),
)

-- The first audit row of a dead letter.
pub audit-first :
    (r : DeadLetterRow) (a : DlqAuditLog) (audit : List DlqAuditLog)
    → records r a ≡ true
    → count_by (is_for r.id) audit ≡ 0
    → (count_by (is_for r.id) (audit ++ a ∷ []) ≡ 1) × (count_by (records r) (audit ++ a ∷ []) ≡ 1)
audit-first r a audit own none_yet = (
  count_by-append (is_for r.id) audit (a ∷ [])
      ∙ rw (records-is_for r a own) (omega (arith, none_yet)),
  count_by-append (records r) audit (a ∷ [])
      ∙ rw own (
          omega (arith, count_by-zero (records r) (is_for r.id) audit (records-is_for r) none_yet)),
)
