-- ===== src/Examples/Retaining.antt =====
-- A pass of retention over an outbox with one published row and one that waits.
use kafka_nest_playground.Prelude.{
  ◌≡◌, refl, arith, String, true, false, List, [], ◌∷◌, none, some, eq_iff, ◌==◌, Bool-cases, inl,
  inr, sym,
}
use kafka_nest_playground.Outbox.Entity.{OutboxEvent}
use kafka_nest_playground.Outbox.Store.{find_publishable, as_published}
use kafka_nest_playground.Kafka.Inbox.{InboxStatus}
use kafka_nest_playground.Dlq.Tables.{filter}
use kafka_nest_playground.Retention.{
  insert_by, ordered, batch, delete_batch, read_positive_integer, Config, cleanup_target,
  RetentionDb, Conditions, CompletedRow, cleanup,
}
use kafka_nest_playground.Retention.Laws.{
  is_unfinished, HasUniqueIds, HasUniqueEvents, cleanup-unfinished,
}
use kafka_nest_playground.Examples.KafkaRetry.{node}
use kafka_nest_playground.Examples.OutboxFlow.{row}

abbrev settings : Config
settings name = none

abbrev outbox : List OutboxEvent
outbox = as_published 20 (row "a" 10) ∷ row "b" 11 ∷ []

abbrev completed : CompletedRow String
completed = record {
  row = record {
    consumer_name = "risk";
    event_id = "event-1";
    status = InboxStatus.prepared;
    result = some "done";
    lock_token = none;
    locked_until = none;
    attempts = 1;
    last_error = none;
  };
  completed_at = none;
}

abbrev tables : RetentionDb String
tables = record { outbox = outbox; processed = []; inbox = completed ∷ [] }

-- A hundred days later.
abbrev given : Conditions String
given = record {
  now = 8640000000;
  outbox_locked = λ r. false;
  outbox_throws = false;
  processed_locked = λ r. false;
  processed_throws = true;
  inbox_locked = λ r. false;
  inbox_throws = false;
}

unique_ids : HasUniqueIds outbox
unique_ids x = elim (Bool-cases ("a" == x.id)) [
  | inl e ↦ rw (sym ((eq_iff "a" x.id).0 e)) (omega arith)
  | inr e ↦ elim (Bool-cases ("b" == x.id)) [
    | inl f ↦ rw (e, f) (omega arith)
    | inr f ↦ rw (e, f) (omega arith)
  ]
]

unique_events : HasUniqueEvents (completed ∷ [])
unique_events x = ground arith

cleanup-unfinished_example :
    ((find_publishable 100 5 "first" 1000 (cleanup node settings given tables).outbox).0
      ≡ (find_publishable 100 5 "first" 1000 outbox).0)
    × (filter is_unfinished (cleanup node settings given tables).inbox
        ≡ filter is_unfinished (completed ∷ []))
cleanup-unfinished_example =
    cleanup-unfinished node settings given tables 100 5 "first" 1000 unique_ids unique_events

-- The published row goes, and the other stays.
one_left : (cleanup node settings given tables).outbox ≡ row "b" 11 ∷ []
unfolding cleanup cleanup_target read_positive_integer delete_batch batch ordered insert_by filter
one_left = refl
