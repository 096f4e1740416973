-- ===== src/Kafka/Retry/Passing.antt =====
-- Which headers pass through the producer, and what the dispatcher's headers read as.
use kafka_nest_playground.Prelude.{
  String, ◌≡◌, refl, ◌∙◌, Bool, true, false, Option, none, some, ◌==◌, ◌||◌, arith, ◌⊎◌, inl, inr,
  Bool-cases,
}
use kafka_nest_playground.Prelude.Tx.{ok, >>=-eq-ok}
use kafka_nest_playground.Contracts.Events.{DomainEvent}
use kafka_nest_playground.Outbox.Entity.{TraceCarrier}
use kafka_nest_playground.Kafka.Headers
use kafka_nest_playground.Kafka.Headers.{
  Node, KafkaHeaders, HeaderValue, read_header, published_headers, with_trace, with_header,
}
use kafka_nest_playground.Kafka.Errors.{Thrown}
use kafka_nest_playground.Kafka.Retry.Policy.{KafkaRetryDecision, decide_failure}
use kafka_nest_playground.Kafka.Retry.Dispatcher.{
  KafkaConsumerMessageContext, SentMessage, DispatchSetup, build_retry_headers, send_on, dispatch,
}

-- The names that the producer sets itself.
abbrev pub is_envelope_name : String → Bool
is_envelope_name name =
    Headers.correlation_id == name
    || Headers.causation_id == name
    || Headers.event_id == name
    || Headers.event_type_name == name
    || Headers.event_version == name

abbrev pub is_trace_name : String → Bool
is_trace_name name =
    Headers.trace_parent == name
    || Headers.trace_state == name
    || Headers.trace_id == name
    || Headers.span_id == name

-- The names that the dispatcher sets.
abbrev pub is_retry_name : String → Bool
is_retry_name name =
    Headers.retry_count == name
    || Headers.original_topic == name
    || Headers.first_failed_at == name
    || Headers.error_code == name

-- The names that a dispatch sets.
abbrev pub is_set_name : String → Bool
is_set_name name = is_retry_name name || (is_envelope_name name || is_trace_name name)

with_trace-other :
    (trace : TraceCarrier) (headers : KafkaHeaders) (name : String)
    → is_trace_name name ≡ false
    → with_trace trace headers name ≡ headers name
with_trace-other trace headers name h = ground arith

pub published_headers-other :
    (node : Node) (trace : TraceCarrier) (event : DomainEvent) (c d : Option String)
    (headers : KafkaHeaders) (name : String)
    → is_envelope_name name ≡ false
    → is_trace_name name ≡ false
    → published_headers node trace event c d headers name ≡ headers name
unfolding published_headers
published_headers-other node trace event c d headers name e t =
    ground (arith, with_trace-other trace headers name t)

-- Two publications of an event differ in the headers of the trace only.
pub published_headers-same :
    (node : Node) (trace trace' : TraceCarrier) (event : DomainEvent) (c d : Option String)
    (headers : KafkaHeaders) (name : String)
    → is_trace_name name ≡ false
    → published_headers node trace event c d headers name
      ≡ published_headers node trace' event c d headers name
unfolding published_headers
published_headers-same node trace trace' event c d headers name t =
    ground (arith, with_trace-other trace headers name t, with_trace-other trace' headers name t)

-- The correlation id and the causation id of a published message are those of its event, whatever
-- the options and the extra headers say.
published_headers-envelope :
    (node : Node) (trace : TraceCarrier) (event : DomainEvent) (c d : Option String)
    (headers : KafkaHeaders)
    → (read_header node (published_headers node trace event c d headers) Headers.correlation_id
        ≡ some event.correlation_id)
      × (read_header node (published_headers node trace event c d headers) Headers.causation_id
          ≡ event.causation_id)
unfolding published_headers read_header
published_headers-envelope node trace event c d headers = ground arith

-- What the four headers read as, and that the others are left alone.
pub record CarriesDecision (node : Node) (before after : KafkaHeaders)
    (decision : KafkaRetryDecision) : Type 0 where
  pub original : read_header node after Headers.original_topic ≡ some decision.original_topic
  pub count : read_header node after Headers.retry_count ≡ some (node.to_text decision.retry_count)
  pub first : read_header node after Headers.first_failed_at ≡ some decision.first_failed_at
  pub code : read_header node after Headers.error_code ≡ some decision.error_code
  pub others : (name : String) → (is_set_name name ≡ true) ⊎ (after name ≡ before name)

build_retry_headers-other :
    (node : Node) (before : KafkaHeaders) (decision : KafkaRetryDecision) (name : String)
    → is_retry_name name ≡ false
    → build_retry_headers node before decision name ≡ before name
unfolding build_retry_headers
build_retry_headers-other node before decision name h = ground arith

published-other :
    (node : Node) (trace : TraceCarrier) (event : DomainEvent) (before : KafkaHeaders)
    (decision : KafkaRetryDecision) (name : String)
    → (is_set_name name ≡ true)
      ⊎ (published_headers node trace event none none
            (build_retry_headers node before decision)
            name
          ≡ before name)
published-other node trace event before decision name = elim (Bool-cases (is_retry_name name)) [
  | inl r ↦ inl (rw r refl)
  | inr r ↦ elim (Bool-cases (is_envelope_name name)) [
    | inl e ↦ inl (rw (r, e) refl)
    | inr e ↦ elim (Bool-cases (is_trace_name name)) [
      | inl t ↦ inl (rw (r, e, t) refl)
      | inr t ↦ inr (
          published_headers-other node trace event none none
            (build_retry_headers node before decision) name e t
          ∙ build_retry_headers-other node before decision name r)
    ]
  ]
]

pub published-CarriesDecision :
    (node : Node) (trace : TraceCarrier) (event : DomainEvent) (before : KafkaHeaders)
    (decision : KafkaRetryDecision)
    → CarriesDecision node before
        (published_headers node trace event none none (build_retry_headers node before decision))
        decision
unfolding read_header build_retry_headers
published-CarriesDecision node trace event before decision =
    let other : (name : String)
        → (is_set_name name ≡ true)
          ⊎ (published_headers node trace event none none (build_retry_headers node before decision)
                name
              ≡ before name) =
      λ name. published-other node trace event before decision name in
    let p = λ (name : String) (e : is_envelope_name name ≡ false) (t : is_trace_name name ≡ false).
      published_headers-other node trace event none none (build_retry_headers node before decision)
        name e t in
    record {
      original = rw (p Headers.original_topic refl refl, read_header);
      count = rw (p Headers.retry_count refl refl, read_header);
      first = rw (p Headers.first_failed_at refl refl, read_header);
      code = rw (p Headers.error_code refl refl, read_header);
      others = λ name. other name;
    }

-- Whatever a dispatch sends, to a retry topic or to the dead letters, its message carries the
-- decision in the four retry headers, and every header of the failed message that is neither one of
-- these, nor of the event envelope, nor of the trace.
pub dispatch-CarriesDecision :
    (setup : DispatchSetup) (context : KafkaConsumerMessageContext) (thrown : Thrown)
    (decision : KafkaRetryDecision) (sent : SentMessage)
    → dispatch setup context thrown ≡ ok (decision, sent)
    → CarriesDecision setup.node context.headers sent.headers decision
unfolding dispatch
dispatch-CarriesDecision setup context thrown decision sent h =
    let (d, decided, done) =
      >>=-eq-ok
        (decide_failure setup.node setup.config context.topic context.headers thrown setup.now) _
        h in
    let same : (d ≡ decision) × (send_on setup context thrown d d.terminal ≡ sent) =
      (ground arith, ground arith) in
    rw (← same.1, ← same.0) (carried d d.terminal)
  where
    carried :
        (d : KafkaRetryDecision) (terminal : Bool)
        → CarriesDecision setup.node context.headers
            (send_on setup context thrown d terminal).headers
            d
    carried d true =
        unfold send_on in published-CarriesDecision setup.node setup.trace _ context.headers d
    carried d false =
        unfold send_on in published-CarriesDecision setup.node setup.trace _ context.headers d
