-- ===== src/Lib.antt =====
-- The order flow of the Kafka playground: the order service with its transactional outbox, and the
-- messaging library that carries its events. Requests and lifecycle events change the tables of the
-- order service in transactions, each of which adds its outgoing events to the outbox; publishers
-- take rows from the outbox under leases and send them to Kafka; a consumer that fails sends its
-- message on through the retry topics to the dead letters; and an inbox makes a consumer's effects
-- idempotent. The theorems follow these parts over any history of calls.
--
-- Prelude: Boolean tests, lists measured by native numbers, JavaScript's `trim` and `length` of a
-- text, and results of code that may throw.
-- Contracts: packages/contracts/src/events.ts and topics.ts. An event's `eventType` is the
-- constructor of its payload.
-- Outbox.Entity: packages/outbox/src/outbox-event.entity.ts and create-outbox-event-entity.ts.
-- Outbox.Store: packages/outbox/src/postgres-outbox.store.ts; a function for each statement.
-- Store.Claim and Store.Rows hold the lemmas on a claim, Store.Lease the statements of all
-- publishers one after another, Store.Order the order of choice, Store.Backoff the delays.
-- Outbox.Publisher: `publishOutboxBatch` of packages/outbox/src/outbox-publisher.service.ts, with
-- the outcome of each attempt as an argument; Publisher.Batch relates a batch to the table.
-- Orders.Entity, StateMachine, Cancellation, FinalEvent and OrderId: the files of these names in
-- app/order-service/src/modules/orders (order-state-machine.ts and so on).
-- Orders.Tables: the tables `orders`, `processed_kafka_events`, `outbox_events` and
-- `order_create_idempotency_keys`, with the statements that the repository sends.
-- Orders.Repository: orders.repository.ts; Create, Lifecycle and Cancel hold the bodies of its
-- transactions, split where the code branches.
-- Orders.Transitions, Balance, Evolution and Outcomes: what one decision or one transaction does;
-- Orders.History: any sequence of calls of the repository's public methods (`run`).
-- Orders.OutboxAdmin: app/order-service/src/modules/outbox-admin/outbox-admin.service.ts, `retryOne`
-- and `ignore`.
-- Orders.Service: orders.service.ts, `createOrder`, `cancelOrder` and the path that the four
-- lifecycle handlers share.
-- Kafka.Headers and Errors: packages/kafka/src/kafka-headers.ts, the headers of
-- kafka-producer.service.ts, kafka-errors.ts and the error codes.
-- Kafka.Retry: packages/kafka/src/retry; Policy and Dispatcher are the code, Steps and Journey
-- follow one message through repeated failures.
-- Kafka.Consumer: packages/kafka/src/consumer/kafka-consumer-runner.ts; the handlers and one call of
-- `eachMessage`, with what the broker answers as an argument.
-- Kafka.Inbox: packages/kafka/src/inbox/postgres-kafka-inbox.store.ts; Inbox.Processor:
-- kafka-idempotent-event-processor.ts; Inbox.History: any sequence of calls of the store.
-- Admin.RateLimit: app/order-service/src/modules/admin-security/admin-rate-limit.guard.ts and the two
-- stores of admin-rate-limit.store.ts; Admin.Redis: the protocol of that file's Redis client, and
-- Redis.Client: what its data, commands and closed sockets do to the commands that wait.
-- Dlq: app/order-service/src/modules/dlq. Contract and Reprocess are dlq-reprocess.factory.ts and
-- dlq-event.parser.ts, on JSON objects (Json); Tables is dlq.repository.ts with the entities, and
-- Service is dlq.service.ts. Conforms and Corrected hold the contract of a payload apart from the
-- code, Decided, Saved and Commands what one command does, and History any sequence of calls.
-- Retention: app/order-service/src/modules/retention/technical-retention.service.ts, the statements
-- that delete finished rows and one pass over the tables.
-- Services: the services beside the order service. EventId is
-- packages/kafka/src/inbox/deterministic-event-id.ts; Risk is risk.scorer.ts and risk.service.ts of
-- app/risk-service/src/modules/risk, Payment payment.authorizer.ts and payment.service.ts of
-- app/payment-service/src/modules/payment, and Worker their consumers, which process an event through
-- the inbox (Kafka.Inbox.Processor) and publish what it keeps. Worker.Runs, Own and Ids follow a run
-- of the processor, Worker.Saved redeliveries, and Worker.Published and Worker.Chain join the services
-- with each other and with the order service.
-- Examples: concrete inputs, tests and an instance of every result.
--
-- Conventions. A transaction is a function from the tables to a result with new tables; one that
-- throws leaves the tables as they were. Transactions run one after another, as PostgreSQL's row
-- locks and unique indexes serialise them, in any order that a history gives. Loops are
-- structural recursion on lists; two run on fuel: `waits` of Kafka.Consumer gets
-- its delay, and the parser of Admin.Redis more than the length of the text that it reads, since a
-- nested reply is a part of that text (Redis.Fuel). Dates are milliseconds on the native numbers,
-- and one clock serves the database and the processes of a history; a theorem on leases takes
-- the time of each call. Ids that the code draws (`randomUUID()`, generated columns) are
-- arguments of the call (`Draws`), and need not be fresh: an id that is there already violates a
-- key, as in the database. A JavaScript number is the bits of its double, and the arithmetic on
-- it an argument (`Js`); Node's conversions of buffers and numbers are arguments too (`Node`), and so
-- is `chunk.toString("utf8")` of the Redis client (`decode`), which gets each piece of data alone. Every
-- delivery to a service of Services.Worker has the trace context of a span of its own.
-- The histories of the order repository and of the inbox have no pass of Retention between their
-- calls: once a finished row is deleted, its event counts as new, as the source says of that service.
-- The count of a retry header beyond 2^53, where a double would round, is kept exact.
--
-- Not modelled: spans, log lines and metrics; the Avro codec, the schema registry and the KafkaJS
-- client, whose outcomes are arguments; timers and the life cycle of Nest; the limits of `varchar`
-- and `numeric` columns, and the rounding of `numeric`; `uuid` columns compare their canonical texts.
-- The audit and the lists of the administration, its API keys, the gateway and the notification
-- service are not part of this development. A length or an integer that is not decimal, or a
-- negative length of a bulk text other than -1, none of which a Redis server sends, ends the
-- model's parse in `not_resp`, where the code goes on with `NaN` or with a text that the reply does
-- not hold.
pub mod Prelude
pub mod Contracts
pub mod Outbox
pub mod Orders
pub mod Kafka
pub mod Admin
pub mod Dlq
pub mod Retention
pub mod Services
pub mod Examples
