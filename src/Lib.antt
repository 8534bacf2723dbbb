-- ===== src/Lib.antt =====
-- Order to cash: a verification library of the domain code of the services.
--
-- The program is a set of NestJS services that take an order from its placement to its payment. The
-- Orders service (apps/orders) owns the `Order` aggregate and its state machine and drives the others
-- with commands; the Fulfillment service (apps/fulfillment) reserves, releases and consumes stock; the
-- Billing service (apps/billing) holds, consumes and releases the credit of a buyer, and issues
-- invoices. They answer each other with facts (domain events), which every aggregate records next to
-- its state and its repository stores in the same transaction. The Projector (apps/projector) consumes
-- all facts and keeps one document for each order, with its timeline. The value objects that all of
-- them use are in packages/shared-kernel.
--
-- The files, and the code that each models:
--
--   Base       lists, integers and texts, with the names of the libraries passed on
--   Errors     the domain errors, one constructor for each error class; Result is a call that may throw
--   Kernel     packages/shared-kernel/src/domain: Money (money.ts), Gln (gln.ts), Reference
--              (business-reference.ts), Envelope (event-envelope.ts), MoneyText (money-text.ts,
--              currency-exponent.ts), UniqueId (unique-id.ts)
--   Orders     apps/orders/src/domain: Status (order-status.ts, order-cancellation-reason.ts),
--              Transitions (order-transitions.ts), Order (order-line.ts, order-totals.ts,
--              order-events.ts, order-snapshot.ts, order.ts)
--   Fulfillment  apps/fulfillment/src/domain: StockItem (stock-item.ts, reservation.ts), OrderStock
--              (order-stock-reservation.ts), Facts (stock-events.ts), Despatch (despatch-advice.ts,
--              despatch-events.ts, order-despatch.ts)
--   Billing    apps/billing/src/domain: Ledger (credit-ledger-entry.ts, credit-exposure.ts), Line and
--              Credit (buyer-credit.ts, credit-events.ts, buyer-credit-snapshot.ts: its state and its
--              methods), Invoice (invoice.ts, invoice-line.ts, invoice-events.ts, invoice-snapshot.ts)
--   Saga       apps/orders/src/application: Steps (saga-steps.ts), Commands
--              (saga-command-payloads.ts, and the table of owed commands behind
--              apps/orders/src/infrastructure/saga/drizzle-saga-command-store.ts), Handler
--              (saga-fact-handler.ts, and apps/orders/src/infrastructure/messaging/idempotent-consumer.ts);
--              apps/orders/src/infrastructure/saga: Store (drizzle-saga-command-store.ts), Dispatch
--              (saga-command-dispatcher.ts, saga-first-park-dead-letter-handler.ts, and
--              apps/orders/src/infrastructure/messaging/nats-saga-commands.adapter.ts), Sweep
--              (saga-command-sweeper.service.ts); Cancel
--              (apps/orders/src/application/cancel-order.handler.ts)
--   Outbox     apps/orders/src/infrastructure/outbox: outbox-recorder.ts, outbox-envelope-mapper.ts,
--              outbox-relay.ts, kafka-fact-publisher.ts (the other services have copies)
--   Projector  apps/projector/src/domain: Facts and Delta (fact-projection.ts, projection-delta.ts),
--              Rank (order-status-rank.ts), Summaries (summaries.ts);
--              apps/projector/src/infrastructure: Timeline (the causal order of
--              persistence/delta-to-pipeline.ts), Document (the rest of it,
--              persistence/order-timeline.document.ts, persistence/mongo-read-model-writer.ts,
--              messaging/idempotent-consumer.ts, and the path of an envelope through
--              apps/projector/src/application/projection-apply.service.ts and
--              apps/projector/src/presentation/projector-facts.controller.ts)
--   Gateway    apps/gateway/src/domain/sse: Replay (replay-buffer.ts, cursor.ts)
--   Witnesses  the theorems at concrete inputs
--
-- An aggregate is a record of its properties, its id and the facts that it has recorded. A method is a
-- function from the aggregate to a `Result`: the aggregate after the call, or the error that is thrown.
-- No method of the code assigns to the aggregate before a statement that throws, so a call that throws
-- leaves it as it was: the one guard that stands after an assignment, the one in `appendFact` on the
-- aggregate that a fact names, holds of every fact that the aggregate builds. Ids and instants come in
-- as arguments; where a method draws several ids they are the values of a function on the natural
-- numbers. The life of an aggregate is a data type of the sequences of calls that did not throw, and
-- its invariants are theorems by induction on it.
--
-- The saga handler is a function from the database (orders, outbox, processed facts, owed commands,
-- ignored facts) to the database after the transaction; a transaction that throws is rolled back and is
-- an error here. The repository of orders is the list of the stored orders, with the outbox that takes
-- their facts: that an order comes back from its rows as it was saved is taken of the repository and its
-- mapper, which are not modelled. The look-ups of reference data that a save makes are taken to succeed.
-- The ids of a fact are texts, and the handler makes a `UniqueId` of them where the code does, which
-- throws on a text that is no UUID v4. The instant of a fact is a valid one: that `new Date` of its text
-- is a date is taken of the envelope.
--
-- A dispatch takes what the broker answers to each attempt, the instant, and whether the dead letter can
-- be published as arguments; the sweeper takes them for each claimed row. `maxAttempts` is taken to be
-- positive. The calls of the store follow one another, as its single statements do; theorems on the
-- store hold of any sequence of them, whoever makes them. Rounds of attempts are the fuel of the loop
-- and come from `maxAttempts`, as in the code.
--
-- The outbox is the list of its rows in the order of their sequence numbers, and a topic is a function
-- from keys to the facts that the broker took. A publication is acknowledged, or fails after the broker
-- took the first facts of each key: the producer is idempotent and has one request in flight, which
-- Kafka documents to keep the order of a key. One relay runs at a time.
--
-- The update pipeline of the Projector is a function of the document, and a collection is a function
-- from order ids to documents: MongoDB applies one update to one document atomically. Sorting is
-- insertion sort; the keys that the code sorts by decide between any two entries of distinct ids, and
-- the theorems on the order of a timeline ask for distinct ids. Texts are compared by code unit, which
-- is the order of MongoDB for the ASCII texts that are compared here (instants, ids). The relaxation of
-- depths runs one round for each entry, as in the code.
--
-- Amounts of money are integers with the test `Number.isSafeInteger` written out where the code makes
-- a `Money`. Where the code adds plain numbers (stock counters, committed exposure) the model adds
-- integers: JavaScript agrees as long as the counters are safe integers, which the code does not test.
-- Strings are lists of UTF-16 code units. A number is printed in decimal with 21 rounds, which are
-- enough for every number below 10^21; beyond it JavaScript writes an exponent, a parameter here. A
-- sequence number is an integer, so that the test `Number.isInteger` holds by its type.
--
-- An item of stock is loaded with its reservations, or some of them; its calls subtract their units from
-- the counters without a test. The invariant of an item therefore has F1 (reserved units no more than
-- units) next to the condition that the loaded reservations in status `reserved` are among the reserved
-- units, which F2 implies.
--
-- Not modelled: the texts of error messages other than those that a dispatch stores, logs and
-- traces, run-time checks for values that the types exclude, the databases, message brokers and
-- transports themselves and the parsing of their messages, the parts that the services' other
-- application layers add around the domain (placing over the repositories, the
-- handlers of Billing and Fulfillment), the rest of the gateway, notifications, the user interface,
-- and the contracts but for the payloads that the Projector reads.
pub mod Base
pub mod Errors
pub mod Result
pub mod Kernel
pub mod Orders
pub mod Fulfillment
pub mod Billing
pub mod Saga
pub mod Outbox
pub mod Gateway
pub mod Projector
pub mod Witnesses
