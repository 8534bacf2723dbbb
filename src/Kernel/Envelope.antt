-- ===== src/Kernel/Envelope.antt =====
-- packages/shared-kernel/src/domain/event-envelope.ts. `createDomainEvent` draws the event id, which
-- is an argument of the builders here; its checks reject absent fields and malformed event types,
-- which this model cannot express. The event type is the payload's constructor. Instants are
-- milliseconds.
use order_to_cash_nestjs.Base.{ℕ}
use order_to_cash_nestjs.Base.Text.{Text}

-- `DomainEventEnvelope`, for the payloads of one service.
pub record Envelope (P : Type 0) : Type 0 where
  pub event_id : Text
  pub aggregate_id : Text
  pub correlation_id : Text
  pub causation_id : Text
  pub occurred_at : ℕ
  pub payload : P

-- The instant and the cause of a change: `TransitionContext`, `StockContext`, `CreditContext` and
-- `InvoiceContext`.
pub record Context : Type 0 where
  pub occurred_at : ℕ
  pub causation_id : Text
