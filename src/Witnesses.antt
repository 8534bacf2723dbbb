-- ===== src/Witnesses.antt =====
-- Runs of the theorems at concrete orders, items, credit lines, invoices and codes.
mod Samples
mod OrderRuns
mod CreditRuns
mod Orders
mod Fulfillment
mod Billing
mod Kernel
mod Invoice
mod Saga
mod Projector
mod Dispatch
mod Outbox
mod Gateway
