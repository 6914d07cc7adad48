-- ===== src/Tests.antt =====
-- Runs of the models on a platform whose JSON texts are the values themselves.
pub mod Toy
mod LedgerRuns
mod LifecycleRuns
mod InboxRuns
mod DispatchRuns
mod RegistryRuns
mod AuditRuns
mod GateRuns
mod PureRuns
