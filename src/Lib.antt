-- ===== src/Lib.antt =====
-- A verification of Leira, an append-only ledger with kernels that record runs, intents and claims in
-- it, a dispatcher that runs one intent by one worker, sessions and receipts over them, an auditor, and
-- read models over evidence.
--
-- Every kernel writes to one SQLite table of events, each with the hash of the one before, and reads
-- its state back from there; other tables are projections that can be rebuilt. Here the database is
-- the record `Ledger.Db`: the rows in insertion order, the projections as association lists, a
-- counter of draws from outside and the list of worker invocations. An operation takes it and returns
-- its result with the new one. `Platform` is what Python and SQLite give: NFC, JSON, SHA-256, `LIKE`,
-- uuid4, the clock and whether a write fails, the last three by the number of the draw. What the
-- documents say of it, where a theorem needs it, is the record `IsStandard`, about ids and names of
-- ASCII letters, digits and hyphens and about the key names of the program.
--
-- Files and the code they model:
--   Value, Errors, Table, Rows     payload values, error names, tables keyed by an id, their rows
--   Ledger, Ledger/*               leira/dispatcher/kernel.py
--   Projection, Projection/*       leira/projection/state.py, leira/projection/rebuild.py
--   Lifecycle, Lifecycle/*         leira/dispatcher/lifecycle.py
--   Inbox, Inbox/*                 leira/inbox/inbox.py
--   Claims, Claims/*               leira/claims/claims.py
--   Workers                        leira/workers/base.py
--   Dispatch, Dispatch/*           leira/dispatcher/dispatcher.py
--   Provenance, Provenance/*       leira/provenance/git_provenance.py,
--                                  leira/environment/environment.py
--   Gated, Gated/*                 the dispatches with provenance of leira/dispatcher/dispatcher.py
--   Registry, Registry/*           leira/registry/registry.py
--   Sessions, Sessions/*           leira/sessions/sessions.py
--   Receipts, Receipts/*           leira/receipts/receipts.py
--   Audit, Audit/*                 leira/audit/auditor.py
--   Evidence, Evidence/*           leira/lifecycle_projection/lifecycle.py
--   FlowPolicy, FlowPolicy/*       leira/flow_policy_projection/flow_policy.py
--   EngineeringKernel, *           leira/missing_evidence_projection/missing_evidence.py,
--                                  leira/engineering_state_projection/engineering_state.py,
--                                  leira/engineering_kernel/kernel.py
--   ReviewPolicy, ReviewPolicy/*   leira/review_policy/policy.py
--   Envelope, Envelope/*           leira/dispatcher/envelope.py
--   Prelude, Prelude/*             shared names and lemmas
--   Tests, Tests/*                 a small platform and runs of the models on it
--
-- Names follow the source. A long function is cut at its calls: `dispatch_once` goes through
-- `dispatch_claim`, `dispatch_run`, `dispatch_start`, `dispatch_work` and `dispatch_final`, and
-- `dispatch_with_provenance` through `gated_claim`, `gated_provenance`, `gated_environment` and so on.
-- All recursion is structural, over rows, fields or labels, so there is no fuel.
--
-- Assumed throughout: one process writes at a time, and a read of the database does not fail. A worker
-- is a function of the payload that may raise. Git and the Python runtime are the parameter
-- `Surroundings` of a capture. A failed write in a function of the source that does not catch it is
-- the result `none`. A text is a sequence of Unicode scalar values, so Python strings with lone
-- surrogates are left out, and the recursion limit of the interpreter is not reached. An integer of more
-- digits than the interpreter prints makes `json.dumps` raise a ValueError that nothing catches:
-- `append_event` and what calls it then have the error `uncaught`, which is no answer of the program
-- but the exception, and `submit_intent` has the result `none`; `repr` is called for printable values.
-- Messages for people, log lines, Markdown pages (but for that of the flow policy)
-- and files are not modelled, so the audit is the one without a workspace; nor are the rebuilds of the
-- artifact, provenance and environment tables, the archive and the execution adapters.
pub mod Prelude
pub mod Value
pub mod Platform
pub mod Errors
pub mod Table
pub mod Rows
pub mod Ledger
pub mod Projection
pub mod Lifecycle
pub mod Inbox
pub mod Claims
pub mod Workers
pub mod Dispatch
pub mod Registry
pub mod Sessions
pub mod Receipts
pub mod Provenance
pub mod Gated
pub mod Audit
pub mod Evidence
pub mod FlowPolicy
pub mod EngineeringKernel
pub mod ReviewPolicy
pub mod Envelope
pub mod Tests
