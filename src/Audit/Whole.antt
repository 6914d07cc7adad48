-- ===== src/Audit/Whole.antt =====
-- `audit` of leira/audit/auditor.py: all checks in their fixed order, without a workspace.
pub mod Sound
use leira.Prelude.{String, Bool, true, false, List, [], ◌∷◌, ◌++◌, joined}
use leira.Platform.{Platform}
use leira.Ledger.{
  Db, LedgerEvent, ValidateChainResult, valid, chain_broken, hash_mismatch, validate_chain,
}
use leira.Audit.{report}
use leira.Audit.Events.{
  check_required_fields, check_duplicate_event_ids, check_monotonic_ordering, check_run_id_presence,
  check_artifact_schema,
}
use leira.Audit.Runs.{check_lifecycle_transitions, check_projections}
use leira.Audit.Intents.{
  check_intents, check_intent_transitions, check_duplicate_claims, check_worker_name_consistency,
}
use leira.Audit.Workers.{check_duplicate_worker_registrations, check_worker_projection}
use leira.Audit.Claims.{check_claim_history, check_claim_projection}
use leira.Audit.Snapshots.Schema.{
  check_provenance_schema, check_environment_schema, check_unique_provenance_snapshot_ids,
  check_unique_environment_snapshot_ids,
}
use leira.Audit.Snapshots.Tables.{
  check_artifact_projection, check_provenance_projection, check_environment_projection,
}
use leira.Audit.Sessions.{check_session_history, check_session_projection}
use leira.Audit.Receipts.{check_receipt_projection}

pub record AuditResult : Type 0 where
  pub success : Bool
  pub chain_valid : Bool
  pub projections_valid : Bool
  pub errors : List String

-- `len(errors) == 0`
abbrev pub is_empty : List String → Bool
is_empty [] = true
is_empty (x ∷ xs) = false

-- `chain_result.success`
abbrev pub is_chain_valid : ValidateChainResult → Bool
is_chain_valid (valid n) = true
is_chain_valid (chain_broken n event_id) = false
is_chain_valid (hash_mismatch n event_id) = false

unfoldable pub chain_errors : ValidateChainResult → List String
chain_errors (valid n) = []
chain_errors (chain_broken n event_id) = report "MISSING_PREVIOUS_HASH" event_id ∷ []
chain_errors (hash_mismatch n event_id) = report "BROKEN_HASH_CHAIN" event_id ∷ []

module _ {Text : Type 0} (P : Platform Text) where
  -- The checks on the ledger alone.
  unfoldable pub history_errors : List (LedgerEvent Text) → List String
  history_errors es = joined (
      check_required_fields P es
      ∷ check_duplicate_event_ids P es
      ∷ check_monotonic_ordering P es
      ∷ check_run_id_presence P es
      ∷ check_lifecycle_transitions P es
      ∷ check_artifact_schema P es
      ∷ check_intent_transitions P es
      ∷ check_duplicate_claims P es
      ∷ check_worker_name_consistency P es
      ∷ check_duplicate_worker_registrations P es
      ∷ check_claim_history P es
      ∷ check_provenance_schema P es
      ∷ check_unique_provenance_snapshot_ids P es
      ∷ check_environment_schema P es
      ∷ check_unique_environment_snapshot_ids P es
      ∷ check_session_history P es
      ∷ [])

  -- The comparisons with the tables; `check_artifact_files` says nothing without a workspace.
  unfoldable pub projection_errors : Db Text → List String
  projection_errors db = joined (
      check_projections P db.run_states db.events
      ∷ check_intents P db.inbox_entries db.intent_states db.events
      ∷ check_worker_projection P db.worker_rows db.events
      ∷ check_claim_projection P db.claim_rows db.events
      ∷ check_receipt_projection P db.receipt_rows db.events
      ∷ check_artifact_projection P db.artifact_rows db.events
      ∷ check_provenance_projection P db.provenance_rows db.events
      ∷ check_environment_projection P db.environment_rows db.events
      ∷ check_session_projection P db.session_rows db.membership_rows db.events
      ∷ [])

  unfoldable pub audit_errors : Db Text → List String
  audit_errors db =
      chain_errors (validate_chain P db) ++ history_errors db.events ++ projection_errors db

  unfoldable pub audit : Db Text → AuditResult
  audit db = record {
    success = is_empty (audit_errors db);
    chain_valid = is_chain_valid (validate_chain P db);
    projections_valid = is_empty (projection_errors db);
    errors = audit_errors db;
  }
