-- ===== src/Audit/Runs.antt =====
-- The checks of leira/audit/auditor.py on runs and operation_state_projection.
pub mod History
pub mod Rebuilt
use leira.Prelude.{
  String, Bool, Option, none, some, List, [], ◌∷◌, ◌++◌, ◌==◌, not, contains, if◌then◌else◌,
}
use leira.Platform.{Platform}
use leira.Table.{Table, upsert}
use leira.Rows.{RunRow}
use leira.Ledger.{LedgerEvent}
use leira.Projection.{run_lifecycle_event_types, row_of}
use leira.Lifecycle.{allowed_transitions}
use leira.Audit.{report, report_if, event_run_id, compare_expected, transitions_from}

-- Whether an event of this type may follow the last state of its run.
abbrev pub is_legal : Option String → String → Bool
is_legal none event_type = event_type == "run_created"
is_legal (some previous_state) event_type = contains (allowed_transitions previous_state) event_type

-- What `check_projections` says of an expected row.
unfoldable pub judge_run : String → RunRow → Option RunRow → List String
judge_run run_id expected none = report "PROJECTION_MISMATCH" run_id ∷ []
judge_run run_id expected (some actual) =
    report_if (not (actual.current_state == expected.current_state)) "PROJECTION_MISMATCH" run_id
    ++ report_if (not (actual.last_event_id == expected.last_event_id))
        "PROJECTION_LAST_EVENT_ID_MISMATCH" run_id
    ++ report_if (not (actual.updated_at == expected.updated_at)) "PROJECTION_UPDATED_AT_MISMATCH"
        run_id

module _ {Text : Type 0} (P : Platform Text) where
  -- The run of a lifecycle event, if its payload names one.
  unfoldable pub run_of : LedgerEvent Text → Option String
  run_of e = if contains run_lifecycle_event_types e.event_type then event_run_id P e else none

  unfoldable pub check_lifecycle_transitions : List (LedgerEvent Text) → List String
  check_lifecycle_transitions es = transitions_from run_of is_legal [] es

  unfoldable pub expected_runs_from : Table RunRow → List (LedgerEvent Text) → Table RunRow
  expected_runs_from expected [] = expected
  expected_runs_from expected (e ∷ es) = elim (run_of e) [
    | none ↦ expected_runs_from expected es
    | some run_id ↦ expected_runs_from (upsert run_id (row_of e) expected) es
  ]

  -- `compute_expected_projection`
  unfoldable pub compute_expected_projection : List (LedgerEvent Text) → Table RunRow
  compute_expected_projection es = expected_runs_from [] es

  unfoldable pub check_projections : Table RunRow → List (LedgerEvent Text) → List String
  check_projections actual es = compare_expected judge_run (compute_expected_projection es) actual
