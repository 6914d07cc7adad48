-- ===== src/Audit/Workers.antt =====
-- The checks of leira/audit/auditor.py on worker registrations and worker_projection.
pub mod Rebuilt
use leira.Prelude.{
  String, true, false, Option, none, some, List, [], ◌∷◌, ◌++◌, ◌==◌, not, is_some, contains,
  if◌then◌else◌,
}
use leira.Value.{get_non_empty, ◌>>=◌}
use leira.Platform.{Platform}
use leira.Table.{Table, lookup, upsert}
use leira.Rows.{WorkerRow}
use leira.Ledger.{LedgerEvent}
use leira.Audit.{report, report_if, parse_payload, compare_expected, unexpected_entries}

-- What `check_worker_projection` says of an expected row.
unfoldable pub judge_worker : String → WorkerRow → Option WorkerRow → List String
judge_worker worker_name expected none = report "WORKER_PROJECTION_MISMATCH" worker_name ∷ []
judge_worker worker_name expected (some row) =
    report_if (not (row.registered_at == expected.registered_at))
      "WORKER_PROJECTION_UPDATED_AT_MISMATCH" worker_name
    ++ report_if (not (row.last_event_id == expected.last_event_id))
        "WORKER_PROJECTION_LAST_EVENT_ID_MISMATCH" worker_name

module _ {Text : Type 0} (P : Platform Text) where
  -- The name that an event registers.
  unfoldable pub audited_name : LedgerEvent Text → Option String
  audited_name e =
      if e.event_type == "worker_registered"
      then (parse_payload P e >>= λ fs. get_non_empty "worker_name" fs)
      else none

  unfoldable pub expected_workers_from : Table WorkerRow → List (LedgerEvent Text) → Table WorkerRow
  expected_workers_from expected [] = expected
  expected_workers_from expected (e ∷ es) = elim (audited_name e) [
    | none ↦ expected_workers_from expected es
    | some worker_name ↦ elim (is_some (lookup worker_name expected)) [
      | true ↦ expected_workers_from expected es
      | false ↦
          expected_workers_from
            (upsert worker_name (record { registered_at = e.created_at; last_event_id = e.id })
              expected)
            es
    ]
  ]

  unfoldable pub compute_expected_worker_projection : List (LedgerEvent Text) → Table WorkerRow
  compute_expected_worker_projection es = expected_workers_from [] es

  unfoldable pub registrations_from : List String → List (LedgerEvent Text) → List String
  registrations_from seen [] = []
  registrations_from seen (e ∷ es) = elim (audited_name e) [
    | none ↦ registrations_from seen es
    | some worker_name ↦
        report_if (contains seen worker_name) "DUPLICATE_WORKER_REGISTRATION" worker_name
        ++ registrations_from (worker_name ∷ seen) es
  ]

  unfoldable pub check_duplicate_worker_registrations : List (LedgerEvent Text) → List String
  check_duplicate_worker_registrations es = registrations_from [] es

  unfoldable pub check_worker_projection : Table WorkerRow → List (LedgerEvent Text) → List String
  check_worker_projection actual es =
      compare_expected judge_worker (compute_expected_worker_projection es) actual
      ++ unexpected_entries "WORKER_PROJECTION_UNEXPECTED_ENTRY"
          (compute_expected_worker_projection es) actual
