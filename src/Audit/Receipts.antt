-- ===== src/Audit/Receipts.antt =====
-- The check of leira/audit/auditor.py on receipt_projection.
use leira.Prelude.{
  String, Option, none, some, List, [], ◌∷◌, ◌++◌, ◌==◌, not, each, sorted, if◌then◌else◌,
}
use leira.Value.{get, get_non_empty, as_dict, ◌>>=◌}
use leira.Platform.{Platform}
use leira.Table.{Table, lookup, upsert}
use leira.Rows.{ReceiptRow}
use leira.Ledger.{LedgerEvent}
use leira.Sessions.{artifact_content}
use leira.Receipts.{shape_of}
use leira.Audit.{report, report_if, parse_payload, event_run_id, keys_of}
use leira.Audit.Snapshots.{same_size}

-- What is said of a row of the table, beside the one expected for its intent.
unfoldable pub judge_receipt : String → Option ReceiptRow → ReceiptRow → List String
judge_receipt intent_id none row = report "RECEIPT_PROJECTION_UNEXPECTED_ENTRY" intent_id ∷ []
judge_receipt intent_id (some expected) row =
    report_if (not (row.first_event_id == expected.first_event_id))
      "RECEIPT_FIRST_EVENT_ID_MISMATCH" intent_id
    ++ report_if (not (row.last_event_id == expected.last_event_id))
        "RECEIPT_LAST_EVENT_ID_MISMATCH" intent_id
    ++ report_if (not (same_size row.event_count expected.event_count))
        "RECEIPT_EVENT_COUNT_MISMATCH" intent_id
    ++ report_if (not (row.updated_at == expected.updated_at)) "RECEIPT_UPDATED_AT_MISMATCH"
        intent_id

abbrev pub or_else : Option String → Option String → Option String
or_else none o = o
or_else (some s) o = some s

module _ {Text : Type 0} (P : Platform Text) where
  -- The intent that an event names itself: in the payload, in its content or in its artifact's.
  unfoldable pub direct_intent : LedgerEvent Text → Option String
  direct_intent e = parse_payload P e >>= λ payload. or_else (get_non_empty "intent_id" payload) (
      or_else (get "content" payload >>= as_dict >>= get_non_empty "intent_id")
        (artifact_content payload >>= get_non_empty "intent_id"))

  unfoldable pub direct_from : Table String → List (LedgerEvent Text) → Table String
  direct_from direct [] = direct
  direct_from direct (e ∷ es) = elim (direct_intent e) [
    | none ↦ direct_from direct es
    | some intent_id ↦ direct_from (upsert e.id intent_id direct) es
  ]

  -- The run of a run_created with an operation, with that operation.
  unfoldable pub run_operation : LedgerEvent Text → Option (String × String)
  run_operation e =
      if e.event_type == "run_created"
      then (e.operation_id >>= λ operation_id.
          if operation_id == ""
          then none
          else (event_run_id P e >>= λ run_id. some (run_id, operation_id)))
      else none

  unfoldable pub runs_from : Table String → List (LedgerEvent Text) → Table String
  runs_from runs [] = runs
  runs_from runs (e ∷ es) = elim (run_operation e) [
    | none ↦ runs_from runs es
    | some (run_id, intent_id) ↦ runs_from (upsert run_id intent_id runs) es
  ]

  -- The intent that an event belongs to.
  unfoldable pub receipt_intent : Table String → Table String → LedgerEvent Text → Option String
  receipt_intent direct runs e =
      or_else (lookup e.id direct) (event_run_id P e >>= λ run_id. lookup run_id runs)

  abbrev pub receipts_under : String → Table (List (LedgerEvent Text)) → List (LedgerEvent Text)
  receipts_under intent_id groups = elim (lookup intent_id groups) [ none ↦ [] | some es ↦ es ]

  unfoldable pub receipt_groups :
      Table String
      → Table String
      → Table (List (LedgerEvent Text))
      → List (LedgerEvent Text)
      → Table (List (LedgerEvent Text))
  receipt_groups direct runs groups [] = groups
  receipt_groups direct runs groups (e ∷ es) = elim (receipt_intent direct runs e) [
    | none ↦ receipt_groups direct runs groups es
    | some intent_id ↦
        receipt_groups direct runs
          (upsert intent_id (receipts_under intent_id groups ++ e ∷ []) groups) es
  ]

  -- `compute_expected_receipt_projection`: the shape of the group of an intent.
  unfoldable pub expected_receipt : List (LedgerEvent Text) → String → Option ReceiptRow
  expected_receipt es intent_id =
      shape_of
        (receipts_under intent_id (receipt_groups (direct_from [] es) (runs_from [] es) [] es))

  unfoldable pub check_receipt_projection : Table ReceiptRow → List (LedgerEvent Text) → List String
  check_receipt_projection actual es =
      each
        (λ k. elim (lookup k actual) [
          | none ↦ []
          | some row ↦ judge_receipt k (expected_receipt es k) row
        ])
        (sorted (keys_of actual))
