-- ===== src/Audit/Intents.antt =====
-- The checks of leira/audit/auditor.py on intents, inbox_entries and intent_projection.
pub mod History
pub mod Rebuilt
use leira.Prelude.{
  String, Bool, true, false, Option, none, some, List, [], ◌∷◌, ◌++◌, ◌==◌, not, contains,
  if◌then◌else◌,
}
use leira.Value.{Fields, get_str, get_non_empty, ◌>>=◌}
use leira.Platform.{Platform}
use leira.Table.{Table, lookup, upsert}
use leira.Rows.{IntentRow, InboxEntry}
use leira.Ledger.{LedgerEvent}
use leira.Inbox.{intent_ledger_event_types, is_terminal, intent_row_of}
use leira.Audit.{report, report_if, parse_payload, compare_expected, transitions_from}

-- `ALLOWED_INTENT_TRANSITIONS.get(event_type, [])`
unfoldable pub allowed_intent_transitions : String → List String
allowed_intent_transitions event_type =
    if event_type == "intent_submitted"
    then "intent_claimed" ∷ []
    else if event_type == "intent_claimed"
    then "intent_completed" ∷ "intent_failed" ∷ []
    else []

abbrev pub submission_event_types : List String
submission_event_types = "intent_submitted" ∷ "intent_rejected" ∷ []

-- Whether an event of this type may follow the last event of its intent.
abbrev pub is_legal : Option String → String → Bool
is_legal none event_type = contains submission_event_types event_type
is_legal (some previous) event_type = contains (allowed_intent_transitions previous) event_type

-- What `check_intents` says of the status of a submission.
unfoldable pub judge_submission :
    {Text : Type 0} → String → String → Option (InboxEntry Text) → List String
judge_submission intent_id expected none = report "MISSING_INBOX_ROW" intent_id ∷ []
judge_submission intent_id expected (some row) =
    report_if (not (row.status == expected)) "INTENT_STATUS_MISMATCH" intent_id

-- `expected is not None and actual != expected`
unfoldable pub differs : Option String → Option String → Bool
differs none actual = false
differs (some s) none = true
differs (some s) (some t) = not (t == s)

-- What `check_intents` says of an expected row of intent_projection.
unfoldable pub judge_intent : String → IntentRow → Option IntentRow → List String
judge_intent intent_id expected none = report "INTENT_PROJECTION_MISMATCH" intent_id ∷ []
judge_intent intent_id expected (some row) =
    report_if (not (row.status == expected.status)) "INTENT_PROJECTION_MISMATCH" intent_id
    ++ report_if (differs expected.worker_name row.worker_name) "INTENT_PROJECTION_MISMATCH"
        intent_id
    ++ report_if (not (row.last_event_id == expected.last_event_id))
        "INTENT_PROJECTION_LAST_EVENT_ID_MISMATCH" intent_id
    ++ report_if (not (row.updated_at == expected.updated_at))
        "INTENT_PROJECTION_UPDATED_AT_MISMATCH" intent_id

module _ {Text : Type 0} (P : Platform Text) where
  -- The payload of an event of one of these types, with the intent it names.
  unfoldable pub intent_payload : List String → LedgerEvent Text → Option (String × Fields)
  intent_payload event_types e =
      if contains event_types e.event_type
      then (parse_payload P e >>= λ fs.
          get_non_empty "intent_id" fs >>= λ intent_id. some (intent_id, fs))
      else none

  -- What the loop of `compute_expected_submission_status` reads off an event.
  unfoldable pub audited_submission : LedgerEvent Text → Option (String × String)
  audited_submission e = intent_payload submission_event_types e >>= λ r.
      get_str "status" r.1 >>= λ status. some (r.0, status)

  unfoldable pub submissions_from : Table String → List (LedgerEvent Text) → Table String
  submissions_from expected [] = expected
  submissions_from expected (e ∷ es) = elim (audited_submission e) [
    | none ↦ submissions_from expected es
    | some (intent_id, status) ↦ submissions_from (upsert intent_id status expected) es
  ]

  unfoldable pub compute_expected_submission_status : List (LedgerEvent Text) → Table String
  compute_expected_submission_status es = submissions_from [] es

  -- What the loop of `compute_expected_intents` reads off an event.
  unfoldable pub audited_intent : LedgerEvent Text → Option (String × String × Option String)
  audited_intent e = intent_payload intent_ledger_event_types e >>= λ r.
      get_str "status" r.1 >>= λ status. some (r.0, status, get_str "worker_name" r.1)

  unfoldable pub expected_intents_from :
      Table IntentRow → List String → List (LedgerEvent Text) → Table IntentRow
  expected_intents_from expected terminal_intent_ids [] = expected
  expected_intents_from expected terminal_intent_ids (e ∷ es) = elim (audited_intent e) [
    | none ↦ expected_intents_from expected terminal_intent_ids es
    | some (intent_id, status, worker_name) ↦ elim (contains terminal_intent_ids intent_id) [
      | true ↦ expected_intents_from expected terminal_intent_ids es
      | false ↦
          expected_intents_from (upsert intent_id (intent_row_of P status worker_name e) expected)
            (if is_terminal status then intent_id ∷ terminal_intent_ids else terminal_intent_ids) es
    ]
  ]

  unfoldable pub compute_expected_intents : List (LedgerEvent Text) → Table IntentRow
  compute_expected_intents es = expected_intents_from [] [] es

  -- The first loop of `check_intents`.
  unfoldable pub check_submissions : Table (InboxEntry Text) → List (LedgerEvent Text) → List String
  check_submissions inbox es =
      compare_expected judge_submission (compute_expected_submission_status es) inbox

  unfoldable pub check_intents :
      Table (InboxEntry Text) → Table IntentRow → List (LedgerEvent Text) → List String
  check_intents inbox projection es =
      check_submissions inbox es
      ++ compare_expected judge_intent (compute_expected_intents es) projection

  -- The intent of an intent event, if its payload names one.
  unfoldable pub intent_of : LedgerEvent Text → Option String
  intent_of e = intent_payload intent_ledger_event_types e >>= λ r. some r.0

  unfoldable pub check_intent_transitions : List (LedgerEvent Text) → List String
  check_intent_transitions es = transitions_from intent_of is_legal [] es

  unfoldable pub claims_from : List String → List (LedgerEvent Text) → List String
  claims_from seen [] = []
  claims_from seen (e ∷ es) = elim (intent_payload ("intent_claimed" ∷ []) e) [
    | none ↦ claims_from seen es
    | some (intent_id, fs) ↦
        report_if (contains seen intent_id) "DUPLICATE_CLAIM" intent_id
        ++ claims_from (intent_id ∷ seen) es
  ]

  unfoldable pub check_duplicate_claims : List (LedgerEvent Text) → List String
  check_duplicate_claims es = claims_from [] es

  -- The table of claimed names after an intent_claimed: a worker_name that is no text is left out.
  unfoldable pub claimed_by : String → Option String → Table String → Table String
  claimed_by intent_id none claimed = claimed
  claimed_by intent_id (some worker_name) claimed = upsert intent_id worker_name claimed

  unfoldable pub worker_names_from : Table String → List (LedgerEvent Text) → List String
  worker_names_from claimed [] = []
  worker_names_from claimed (e ∷ es) =
      elim (intent_payload ("intent_claimed" ∷ "intent_completed" ∷ "intent_failed" ∷ []) e) [
        | none ↦ worker_names_from claimed es
        | some (intent_id, fs) ↦ elim (e.event_type == "intent_claimed") [
          | true ↦ worker_names_from (claimed_by intent_id (get_str "worker_name" fs) claimed) es
          | false ↦
              report_if (differs (lookup intent_id claimed) (get_str "worker_name" fs))
                "WORKER_NAME_MISMATCH" e.id
              ++ worker_names_from claimed es
        ]
      ]

  unfoldable pub check_worker_name_consistency : List (LedgerEvent Text) → List String
  check_worker_name_consistency es = worker_names_from [] es
