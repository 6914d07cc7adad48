-- ===== src/Tests/AuditRuns.antt =====
-- The theorems on the audit, at small ledgers.
use leira.Prelude.{◌≡◌, refl, String, true, false, some, [], ◌↔◌, ◌==◌, last, keep}
use leira.Value.{Value}
use leira.Table.{lookup}
use leira.Ledger.{LedgerEvent}
use leira.Projection.{row_of}
use leira.Projection.Rebuild.{owns}
use leira.Lifecycle.Trace.{IsHistory}
use leira.Audit.Whole.{audit}
use leira.Audit.Whole.Sound.{audit-IsHistory}
use leira.Audit.Runs.History.{run_trace}
use leira.Audit.Intents.History.{IsIntentHistory, intent_trace}
use leira.Audit.Runs.{check_lifecycle_transitions, check_projections}
use leira.Audit.Runs.History.{check_lifecycle_transitions-IsHistory}
use leira.Audit.Intents.{check_intent_transitions}
use leira.Audit.Intents.History.{check_intent_transitions-IsIntentHistory}
use leira.Audit.Workers.{check_worker_projection}
use leira.Audit.Workers.Rebuilt.{check_worker_projection-rebuild_worker_projection}
use leira.Registry.{rebuild_worker_projection}
use leira.Tests.InboxRuns.{submitted_db}
use leira.Tests.RegistryRuns.{registered_db}
use leira.Tests.Toy.{uuid}
use leira.Tests.LedgerRuns.{calm}
use leira.Tests.LifecycleRuns.{created_run, done_run}

-- The audit finds nothing wrong with a ledger with one run.
audit_works : (audit calm created_run).success ≡ true
unfolding audit leira.Audit.Whole.audit_errors leira.Audit.Whole.chain_errors
    leira.Ledger.validate_chain leira.Dispatch.dispatch_once leira.Inbox.get_intent_status
    leira.Inbox.status_of leira.Inbox.intent_events leira.Inbox.submit_intent
    leira.Ledger.append_event leira.Inbox.validate_intent leira.Ledger.canonicalize_payload
    leira.Value.normalize_value leira.Inbox.stored_payload leira.Inbox.is_non_serializable
    leira.Ledger.insert_event leira.Ledger.has_id leira.Inbox.store_intent lookup
    leira.Inbox.is_intent_event leira.Ledger.new_event leira.Tests.Toy.shows leira.Value.put uuid
    leira.Inbox.intent_status_by_event_type leira.Dispatch.read_intent_payload_from leira.Value.get
    leira.Dispatch.dispatch_claim leira.Dispatch.claimed_done leira.Dispatch.dispatch_run
    leira.Lifecycle.create_run leira.Inbox.update_intent_projection leira.Dispatch.dispatch_start
    leira.Lifecycle.append_lifecycle_event leira.Lifecycle.get_run_state leira.Lifecycle.run_events
    leira.Lifecycle.update_projection leira.Projection.update_from_event
    leira.Lifecycle.allowed_transitions leira.Dispatch.dispatch_work leira.Workers.invoke_worker
    leira.Dispatch.dispatch_final leira.Dispatch.final_done leira.Ledger.head_hash
    leira.Ledger.compute_event_hash leira.Tests.Toy.digest leira.Ledger.hash_input
    leira.Audit.Whole.history_errors leira.Prelude.joined leira.Audit.Events.check_required_fields
    leira.Prelude.each leira.Audit.Events.required_fields_of
    leira.Audit.Events.check_duplicate_event_ids leira.Audit.Events.duplicate_ids_from
    leira.Audit.Events.check_monotonic_ordering leira.Audit.Events.ordering_from
    leira.Audit.Events.check_run_id_presence leira.Audit.Events.run_id_presence_of
    leira.Audit.event_run_id leira.Audit.parse_payload leira.Value.get_non_empty
    leira.Audit.Runs.check_lifecycle_transitions leira.Audit.transitions_from
    leira.Audit.Runs.run_of leira.Table.upsert leira.Audit.Events.check_artifact_schema
    leira.Audit.Events.is_artifact_payload leira.Audit.Events.known_run_ids leira.Value.get_str
    leira.Audit.Intents.check_intent_transitions leira.Audit.Intents.intent_of
    leira.Audit.Intents.intent_payload leira.Audit.Intents.allowed_intent_transitions
    leira.Audit.Intents.check_duplicate_claims leira.Audit.Intents.claims_from
    leira.Audit.Intents.check_worker_name_consistency leira.Audit.Intents.worker_names_from
    leira.Audit.Intents.differs leira.Audit.Intents.claimed_by
    leira.Audit.Workers.check_duplicate_worker_registrations leira.Audit.Workers.registrations_from
    leira.Audit.Workers.audited_name leira.Audit.Claims.check_claim_history
    leira.Audit.Claims.claim_histories leira.Audit.Claims.group_claim_events_by_intent
    leira.Audit.Claims.audited_claim leira.Audit.Snapshots.Schema.check_provenance_schema
    leira.Audit.Snapshots.Schema.check_unique_provenance_snapshot_ids
    leira.Audit.Events.duplicates_from leira.Receipts.gather
    leira.Audit.Snapshots.Schema.parse_provenance_content leira.Audit.Snapshots.Schema.parse_content
    leira.Audit.Snapshots.Schema.check_environment_schema
    leira.Audit.Snapshots.Schema.parse_environment_content
    leira.Audit.Snapshots.Schema.check_unique_environment_snapshot_ids
    leira.Audit.Sessions.check_session_history leira.Audit.Sessions.session_history_from
    leira.Audit.Whole.projection_errors leira.Audit.Runs.check_projections
    leira.Audit.compare_expected leira.Prelude.sorted leira.Audit.Runs.compute_expected_projection
    leira.Audit.Runs.expected_runs_from leira.Prelude.insert_by leira.Audit.Runs.judge_run
    leira.Audit.Intents.check_intents leira.Audit.Intents.check_submissions
    leira.Audit.Intents.compute_expected_submission_status leira.Audit.Intents.submissions_from
    leira.Audit.Intents.audited_submission leira.Audit.Intents.compute_expected_intents
    leira.Audit.Intents.expected_intents_from leira.Audit.Intents.audited_intent
    leira.Audit.Workers.check_worker_projection
    leira.Audit.Workers.compute_expected_worker_projection leira.Audit.Workers.expected_workers_from
    leira.Audit.unexpected_entries leira.Audit.Claims.check_claim_projection
    leira.Audit.Claims.compute_expected_claim_projection leira.Audit.Claims.expected_claims
    leira.Audit.Receipts.check_receipt_projection
    leira.Audit.Snapshots.Tables.check_artifact_projection
    leira.Audit.Snapshots.Tables.compute_expected_artifact_projection
    leira.Audit.Snapshots.Tables.expected_from leira.Audit.Snapshots.Tables.expected_artifact
    leira.Audit.Snapshots.Tables.check_provenance_projection
    leira.Audit.Snapshots.Tables.compute_expected_provenance_projection
    leira.Audit.Snapshots.Tables.expected_provenance
    leira.Audit.Snapshots.Tables.check_environment_projection leira.Audit.Claims.claim_round
    leira.Audit.Claims.claim_rounds leira.Audit.Claims.established leira.Audit.Claims.judge_claim
    leira.Audit.Events.is_artifact_file_payload leira.Audit.Intents.judge_intent
    leira.Audit.Intents.judge_submission leira.Audit.Receipts.direct_from
    leira.Audit.Receipts.direct_intent leira.Audit.Receipts.expected_receipt
    leira.Audit.Receipts.judge_receipt leira.Audit.Receipts.receipt_groups
    leira.Audit.Receipts.receipt_intent leira.Audit.Receipts.run_operation
    leira.Audit.Receipts.runs_from leira.Audit.Sessions.check_session_projection
    leira.Audit.Sessions.compute_expected_session_projection leira.Audit.Sessions.expect_member
    leira.Audit.Sessions.expect_session leira.Audit.Sessions.expected_sessions_from
    leira.Audit.Sessions.find_member leira.Audit.Sessions.judge_member
    leira.Audit.Sessions.judge_session leira.Audit.Sessions.known_intents
    leira.Audit.Sessions.membership_reports leira.Audit.Sessions.session_payload_ids
    leira.Audit.Sessions.unexpected_members leira.Audit.Snapshots.Schema.environment_schema_of
    leira.Audit.Snapshots.Schema.package_pair leira.Audit.Snapshots.Schema.package_pairs
    leira.Audit.Snapshots.Schema.packages_schema_of
    leira.Audit.Snapshots.Schema.provenance_schema_of
    leira.Audit.Snapshots.Tables.compute_expected_environment_projection
    leira.Audit.Snapshots.Tables.expected_environment leira.Audit.Snapshots.check_error_type
    leira.Audit.Snapshots.environment_packages leira.Audit.Snapshots.get_flag
    leira.Audit.Snapshots.get_text leira.Audit.Snapshots.is_given
    leira.Audit.Snapshots.is_provenance leira.Audit.Snapshots.judge_environment
    leira.Audit.Snapshots.judge_provenance leira.Audit.Snapshots.says
    leira.Audit.Workers.judge_worker leira.Claims.claim_of leira.Claims.replay_claim_events
    leira.Claims.replay_from leira.Claims.replay_step leira.Errors.error_name
    leira.Inbox.submit_done leira.Ledger.check_from leira.Lifecycle.append_done
    leira.Lifecycle.append_from leira.Lifecycle.create_run_done leira.Prelude.sort_by
    leira.Receipts.shape_of leira.Sessions.artifact_content leira.Tests.Toy.flat leira.Value.prints
audit_works = refl

audit-IsHistory_example :
    ((audit calm created_run).chain_valid ≡ true)
    × ((audit calm created_run).projections_valid ≡ true)
    × ((run_id : String) → IsHistory (run_trace calm run_id created_run.events))
    × ((intent_id : String) → IsIntentHistory (intent_trace calm intent_id created_run.events))
    × ((run_id : String) (e : LedgerEvent Value)
        → (run_id == "") ≡ false
        → last (keep (owns calm run_id) created_run.events) ≡ some e
        → lookup run_id created_run.run_states ≡ some (row_of e))
audit-IsHistory_example = audit-IsHistory calm created_run audit_works

check_lifecycle_transitions-IsHistory_example :
    (check_lifecycle_transitions calm done_run.events ≡ []
      ↔ ((run_id : String) → IsHistory (run_trace calm run_id done_run.events)))
check_lifecycle_transitions-IsHistory_example =
    check_lifecycle_transitions-IsHistory calm done_run.events

check_intent_transitions-IsIntentHistory_example :
    (check_intent_transitions calm submitted_db.events ≡ []
      ↔ ((intent_id : String) → IsIntentHistory (intent_trace calm intent_id submitted_db.events)))
check_intent_transitions-IsIntentHistory_example =
    check_intent_transitions-IsIntentHistory calm submitted_db.events

check_worker_projection-rebuild_worker_projection_example :
    check_worker_projection calm
      (rebuild_worker_projection calm registered_db).worker_rows
      (rebuild_worker_projection calm registered_db).events
    ≡ []
check_worker_projection-rebuild_worker_projection_example =
    check_worker_projection-rebuild_worker_projection calm registered_db refl
