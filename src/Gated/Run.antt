-- ===== src/Gated/Run.antt =====
-- The results of a dispatch that captures provenance, its failures, and its run once the captures are
-- made: leira/dispatcher/dispatcher.py.
use leira.Prelude.{String, Bool, true, false, Option, none, some, [], ◌∷◌, ◌++◌, if◌then◌else◌}
use leira.Value.{Value, Fields, bool, str, dict, entries, optional}
use leira.Platform.{Platform}
use leira.Errors.{ErrorType, error_name}
use leira.Ledger.{Db, AppendResult, appended, refused, append_event}
use leira.Lifecycle.{create_run, append_lifecycle_event}
use leira.Inbox.{update_intent_projection}
use leira.Workers.{WorkerResult, Worker, invoke_worker}
use leira.Dispatch.{
  dispatcher_worker_id, final_status, final_event_type, final_fields, or_storage_failure, run_id_of,
}

-- `DispatchResult` with the ids of the snapshots; its errors are names, since git has its own.
pub record GatedResult : Type 0 where
  pub success : Bool
  pub intent_id : String
  pub worker_name : Option String
  pub status : Option String
  pub error_type : Option String
  pub release_error_type : Option String
  pub provenance_snapshot_id : Option String
  pub environment_snapshot_id : Option String

-- A failed `DispatchResult`.
abbrev pub not_gated :
    String → Option String → Option String → String → Option String → Option String → GatedResult
not_gated intent_id worker_name status error provenance environment = record {
  success = false;
  intent_id = intent_id;
  worker_name = worker_name;
  status = status;
  error_type = some error;
  release_error_type = none;
  provenance_snapshot_id = provenance;
  environment_snapshot_id = environment;
}

-- The failure while an intent runs, once both snapshots are there.
abbrev pub gate_failed : String → String → ErrorType → String → String → GatedResult
gate_failed intent_id name x provenance environment =
    not_gated intent_id (some name) (some "RUNNING") (error_name x) (some provenance)
      (some environment)

-- The artifact of `dispatch_with_provenance`.
abbrev pub gated_artifact : String → String → Fields → WorkerResult → String → String → Value
gated_artifact intent_id worker_name payload r provenance environment = dict (
    entries (
      ("type", str "worker_result")
      ∷ (
        "content",
        dict (
            entries (
              ("intent_id", str intent_id)
              ∷ ("worker_name", str worker_name)
              ∷ ("inputs", dict payload)
              ∷ ("outputs", r.outputs)
              ∷ ("worker_success", bool r.success)
              ∷ ("error_type", optional r.error_type)
              ∷ ("error_message", str r.error_message)
              ∷ ("provenance_snapshot_id", str provenance)
              ∷ ("environment_snapshot_id", str environment)
              ∷ [])),
      )
      ∷ []))

-- The payload of intent_failed after a failed capture.
abbrev pub capture_failed_fields : String → String → String → String → Fields
capture_failed_fields intent_id worker_name error message = entries (
    ("intent_id", str intent_id)
    ∷ ("status", str "FAILED")
    ∷ ("worker_name", str worker_name)
    ∷ ("error_type", str error)
    ∷ ("error_message", str message)
    ∷ [])

module _ {Text : Type 0} (P : Platform Text) where
  unfoldable pub fail_done :
      String
      → String
      → String
      → Option String
      → Option String
      → AppendResult
      → Db Text
      → GatedResult × Db Text
  fail_done intent_id name error provenance environment (refused x) db =
      (not_gated intent_id (some name) (some "RUNNING") (error_name x) provenance environment, db)
  fail_done intent_id name error provenance environment (appended event_id event_hash created_at)
        db =
      (
        not_gated intent_id (some name) (some "FAILED") error provenance environment,
        (update_intent_projection P intent_id
            (record {
              status = "FAILED";
              worker_name = some name;
              updated_at = created_at;
              last_event_id = event_id;
            })
            db).1,
      )

  -- `_fail_intent_after_provenance_failure`, with the ids that its caller adds.
  unfoldable pub fail_intent :
      String
      → String
      → String
      → String
      → Option String
      → Option String
      → Db Text
      → GatedResult × Db Text
  fail_intent intent_id name error message provenance environment db =
      let (a, db') =
        append_event P (str "intent_failed") (str dispatcher_worker_id)
          (dict (capture_failed_fields intent_id name error message)) none none db in
      fail_done intent_id name error provenance environment a db'

  unfoldable pub gated_done :
      String
      → String
      → WorkerResult
      → String
      → String
      → AppendResult
      → Db Text
      → GatedResult × Db Text
  gated_done intent_id name r provenance environment (refused x) db =
      (gate_failed intent_id name x provenance environment, db)
  gated_done intent_id name r provenance environment (appended event_id event_hash created_at) db =
      (
        record {
          success = true;
          intent_id = intent_id;
          worker_name = some name;
          status = some (final_status r.success);
          error_type = none;
          release_error_type = none;
          provenance_snapshot_id = some provenance;
          environment_snapshot_id = some environment;
        },
        (update_intent_projection P intent_id
            (record {
              status = final_status r.success;
              worker_name = some name;
              updated_at = created_at;
              last_event_id = event_id;
            })
            db).1,
      )

  -- The event that ends the intent.
  unfoldable pub gated_final :
      String → String → WorkerResult → String → String → Db Text → GatedResult × Db Text
  gated_final intent_id name r provenance environment db =
      let (a, db') =
        append_event P (str (final_event_type r.success)) (str dispatcher_worker_id)
          (dict (final_fields intent_id name r)) none none db in
      gated_done intent_id name r provenance environment a db'

  -- From the invocation on; `calls` records it.
  unfoldable pub gated_work :
      Bool
      → String
      → String
      → Worker
      → Fields
      → String
      → String
      → String
      → Db Text
      → GatedResult × Db Text
  gated_work tracks intent_id name worker payload provenance environment run_id db =
      let r = invoke_worker worker payload in
      let (written, db') =
        append_lifecycle_event P tracks run_id "artifact_written"
          (some (
            entries
              (("artifact", gated_artifact intent_id name payload r provenance environment) ∷ [])))
          (record db { calls = db.calls ++ dict payload ∷ [] }) in
      if written.success then gated_final intent_id name r provenance environment db' else (
        gate_failed intent_id name (or_storage_failure written.error_type) provenance environment,
        db',
      )

  unfoldable pub gated_start :
      Bool
      → String
      → String
      → Worker
      → Fields
      → String
      → String
      → String
      → Db Text
      → GatedResult × Db Text
  gated_start tracks intent_id name worker payload provenance environment run_id db =
      let (running, db') = append_lifecycle_event P tracks run_id "state_running" none db in
      if running.success
      then gated_work tracks intent_id name worker payload provenance environment run_id db'
      else (
        gate_failed intent_id name (or_storage_failure running.error_type) provenance environment,
        db',
      )

  unfoldable pub gated_run :
      Bool → String → String → Worker → Fields → String → String → Db Text → GatedResult × Db Text
  gated_run tracks intent_id name worker payload provenance environment db =
      let (run, db') = create_run P tracks intent_id db in
      if run.success
      then gated_start tracks intent_id name worker payload provenance environment (run_id_of run)
          db'
      else (
        gate_failed intent_id name (or_storage_failure run.error_type) provenance environment,
        db',
      )
