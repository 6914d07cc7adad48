-- ===== src/Dispatch.antt =====
-- leira/dispatcher/dispatcher.py: one intent, run by one worker, once.
pub mod Keeps
pub mod Once
pub mod Outcome
pub mod Track
pub mod Live
use leira.Prelude.{
  ◌+◌, String, Bool, true, false, Option, none, some, List, [], ◌∷◌, ◌++◌, ◌==◌, if◌then◌else◌,
  ◌&&◌,
}
use leira.Value.{
  Value, Fields, bool, str, dict, entries, optional, get, as_dict, as_non_empty, ◌>>=◌,
}
use leira.Platform.{Platform}
use leira.Workers.{WorkerResult, Worker, invoke_worker}
use leira.Errors.{
  ErrorType, unknown_intent, invalid_status, invalid_worker, unknown_worker, storage_failure,
  is_uncaught,
}
use leira.Ledger.{Db, LedgerEvent, AppendResult, appended, refused, append_event}
use leira.Lifecycle.{LifecycleResult, create_run, append_lifecycle_event}
use leira.Inbox.{get_intent_status, update_intent_projection}
use leira.Claims.{
  claimed, claim_refused, ReleaseResult, released, release_refused, claim_intent, release_claim,
}

abbrev pub dispatcher_worker_id : String
dispatcher_worker_id = "kernel"

-- `DispatchResult`; the ids of provenance snapshots, always None here, are left out.
pub record DispatchResult : Type 0 where
  pub success : Bool
  pub intent_id : String
  pub worker_name : Option String
  pub status : Option String
  pub error_type : Option ErrorType
  pub release_error_type : Option ErrorType

-- A failed `DispatchResult`.
abbrev pub not_dispatched : String → Option String → Option String → ErrorType → DispatchResult
not_dispatched intent_id worker_name status x = record {
  success = false;
  intent_id = intent_id;
  worker_name = worker_name;
  status = status;
  error_type = some x;
  release_error_type = none;
}

abbrev pub dispatched : String → String → String → DispatchResult
dispatched intent_id worker_name status = record {
  success = true;
  intent_id = intent_id;
  worker_name = some worker_name;
  status = some status;
  error_type = none;
  release_error_type = none;
}

-- `error_type or "STORAGE_FAILURE"`
abbrev pub or_storage_failure : Option ErrorType → ErrorType
or_storage_failure none = storage_failure
or_storage_failure (some x) = x

-- The id of a created run; a success always has one.
abbrev pub run_id_of : LifecycleResult → String
run_id_of r = elim r.run_id [ none ↦ "None" | some run_id ↦ run_id ]

abbrev pub final_status : Bool → String
final_status true = "COMPLETED"
final_status false = "FAILED"

abbrev pub final_event_type : Bool → String
final_event_type true = "intent_completed"
final_event_type false = "intent_failed"

-- The artifact of `dispatch_once`.
abbrev pub result_artifact : String → String → Fields → WorkerResult → Value
result_artifact intent_id worker_name payload r = dict (
    entries (
      ("type", str "worker_result")
      ∷ (
        "content",
        dict (
            entries (
              ("intent_id", str intent_id)
              ∷ ("worker_name", str worker_name)
              ∷ ("inputs", dict payload)
              ∷ ("outputs", r.outputs)
              ∷ ("worker_success", bool r.success)
              ∷ ("error_type", optional r.error_type)
              ∷ ("error_message", str r.error_message)
              ∷ [])),
      )
      ∷ []))

-- The payload of the event that ends the intent.
abbrev pub final_fields : String → String → WorkerResult → Fields
final_fields intent_id worker_name r = entries (
    ("intent_id", str intent_id)
    ∷ ("status", str (final_status r.success))
    ∷ ("worker_name", str worker_name)
    ∷ ("error_type", optional r.error_type)
    ∷ ("error_message", str r.error_message)
    ∷ [])

abbrev pub claimed_fields : String → String → Fields
claimed_fields intent_id worker_name = entries (
    ("intent_id", str intent_id)
    ∷ ("status", str "RUNNING")
    ∷ ("worker_name", str worker_name)
    ∷ [])

-- The result of `dispatch_and_track` once the claim has been given back, or not.
abbrev pub tracked : DispatchResult → ReleaseResult → DispatchResult
tracked r released = r
tracked r (release_refused x) = record r { release_error_type = some x }

module _ {Text : Type 0} (P : Platform Text) where
  -- `_read_intent_payload`: the first submission that mentions the id.
  unfoldable pub read_intent_payload_from : String → List (LedgerEvent Text) → Option Fields
  read_intent_payload_from intent_id [] = none
  read_intent_payload_from intent_id (e ∷ es) =
      let rest = read_intent_payload_from intent_id es in
      if e.event_type == "intent_submitted" && P.mentions "intent_id" intent_id e.payload_json
      then (P.loads e.payload_json >>= λ v.
          as_dict v >>= λ fs. get "payload" fs >>= λ payload. as_dict payload)
      else rest

  abbrev pub read_intent_payload : String → Db Text → Option Fields
  read_intent_payload intent_id db = read_intent_payload_from intent_id db.events

  unfoldable pub final_done :
      String → String → WorkerResult → AppendResult → Db Text → DispatchResult × Db Text
  final_done intent_id name r (refused x) db =
      (not_dispatched intent_id (some name) (some "RUNNING") x, db)
  final_done intent_id name r (appended event_id event_hash created_at) db = (
    dispatched intent_id name (final_status r.success),
    (update_intent_projection P intent_id
        (record {
          status = final_status r.success;
          worker_name = some name;
          updated_at = created_at;
          last_event_id = event_id;
        })
        db).1,
  )

  -- Step 10 of `dispatch_once`.
  unfoldable pub dispatch_final :
      String → String → WorkerResult → Db Text → DispatchResult × Db Text
  dispatch_final intent_id name r db =
      let (a, db') =
        append_event P (str (final_event_type r.success)) (str dispatcher_worker_id)
          (dict (final_fields intent_id name r)) none none db in
      final_done intent_id name r a db'

  -- Steps 7 to 10; `calls` records the invocation.
  unfoldable pub dispatch_work :
      Bool → String → String → Worker → Fields → String → Db Text → DispatchResult × Db Text
  dispatch_work tracks intent_id name worker payload run_id db =
      let r = invoke_worker worker payload in
      let (written, db') =
        append_lifecycle_event P tracks run_id "artifact_written"
          (some (entries (("artifact", result_artifact intent_id name payload r) ∷ [])))
          (record db { calls = db.calls ++ dict payload ∷ [] }) in
      if written.success then dispatch_final intent_id name r db' else (
        not_dispatched intent_id (some name) (some "RUNNING")
            (or_storage_failure written.error_type),
        db',
      )

  -- Step 6 from the start of the created run on.
  unfoldable pub dispatch_start :
      Bool → String → String → Worker → Fields → String → Db Text → DispatchResult × Db Text
  dispatch_start tracks intent_id name worker payload run_id db =
      let (running, db') = append_lifecycle_event P tracks run_id "state_running" none db in
      if running.success then dispatch_work tracks intent_id name worker payload run_id db' else (
        not_dispatched intent_id (some name) (some "RUNNING")
            (or_storage_failure running.error_type),
        db',
      )

  -- Step 6.
  unfoldable pub dispatch_run :
      Bool → String → String → Worker → Fields → Db Text → DispatchResult × Db Text
  dispatch_run tracks intent_id name worker payload db =
      let (run, db') = create_run P tracks intent_id db in
      if run.success
      then dispatch_start tracks intent_id name worker payload (run_id_of run) db'
      else (
        not_dispatched intent_id (some name) (some "RUNNING") (or_storage_failure run.error_type),
        db',
      )

  unfoldable pub claimed_done :
      Bool → String → String → Worker → Fields → AppendResult → Db Text → DispatchResult × Db Text
  claimed_done tracks intent_id name worker payload (refused x) db =
      (not_dispatched intent_id (some name) none x, db)
  claimed_done tracks intent_id name worker payload (appended event_id event_hash created_at) db =
      dispatch_run tracks intent_id name worker payload
        (update_intent_projection P intent_id
          (record {
            status = "RUNNING";
            worker_name = some name;
            updated_at = created_at;
            last_event_id = event_id;
          })
          db).1

  -- Step 5.
  unfoldable pub dispatch_claim :
      Bool → String → String → Worker → Fields → Db Text → DispatchResult × Db Text
  dispatch_claim tracks intent_id name worker payload db =
      let (a, db') =
        append_event P (str "intent_claimed") (str dispatcher_worker_id)
          (dict (claimed_fields intent_id name)) none none db in
      claimed_done tracks intent_id name worker payload a db'

  unfoldable pub dispatch_once : Bool → String → Worker → Db Text → DispatchResult × Db Text
  dispatch_once tracks intent_id worker db = elim (get_intent_status P intent_id db) [
    | none ↦ (not_dispatched intent_id none none unknown_intent, db)
    | some status ↦
        if status == "PENDING"
        then (elim (read_intent_payload intent_id db) [
          | none ↦ (not_dispatched intent_id none none unknown_intent, db)
          | some payload ↦ elim (as_non_empty worker.name) [
            | none ↦ (not_dispatched intent_id none none invalid_worker, db)
            | some name ↦ dispatch_claim tracks intent_id name worker payload db
          ]
        ])
        else (not_dispatched intent_id none (some status) invalid_status, db)
  ]

  -- `get_worker` is the look-up of the registry that the caller gives.
  unfoldable pub dispatch_by_name :
      Bool → (String → Option Worker) → String → String → Db Text → DispatchResult × Db Text
  dispatch_by_name tracks get_worker intent_id worker_name db = elim (get_worker worker_name) [
    | none ↦ (not_dispatched intent_id none none unknown_worker, db)
    | some worker ↦ dispatch_once tracks intent_id worker db
  ]

  -- Nothing is released after an exception of `dispatch_once`, which `uncaught` stands for.
  unfoldable pub dispatch_and_track :
      Bool → String → Value → Worker → Db Text → DispatchResult × Db Text
  dispatch_and_track tracks intent_id owner_id worker db =
      let (c, db1) = claim_intent P intent_id owner_id db in
      elim c [
        | claim_refused x ↦ (not_dispatched intent_id none none x, db1)
        | claimed claim_id ↦
            (let (r, db2) = dispatch_once tracks intent_id worker db1 in
              let (given_back, db3) = release_claim P intent_id owner_id db2 in
              if is_uncaught r.error_type then (r, db2) else (tracked r given_back, db3))
      ]
