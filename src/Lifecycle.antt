-- ===== src/Lifecycle.antt =====
-- leira/dispatcher/lifecycle.py: the life of a run, recorded in the ledger and read back from it.
pub mod Trace
pub mod History
pub mod Reach
pub mod Sync
pub mod Live
use leira.Prelude.{
  String, Bool, true, false, Option, none, some, List, [], ◌∷◌, ◌+◌, ◌==◌, contains, keep, last,
  if◌then◌else◌,
}
use leira.Value.{Fields, str, dict, end, put, entries}
use leira.Platform.{Platform}
use leira.Errors.{
  ErrorType, invalid_operation_id, invalid_run_id, run_not_found, unsupported_event_type,
  invalid_transition,
}
use leira.Ledger.{Db, LedgerEvent, AppendResult, appended, refused, append_event}
use leira.Projection.{update_from_event}

abbrev pub lifecycle_worker_id : String
lifecycle_worker_id = "kernel"

-- `ALLOWED_TRANSITIONS.get(current_state, [])`
unfoldable pub allowed_transitions : String → List String
allowed_transitions current_state =
    if current_state == "run_created"
    then "state_running" ∷ []
    else if current_state == "state_running"
    then "artifact_written" ∷ []
    else if current_state == "artifact_written"
    then "state_completed" ∷ []
    else []

abbrev pub appendable_run_events : List String
appendable_run_events = "state_running" ∷ "artifact_written" ∷ "state_completed" ∷ []

pub record LifecycleResult : Type 0 where
  pub success : Bool
  pub error_type : Option ErrorType
  pub run_id : Option String
  pub current_state : Option String
  pub operation_id : Option String

-- The result of a refusal, with what the source fills in.
abbrev pub failure : ErrorType → Option String → Option String → Option String → LifecycleResult
failure x run_id current_state operation_id = record {
  success = false;
  error_type = some x;
  run_id = run_id;
  current_state = current_state;
  operation_id = operation_id;
}

abbrev pub at_state : String → Option String → String → LifecycleResult
at_state run_id operation_id state = record {
  success = true;
  error_type = none;
  run_id = some run_id;
  current_state = some state;
  operation_id = operation_id;
}

-- `dict(extra_payload or {})`
abbrev pub extra_fields : Option Fields → Fields
extra_fields none = end
extra_fields (some fs) = fs

module _ {Text : Type 0} (P : Platform Text) where
  -- The rows that a query `payload_json LIKE '%"run_id":"…"%'` finds.
  unfoldable pub run_events : String → List (LedgerEvent Text) → List (LedgerEvent Text)
  run_events run_id es = keep (λ e. P.mentions "run_id" run_id e.payload_json) es

  unfoldable pub get_run_state : String → Db Text → LifecycleResult
  get_run_state run_id db =
      if run_id == ""
      then failure invalid_run_id none none none
      else elim (last (run_events run_id db.events)) [
        | none ↦ failure run_not_found (some run_id) none none
        | some e ↦ at_state run_id none e.event_type
      ]

  -- `_update_projection`; `tracks` says whether the kernel was given a projection.
  unfoldable pub update_projection : Bool → String → String → String → String → Db Text → Db Text
  update_projection tracks run_id event_type event_id created_at db =
      if tracks
      then (update_from_event P run_id
          (record { current_state = event_type; last_event_id = event_id; updated_at = created_at })
          db).1
      else db

  unfoldable pub create_run_done :
      Bool → String → String → AppendResult → Db Text → LifecycleResult × Db Text
  create_run_done tracks operation_id run_id (refused x) db =
      (failure x none none (some operation_id), db)
  create_run_done tracks operation_id run_id (appended event_id event_hash created_at) db = (
    at_state run_id (some operation_id) "run_created",
    update_projection tracks run_id "run_created" event_id created_at db,
  )

  unfoldable pub create_run : Bool → String → Db Text → LifecycleResult × Db Text
  unfolding create_run_done
  create_run tracks operation_id db =
      if operation_id == ""
      then (failure invalid_operation_id none none none, db)
      else (let run_id = P.uuid4 db.tick in
          let (r, db') =
            append_event P (str "run_created") (str lifecycle_worker_id)
              (dict (entries (("run_id", str run_id) ∷ ("operation_id", str operation_id) ∷ [])))
              none (some operation_id) (record db { tick = db.tick + 1 }) in
          create_run_done tracks operation_id run_id r db')

  unfoldable pub append_done :
      Bool → String → String → String → AppendResult → Db Text → LifecycleResult × Db Text
  append_done tracks run_id event_type current_state (refused x) db =
      (failure x (some run_id) (some current_state) none, db)
  append_done tracks run_id event_type current_state (appended event_id event_hash created_at) db =
      (
        at_state run_id none event_type,
        update_projection tracks run_id event_type event_id created_at db,
      )

  -- `append_lifecycle_event` from the test of the transition on.
  unfoldable pub append_from :
      Bool → String → String → Option Fields → String → Db Text → LifecycleResult × Db Text
  append_from tracks run_id event_type extra_payload current_state db =
      if contains (allowed_transitions current_state) event_type
      then (let (r, db') =
            append_event P (str event_type) (str lifecycle_worker_id)
              (dict (put "run_id" (str run_id) (extra_fields extra_payload))) none none db in
          append_done tracks run_id event_type current_state r db')
      else (failure invalid_transition (some run_id) (some current_state) none, db)

  unfoldable pub append_lifecycle_event :
      Bool → String → String → Option Fields → Db Text → LifecycleResult × Db Text
  unfolding append_from append_done
  append_lifecycle_event tracks run_id event_type extra_payload db =
      if contains appendable_run_events event_type
      then (let state_result = get_run_state run_id db in
          elim state_result.current_state [
            | none ↦ (state_result, db)
            | some current_state ↦
                append_from tracks run_id event_type extra_payload current_state db
          ])
      else (failure unsupported_event_type (some run_id) none none, db)
