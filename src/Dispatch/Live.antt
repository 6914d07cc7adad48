-- ===== src/Dispatch/Live.antt =====
-- A dispatch that is sure to succeed.
use leira.Prelude.{
  ◌+◌, ◌≡◌, refl, ◌∙◌, sym, ap, subst, String, Bool, true, false, Option, none, some, [], ◌∷◌, ◌++◌,
  arith, ◌==◌, inl, inr, Bool-cases,
}
use leira.Value.{ℤ, Fields, str, dict, put, entries, optional, as_non_empty}
use leira.Value.Safe.{is_printable}
use leira.Value.Normal.{value_under}
use leira.Platform.{Platform, IsStandard}
use leira.Table.{upsert}
use leira.Rows.{IntentRow}
use leira.Ledger.{Db}
use leira.Ledger.Fresh.{Fresh, NeverFails, Fresh-later, append_event-Fresh}
use leira.Ledger.Payload.{value_under-known}
use leira.Lifecycle.{
  LifecycleResult, allowed_transitions, get_run_state, create_run, append_lifecycle_event,
}
use leira.Lifecycle.Live.{create_run-success, append_lifecycle_event-success}
use leira.Lifecycle.Reach.{get_run_state-append_lifecycle_event, get_run_state-create_run}
use leira.Inbox.{get_intent_status, update_intent_projection}
use leira.Workers.{Worker, WorkerResult, invoke_worker}
use leira.Dispatch.{
  DispatchResult, dispatcher_worker_id, final_status, final_event_type, final_fields,
  claimed_fields, result_artifact, run_id_of, read_intent_payload, final_done, dispatch_final,
  dispatch_work, dispatch_start, dispatch_run, claimed_done, dispatch_claim, dispatch_once,
}

optional_safe : (p : ℤ → Bool) (o : Option String) → is_printable p (optional o) ≡ true
unfolding is_printable
optional_safe p none = refl
optional_safe p (some s) = refl

final_named : (b : Bool) → as_non_empty (str (final_event_type b)) ≡ some (final_event_type b)
final_named true = refl
final_named false = refl

-- What the dispatcher writes of a result can be stored if the inputs and the outputs can.
result_safe :
    (p : ℤ → Bool) (intent_id name run_id : String) (payload : Fields) (r : WorkerResult)
    → is_printable p (dict payload) ≡ true
    → is_printable p r.outputs ≡ true
    → is_printable p (
        dict (
          put "run_id"
            (str run_id)
            (entries (("artifact", result_artifact intent_id name payload r) ∷ []))))
      ≡ true
unfolding is_printable put
result_safe p intent_id name run_id payload r inputs outputs =
    rw (inputs, outputs, optional_safe p r.error_type) refl

final_safe :
    (p : ℤ → Bool) (intent_id name : String) (r : WorkerResult)
    → is_printable p (dict (final_fields intent_id name r)) ≡ true
unfolding is_printable
final_safe p intent_id name r = rw (optional_safe p r.error_type) refl

-- A result that reports the worker's answer.
abbrev Reports : WorkerResult → DispatchResult → Type 0
Reports r d = (d.success ≡ true) × (d.status ≡ some (final_status r.success))

module _ {Text : Type 0} (P : Platform Text) where
  update_intent_projection-Fresh :
      (intent_id : String) (row : IntentRow) (db : Db Text)
      → Fresh P db
      → Fresh P (update_intent_projection P intent_id row db).1
  unfolding update_intent_projection
  update_intent_projection-Fresh intent_id row db fresh = elim (Bool-cases (P.fails db.tick)) [
    | inl bad ↦
        rw (bad, update_intent_projection)
          (Fresh-later P db (record db { tick = db.tick + 1 }) fresh refl (omega arith))
    | inr fine ↦
        rw (fine, update_intent_projection)
          (Fresh-later P db
            (record db {
              intent_states = upsert intent_id row db.intent_states;
              tick = db.tick + 1;
            })
            fresh refl (omega arith))
  ]

  get_run_state_same :
      (run_id : String) (db later : Db Text)
      → later.events ≡ db.events
      → get_run_state P run_id later ≡ get_run_state P run_id db
  unfolding get_run_state
  get_run_state_same run_id db later same = rw (same, get_run_state) refl

  module _ (is_plain : String → Bool) (std : IsStandard P is_plain) (works : NeverFails P)
      (tracks : Bool) (intent_id name : String) (worker : Worker) (payload : Fields)
      (inputs : is_printable P.prints_int (dict payload) ≡ true)
      (outputs : is_printable P.prints_int (invoke_worker worker payload).outputs ≡ true) where
    dispatch_final-Reports :
        (r : WorkerResult) (db : Db Text)
        → Fresh P db
        → Reports r (dispatch_final P intent_id name r db).0
    unfolding dispatch_final final_done
    dispatch_final-Reports r db fresh =
        let (json, good, (made, later)) =
          append_event-Fresh P works (final_event_type r.success) dispatcher_worker_id
            (final_fields intent_id name r) none none db (final_named r.success) refl
            (final_safe P.prints_int intent_id name r) fresh in
        rw (made, dispatch_final) (refl, refl)

    dispatch_work-Reports :
        (run_id : String) (db : Db Text)
        → (get_run_state P run_id db).current_state ≡ some "state_running"
        → Fresh P db
        → Reports
            (invoke_worker worker payload)
            (dispatch_work P tracks intent_id name worker payload run_id db).0
    unfolding dispatch_work allowed_transitions
    dispatch_work-Reports run_id db at fresh =
        let r = invoke_worker worker payload in
        let called : Db Text = record db { calls = db.calls ++ dict payload ∷ [] } in
        let extra = some (entries (("artifact", result_artifact intent_id name payload r) ∷ [])) in
        let (ok, after) =
          append_lifecycle_event-success P is_plain std works tracks run_id "artifact_written"
            "state_running" extra called refl refl
            (ap (λ (x : LifecycleResult). x.current_state)
                (get_run_state_same run_id db called refl)
              ∙ at)
            refl (result_safe P.prints_int intent_id name run_id payload r inputs outputs)
            (Fresh-later P db called fresh refl (omega arith)) in
        rw (ok, dispatch_work)
          (dispatch_final-Reports r
            (append_lifecycle_event P tracks run_id "artifact_written" extra called).1 after)

    dispatch_start-Reports :
        (run_id : String) (db : Db Text)
        → is_plain run_id ≡ true
        → (get_run_state P run_id db).current_state ≡ some "run_created"
        → Fresh P db
        → Reports
            (invoke_worker worker payload)
            (dispatch_start P tracks intent_id name worker payload run_id db).0
    unfolding dispatch_start allowed_transitions is_printable put value_under
    dispatch_start-Reports run_id db plain at fresh =
        let (ok, after) =
          append_lifecycle_event-success P is_plain std works tracks run_id "state_running"
            "run_created" none db refl refl at refl refl fresh in
        let started =
          get_run_state-append_lifecycle_event P is_plain std tracks run_id "state_running" none db
            plain
            (value_under-known P is_plain std "run_id" (entries (("run_id", str run_id) ∷ [])) refl)
            ok in
        rw (ok, dispatch_start)
          (dispatch_work-Reports run_id
            (append_lifecycle_event P tracks run_id "state_running" none db).1
            (ap (λ (x : LifecycleResult). x.current_state) started) after)

    dispatch_run-Reports :
        (db : Db Text)
        → (intent_id == "") ≡ false
        → Fresh P db
        → Reports
            (invoke_worker worker payload)
            (dispatch_run P tracks intent_id name worker payload db).0
    unfolding dispatch_run
    dispatch_run-Reports db named fresh =
        let (ok, after) = create_run-success P is_plain std works tracks intent_id db named fresh in
        let (drawn, state) = get_run_state-create_run P is_plain std tracks intent_id db ok in
        let step = create_run P tracks intent_id db in
        let its : run_id_of step.0 ≡ P.uuid4 db.tick = rw (drawn, run_id_of) refl in
        rw (ok, dispatch_run)
          (subst
            (λ i.
              Reports (invoke_worker worker payload)
                (dispatch_start P tracks intent_id name worker payload i step.1).0)
            (sym its)
            (dispatch_start-Reports (P.uuid4 db.tick) step.1 (std.uuid4_plain db.tick)
              (ap (λ (x : LifecycleResult). x.current_state) state) after))

    dispatch_claim-Reports :
        (db : Db Text)
        → (intent_id == "") ≡ false
        → Fresh P db
        → Reports
            (invoke_worker worker payload)
            (dispatch_claim P tracks intent_id name worker payload db).0
    unfolding dispatch_claim claimed_done is_printable
    dispatch_claim-Reports db named fresh =
        let (json, good, (made, later)) =
          append_event-Fresh P works "intent_claimed" dispatcher_worker_id
            (claimed_fields intent_id name) none none db refl refl refl fresh in
        rw (made, dispatch_claim)
          (dispatch_run-Reports _ named (update_intent_projection-Fresh intent_id _ _ later))

    -- A PENDING intent with a readable payload is brought to its end: where no write fails and no id
    -- still to be drawn is one of the ledger's or drawn again, `dispatch_once` with a worker that has a
    -- name reports success and the status that the worker's result stands for, also if the worker fails or raises.
    -- The intent's id is not empty, and the payload and the worker's outputs are values that JSON can
    -- say, with integers that the interpreter prints. The platform is assumed to behave as documented.
    pub dispatch_once_reports :
        (db : Db Text)
        → (intent_id == "") ≡ false
        → Fresh P db
        → get_intent_status P intent_id db ≡ some "PENDING"
        → read_intent_payload P intent_id db ≡ some payload
        → as_non_empty worker.name ≡ some name
        → (let r = dispatch_once P tracks intent_id worker db in
            (r.0.success ≡ true)
            × (r.0.status ≡ some (final_status (invoke_worker worker payload).success)))
    unfolding dispatch_once
    dispatch_once_reports db named fresh pending readable has_name =
        rw (pending, dispatch_once)
          (rw (readable, dispatch_once)
            (rw (has_name, dispatch_once) (dispatch_claim-Reports db named fresh)))
