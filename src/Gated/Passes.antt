-- ===== src/Gated/Passes.antt =====
-- The run of a dispatch whose captures are made, and the captures of its environment.
use leira.Prelude.{
  ◌≡◌, refl, ◌∙◌, String, Bool, false, Option, none, some, [], ◌∷◌, ◌++◌, inl, inr, Bool-cases,
  Option-cases,
}
use leira.Value.{Fields, dict, str, entries}
use leira.Platform.{Platform}
use leira.Ledger.{Db}
use leira.Ledger.Append.{wrote, kept, append_event-Appends}
use leira.Lifecycle.{create_run, append_lifecycle_event}
use leira.Workers.{Worker, WorkerResult, invoke_worker}
use leira.Dispatch.{final_event_type, final_fields, run_id_of, dispatcher_worker_id}
use leira.Dispatch.Keeps.{
  update_intent_projection-Keeps, append_lifecycle_event-Keeps, create_run-Keeps,
}
use leira.Provenance.{Surroundings}
use leira.Provenance.Capture.{capture_environment}
use leira.Provenance.Kept.{capture_environment_calls}
use leira.Gated.{
  GatedResult, gated_artifact, capture_failed_fields, fail_done, fail_intent, gated_done,
  gated_final, gated_work, gated_start, gated_run, gated_environment,
}

-- How a dispatch that may call its worker with this payload ended, once both captures are made:
-- without the call and without success, or with it, and then with the ids of the snapshots.
pub data Passes {Text : Type 0} (payload : Fields) (start : Db Text)
    (provenance environment : String) (r : GatedResult × Db Text) : Type 0 where
  stopped :
      r.0.success ≡ false → r.1.calls ≡ start.calls → Passes payload start provenance environment r
  passed :
      r.0.provenance_snapshot_id ≡ some provenance
      → r.0.environment_snapshot_id ≡ some environment
      → r.1.calls ≡ start.calls ++ dict payload ∷ []
      → Passes payload start provenance environment r

module _ {Text : Type 0} (P : Platform Text) (intent_id name : String) where
  gated_final-Passes :
      (payload : Fields) (r : WorkerResult) (p e : String) (start db : Db Text)
      → db.calls ≡ start.calls ++ dict payload ∷ []
      → Passes payload start p e (gated_final P intent_id name r p e db)
  unfolding gated_final gated_done
  gated_final-Passes payload r p e start db called =
      elim (append_event-Appends P (str (final_event_type r.success)) (str dispatcher_worker_id)
        (dict (final_fields intent_id name r)) none none db) [
          | kept x n later ends ↦ rw (ends, gated_final) (passed refl refl called)
          | wrote t w json et ew ej free ends ↦
              rw (ends, gated_final)
                (passed refl refl
                  ((update_intent_projection-Keeps P intent_id intent_id _ _).0 ∙ called))
        ]

  gated_work-Passes :
      (tracks : Bool) (worker : Worker) (payload : Fields) (p e run_id : String)
      (start db : Db Text)
      → db.calls ≡ start.calls
      → Passes payload start p e (gated_work P tracks intent_id name worker payload p e run_id db)
  unfolding gated_work
  gated_work-Passes tracks worker payload p e run_id start db idle =
      let called : Db Text = record db { calls = db.calls ++ dict payload ∷ [] } in
      let extra = some (
        entries (
          ("artifact", gated_artifact intent_id name payload (invoke_worker worker payload) p e)
          ∷ [])) in
      let step = append_lifecycle_event P tracks run_id "artifact_written" extra called in
      let counted : step.1.calls ≡ start.calls ++ dict payload ∷ [] =
        (append_lifecycle_event-Keeps P intent_id tracks run_id "artifact_written" extra called).0
        ∙ rw (idle) refl in
      elim (Bool-cases step.0.success) [
        | inl ok ↦ rw (ok, gated_work) (gated_final-Passes payload _ p e start step.1 counted)
        | inr bad ↦ rw (bad, gated_work) (passed refl refl counted)
      ]

  gated_start-Passes :
      (tracks : Bool) (worker : Worker) (payload : Fields) (p e run_id : String)
      (start db : Db Text)
      → db.calls ≡ start.calls
      → Passes payload start p e (gated_start P tracks intent_id name worker payload p e run_id db)
  unfolding gated_start
  gated_start-Passes tracks worker payload p e run_id start db idle =
      let step = append_lifecycle_event P tracks run_id "state_running" none db in
      let still : step.1.calls ≡ start.calls =
        (append_lifecycle_event-Keeps P intent_id tracks run_id "state_running" none db).0 ∙ idle in
      elim (Bool-cases step.0.success) [
        | inl ok ↦
            rw (ok, gated_start)
              (gated_work-Passes tracks worker payload p e run_id start step.1 still)
        | inr bad ↦ rw (bad, gated_start) (stopped refl still)
      ]

  gated_run-Passes :
      (tracks : Bool) (worker : Worker) (payload : Fields) (p e : String) (start db : Db Text)
      → db.calls ≡ start.calls
      → Passes payload start p e (gated_run P tracks intent_id name worker payload p e db)
  unfolding gated_run
  gated_run-Passes tracks worker payload p e start db idle =
      let step = create_run P tracks intent_id db in
      let still : step.1.calls ≡ start.calls =
        (create_run-Keeps P intent_id tracks intent_id db).0 ∙ idle in
      elim (Bool-cases step.0.success) [
        | inl ok ↦
            rw (ok, gated_run)
              (gated_start-Passes tracks worker payload p e (run_id_of step.0) start step.1 still)
        | inr bad ↦ rw (bad, gated_run) (stopped refl still)
      ]

  pub fail_intent-stopped :
      (error message : String) (p e : Option String) (start db : Db Text)
      → db.calls ≡ start.calls
      → (let r = fail_intent P intent_id name error message p e db in
          (r.0.success ≡ false) × (r.1.calls ≡ start.calls))
  unfolding fail_intent fail_done
  fail_intent-stopped error message p e start db idle =
      elim (append_event-Appends P (str "intent_failed") (str dispatcher_worker_id)
        (dict (capture_failed_fields intent_id name error message)) none none db) [
          | kept x n later ends ↦ rw (ends, fail_intent) (refl, idle)
          | wrote t w json et ew ej free ends ↦
              rw (ends, fail_intent)
                (refl, (update_intent_projection-Keeps P intent_id intent_id _ _).0 ∙ idle)
        ]

-- How it ended once its provenance is captured: the snapshots are the ones that the captures answer.
pub data Captures {Text : Type 0} (P : Platform Text) (S : Surroundings Text) (intent_id : String)
    (payload : Fields) (start : Db Text) (provenance : String) (db : Db Text)
    (r : GatedResult × Db Text) : Type 0 where
  barred :
      r.0.success ≡ false
      → r.1.calls ≡ start.calls
      → Captures P S intent_id payload start provenance db r
  surveyed :
      (capture_environment P S intent_id db).0.error_type ≡ none
      → Passes payload start provenance (capture_environment P S intent_id db).0.snapshot_id r
      → Captures P S intent_id payload start provenance db r

module _ {Text : Type 0} (P : Platform Text) (S : Surroundings Text)
    (repo_path intent_id name : String) where
  pub gated_environment-Captures :
      (tracks : Bool) (worker : Worker) (payload : Fields) (p : String) (start db : Db Text)
      → db.calls ≡ start.calls
      → Captures P S intent_id payload start p db
          (gated_environment P S repo_path tracks intent_id name worker payload p db)
  unfolding gated_environment
  gated_environment-Captures tracks worker payload p start db idle =
      let step = capture_environment P S intent_id db in
      let still : step.1.calls ≡ start.calls = capture_environment_calls P S intent_id db ∙ idle in
      elim (Option-cases step.0.error_type) [
        | inl none_left ↦
            rw (none_left, gated_environment)
              (surveyed none_left (
                gated_run-Passes P intent_id name tracks worker payload p step.0.snapshot_id start
                  step.1 still))
        | inr (error, failed) ↦
            let (off, quiet) =
              fail_intent-stopped P intent_id name error step.0.stderr (some p)
                (some step.0.snapshot_id) start step.1 still in
            rw (failed, gated_environment) (barred off quiet)
      ]
