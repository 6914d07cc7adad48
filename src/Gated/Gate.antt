-- ===== src/Gated/Gate.antt =====
-- The gate in front of the worker: what a dispatch that captures provenance first makes sure of.
use leira.Prelude.{
  ap, ◌≡◌, refl, ◌∙◌, arith, String, Bool, false, none, some, [], ◌∷◌, ◌++◌, ◌==◌, inl, inr,
  Bool-cases, Option-cases, eq_iff,
}
use leira.Value.{Fields, dict, str, as_non_empty}
use leira.Platform.{Platform}
use leira.Ledger.{Db, LedgerEvent, new_event}
use leira.Ledger.Append.{wrote, kept, append_event-Appends}
use leira.Inbox.{get_intent_status, update_intent_projection}
use leira.Workers.{Worker}
use leira.Dispatch.{claimed_fields, dispatcher_worker_id, read_intent_payload}
use leira.Dispatch.Keeps.{update_intent_projection-Keeps}
use leira.Provenance.{Surroundings}
use leira.Provenance.Capture.{capture_provenance, capture_environment}
use leira.Provenance.Kept.{capture_provenance_calls}
use leira.Gated.{
  GatedResult, gated_provenance, gated_claimed, gated_claim, dispatch_with_provenance,
}
use leira.Rows.{IntentRow}
use leira.Gated.Passes.{
  stopped, passed, Captures, barred, surveyed, fail_intent-stopped, gated_environment-Captures,
}

-- How a dispatch with this payload ended: without the call and without success, or past the two
-- captures, which are made after the row intent_claimed.
data Gate {Text : Type 0} (P : Platform Text) (S : Surroundings Text) (repo_path intent_id : String)
    (payload : Fields) (start : Db Text) (r : GatedResult × Db Text) : Type 0 where
  shut :
      r.0.success ≡ false → r.1.calls ≡ start.calls → Gate P S repo_path intent_id payload start r
  cleared :
      (e : LedgerEvent Text) (at : Db Text)
      → e.event_type ≡ "intent_claimed"
      → at.events ≡ start.events ++ e ∷ []
      → (S.inspect_repo repo_path).error_type ≡ none
      → (capture_provenance P S intent_id repo_path at).0.error_type ≡ none
      → Captures P S intent_id payload start
          (capture_provenance P S intent_id repo_path at).0.snapshot_id
          (capture_provenance P S intent_id repo_path at).1
          r
      → Gate P S repo_path intent_id payload start r

module _ {Text : Type 0} (P : Platform Text) (S : Surroundings Text)
    (repo_path intent_id name : String) where
  gated_provenance-Gate :
      (tracks : Bool) (worker : Worker) (payload : Fields) (start db : Db Text)
      (e : LedgerEvent Text)
      → e.event_type ≡ "intent_claimed"
      → db.events ≡ start.events ++ e ∷ []
      → db.calls ≡ start.calls
      → Gate P S repo_path intent_id payload start
          (gated_provenance P S repo_path tracks intent_id name worker payload db)
  unfolding gated_provenance
  gated_provenance-Gate tracks worker payload start db e typed grown idle =
      let step = capture_provenance P S intent_id repo_path db in
      let (calls, healthy) = capture_provenance_calls P S intent_id repo_path db in
      let still : step.1.calls ≡ start.calls = calls ∙ idle in
      elim (Option-cases step.0.error_type) [
        | inl none_left ↦
            rw (none_left, gated_provenance)
              (cleared e db typed grown (healthy none_left) none_left (
                gated_environment-Captures P S repo_path intent_id name tracks worker payload
                  step.0.snapshot_id start step.1 still))
        | inr (error, failed) ↦
            let (off, quiet) =
              fail_intent-stopped P intent_id name error step.0.stderr (some step.0.snapshot_id)
                none start step.1 still in
            rw (failed, gated_provenance) (shut off quiet)
      ]

  events-update_intent_projection :
      (row : IntentRow) (db : Db Text)
      → (update_intent_projection P intent_id row db).1.events ≡ db.events
  unfolding update_intent_projection
  events-update_intent_projection row db = ground arith

  gated_claim-Gate :
      (tracks : Bool) (worker : Worker) (payload : Fields) (db : Db Text)
      → Gate P S repo_path intent_id payload db
          (gated_claim P S repo_path tracks intent_id name worker payload db)
  unfolding gated_claim gated_claimed
  gated_claim-Gate tracks worker payload db =
      elim (append_event-Appends P (str "intent_claimed") (str dispatcher_worker_id)
        (dict (claimed_fields intent_id name)) none none db) [
          | kept x n later ends ↦ rw (ends, gated_claim) (shut refl refl)
          | wrote t w json et ew ej free ends ↦
              let e = new_event P t w json none none db in
              let typed : e.event_type ≡ "intent_claimed" = unfold new_event in ground arith in
              rw (ends, gated_claim)
                (gated_provenance-Gate tracks worker payload db _ e typed
                  (events-update_intent_projection _ _)
                  (update_intent_projection-Keeps P intent_id intent_id _ _).0)
        ]

-- How such a dispatch ended: without the call and without success, or with the call, and then with
-- both captures made between the row intent_claimed and the call.
pub data Outcome {Text : Type 0} (P : Platform Text) (S : Surroundings Text)
    (repo_path intent_id : String) (db : Db Text) (r : GatedResult × Db Text) : Type 0 where
  refrained : r.0.success ≡ false → r.1.calls ≡ db.calls → Outcome P S repo_path intent_id db r
  invoked :
      (payload : Fields) (e : LedgerEvent Text) (at : Db Text)
      → get_intent_status P intent_id db ≡ some "PENDING"
      → read_intent_payload P intent_id db ≡ some payload
      → e.event_type ≡ "intent_claimed"
      → at.events ≡ db.events ++ e ∷ []
      → (S.inspect_repo repo_path).error_type ≡ none
      → (let (s, surveyed_db) = capture_provenance P S intent_id repo_path at in
          let v = (capture_environment P S intent_id surveyed_db).0 in
          (s.error_type ≡ none)
          × (v.error_type ≡ none)
          × (r.0.provenance_snapshot_id ≡ some s.snapshot_id)
          × (r.0.environment_snapshot_id ≡ some v.snapshot_id))
      → r.1.calls ≡ db.calls ++ dict payload ∷ []
      → Outcome P S repo_path intent_id db r

module _ {Text : Type 0} (P : Platform Text) (S : Surroundings Text)
    (repo_path intent_id : String) where
  run_to_outcome :
      (payload : Fields) (db : Db Text) (r : GatedResult × Db Text)
      → get_intent_status P intent_id db ≡ some "PENDING"
      → read_intent_payload P intent_id db ≡ some payload
      → Gate P S repo_path intent_id payload db r
      → Outcome P S repo_path intent_id db r
  run_to_outcome payload db r pending read (shut off quiet) = refrained off quiet
  run_to_outcome payload db r pending read
        (cleared e at typed grown healthy clean (barred off quiet)) =
      refrained off quiet
  run_to_outcome payload db r pending read
        (cleared e at typed grown healthy clean (surveyed whole (stopped off quiet))) =
      refrained off quiet
  run_to_outcome payload db r pending read
        (cleared e at typed grown healthy clean (surveyed whole (passed ep ee called))) =
      invoked payload e at pending read typed grown healthy (clean, whole, ep, ee) called

  -- A dispatch that captures provenance first invokes its worker at most once. It either fails
  -- without the invocation, or it invokes the worker, and then the intent was pending, the payload is
  -- the one that `_read_intent_payload` finds for it, git reported no error, and after the row
  -- intent_claimed `capture_provenance` and then `capture_environment` answered without an error the
  -- two snapshots whose ids the result holds, in this order.
  pub dispatch_with_provenance-Outcome :
      (tracks : Bool) (worker : Worker) (db : Db Text)
      → Outcome P S repo_path intent_id db
          (dispatch_with_provenance P S repo_path tracks intent_id worker db)
  unfolding dispatch_with_provenance
  dispatch_with_provenance-Outcome tracks worker db =
      elim (Option-cases (get_intent_status P intent_id db)) [
        | inl unknown ↦ rw (unknown, dispatch_with_provenance) (refrained refl refl)
        | inr (status, known) ↦ elim (Bool-cases (status == "PENDING")) [
          | inr differs ↦
              rw (known, dispatch_with_provenance)
                (rw (differs, dispatch_with_provenance) (refrained refl refl))
          | inl same ↦
              let pending : get_intent_status P intent_id db ≡ some "PENDING" =
                known ∙ ap some ((eq_iff status "PENDING").0 same) in
              elim (Option-cases (read_intent_payload P intent_id db)) [
                | inl lost ↦
                    rw (pending, dispatch_with_provenance)
                      (rw (lost, dispatch_with_provenance) (refrained refl refl))
                | inr (payload, read) ↦ elim (Option-cases (as_non_empty worker.name)) [
                  | inl nameless ↦
                      rw (pending, dispatch_with_provenance)
                        (rw (read, dispatch_with_provenance)
                          (rw (nameless, dispatch_with_provenance) (refrained refl refl)))
                  | inr (name, named) ↦
                      rw (pending, dispatch_with_provenance)
                        (rw (read, dispatch_with_provenance)
                          (rw (named, dispatch_with_provenance)
                            (run_to_outcome payload db _ pending read (
                              gated_claim-Gate P S repo_path intent_id name tracks worker payload
                                db))))
                ]
              ]
        ]
      ]
