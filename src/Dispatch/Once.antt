-- ===== src/Dispatch/Once.antt =====
-- How a dispatch ends: what it does to the status of its intent, and how often it calls the worker.
use leira.Prelude.{
  ap, ◌+◌, ◌≡◌, refl, ◌∙◌, String, Bool, true, false, none, some, [], ◌∷◌, ◌++◌, arith, contains,
  inl, inr, Bool-cases,
}
use leira.Value.{Fields, dict, str, entries, as_non_empty}
use leira.Value.Normal.{value_under}
use leira.Platform.{Platform, IsStandard}
use leira.Ledger.{Db, LedgerEvent, canonicalize_payload, new_event}
use leira.Ledger.Append.{wrote, kept, append_event-Appends}
use leira.Ledger.Payload.{has_known_keys, mentions-stored, value_under-known}
use leira.Lifecycle.{create_run, append_lifecycle_event}
use leira.Inbox.{
  get_intent_status, intent_ledger_event_types, intent_status_by_event_type, has_ended, is_terminal,
}
use leira.Workers.{Worker, invoke_worker}
use leira.Dispatch.{
  DispatchResult, final_status, final_event_type, final_fields, claimed_fields, result_artifact,
  run_id_of, dispatcher_worker_id, final_done, dispatch_final, dispatch_work, dispatch_start,
  dispatch_run, claimed_done, dispatch_claim,
}
use leira.Dispatch.Keeps.{
  update_intent_projection-Keeps, status_moved, same_status, append_lifecycle_event-Keeps,
  create_run-Keeps,
}

final_known : (b : Bool) → contains intent_ledger_event_types (final_event_type b) ≡ true
final_known true = refl
final_known false = refl

final_means : (b : Bool) → intent_status_by_event_type (final_event_type b) ≡ some (final_status b)
unfolding intent_status_by_event_type
final_means true = refl
final_means false = refl

pub final_ended : (b : Bool) → is_terminal (final_status b) ≡ true
final_ended true = refl
final_ended false = refl

final_filled :
    (b : Bool) (t : String)
    → as_non_empty (str (final_event_type b)) ≡ some t
    → t ≡ final_event_type b
final_filled true t h = cc
final_filled false t h = cc

-- How a dispatch whose worker may be called with this payload ended.
pub data Ends {Text : Type 0} (P : Platform Text) (intent_id : String) (worker : Worker)
    (payload : Fields) (db : Db Text) (r : DispatchResult × Db Text) : Type 0 where
  uninvoked : r.0.success ≡ false → r.1.calls ≡ db.calls → Ends P intent_id worker payload db r
  unrecorded :
      r.0.success ≡ false
      → r.1.calls ≡ db.calls ++ dict payload ∷ []
      → Ends P intent_id worker payload db r
  finished :
      r.0.status ≡ some (final_status (invoke_worker worker payload).success)
      → r.1.calls ≡ db.calls ++ dict payload ∷ []
      → get_intent_status P intent_id r.1
        ≡ some (final_status (invoke_worker worker payload).success)
      → Ends P intent_id worker payload db r

module _ {Text : Type 0} (P : Platform Text) (is_plain : String → Bool)
    (std : IsStandard P is_plain) (intent_id : String) (plain : is_plain intent_id ≡ true) where
  -- An event of the dispatcher moves the status of an intent that has not ended.
  dispatch_event :
      (t : String) (fs : Fields) (e : LedgerEvent Text) (db later : Db Text)
      → has_known_keys fs ≡ true
      → value_under (λ x. x) "intent_id" fs ≡ some (str intent_id)
      → e.event_type ≡ t
      → canonicalize_payload P (dict fs) ≡ some e.payload_json
      → contains intent_ledger_event_types t ≡ true
      → later.events ≡ db.events ++ e ∷ []
      → has_ended (get_intent_status P intent_id db) ≡ false
      → get_intent_status P intent_id later ≡ intent_status_by_event_type t
  dispatch_event t fs e db later keys given typed stored known grown open_yet =
      let named =
        mentions-stored P is_plain std fs e.payload_json stored "intent_id" intent_id refl
          (value_under-known P is_plain std "intent_id" fs keys ∙ given) plain in
      status_moved P intent_id db later e grown (rw (typed) known) named open_yet
      ∙ ap intent_status_by_event_type typed

  -- Step 10.
  dispatch_final-Ends :
      (name : String) (worker : Worker) (payload : Fields) (start db : Db Text)
      → db.calls ≡ start.calls ++ dict payload ∷ []
      → has_ended (get_intent_status P intent_id db) ≡ false
      → Ends P intent_id worker payload start
          (dispatch_final P intent_id name (invoke_worker worker payload) db)
  unfolding dispatch_final final_done value_under
  dispatch_final-Ends name worker payload start db called open_yet =
      let r = invoke_worker worker payload in
      elim (append_event-Appends P (str (final_event_type r.success)) (str dispatcher_worker_id)
        (dict (final_fields intent_id name r)) none none db) [
          | kept x n later ends ↦ rw (ends, dispatch_final) (unrecorded refl called)
          | wrote t w json et ew ej free ends ↦
              let e = new_event P t w json none none db in
              let later : Db Text = record db {
                events = db.events ++ e ∷ [];
                tick = db.tick + 3;
              } in
              let typed : e.event_type ≡ final_event_type r.success =
                unfold new_event in final_filled r.success t et in
              let body : e.payload_json ≡ json = unfold new_event in refl in
              let (calls, status) = update_intent_projection-Keeps P intent_id intent_id _ later in
              let moved =
                dispatch_event (final_event_type r.success) (final_fields intent_id name r) e db
                  later refl refl typed (rw (body) ej) (final_known r.success) refl open_yet in
              rw (ends, dispatch_final)
                (finished refl (calls ∙ called) (status ∙ moved ∙ final_means r.success))
        ]

  -- Steps 7 to 10.
  dispatch_work-Ends :
      (tracks : Bool) (name : String) (worker : Worker) (payload : Fields) (run_id : String)
      (start db : Db Text)
      → db.calls ≡ start.calls
      → has_ended (get_intent_status P intent_id db) ≡ false
      → Ends P intent_id worker payload start
          (dispatch_work P tracks intent_id name worker payload run_id db)
  unfolding dispatch_work
  dispatch_work-Ends tracks name worker payload run_id start db idle open_yet =
      let called : Db Text = record db { calls = db.calls ++ dict payload ∷ [] } in
      let extra = some (
        entries (
          ("artifact", result_artifact intent_id name payload (invoke_worker worker payload))
          ∷ [])) in
      let step = append_lifecycle_event P tracks run_id "artifact_written" extra called in
      let (calls, status) =
        append_lifecycle_event-Keeps P intent_id tracks run_id "artifact_written" extra called in
      let counted : step.1.calls ≡ start.calls ++ dict payload ∷ [] = calls ∙ rw (idle) refl in
      let still : get_intent_status P intent_id called ≡ get_intent_status P intent_id db =
        same_status P intent_id db called refl in
      elim (Bool-cases step.0.success) [
        | inl ok ↦
            rw (ok, dispatch_work)
              (dispatch_final-Ends name worker payload start step.1 counted
                (rw (status, still) open_yet))
        | inr bad ↦ rw (bad, dispatch_work) (unrecorded refl counted)
      ]

  -- Step 6 and what follows.
  dispatch_start-Ends :
      (tracks : Bool) (name : String) (worker : Worker) (payload : Fields) (run_id : String)
      (start db : Db Text)
      → db.calls ≡ start.calls
      → has_ended (get_intent_status P intent_id db) ≡ false
      → Ends P intent_id worker payload start
          (dispatch_start P tracks intent_id name worker payload run_id db)
  unfolding dispatch_start
  dispatch_start-Ends tracks name worker payload run_id start db idle open_yet =
      let step = append_lifecycle_event P tracks run_id "state_running" none db in
      let (calls, status) =
        append_lifecycle_event-Keeps P intent_id tracks run_id "state_running" none db in
      elim (Bool-cases step.0.success) [
        | inl ok ↦
            rw (ok, dispatch_start)
              (dispatch_work-Ends tracks name worker payload run_id start step.1 (calls ∙ idle)
                (rw (status) open_yet))
        | inr bad ↦ rw (bad, dispatch_start) (uninvoked refl (calls ∙ idle))
      ]

  dispatch_run-Ends :
      (tracks : Bool) (name : String) (worker : Worker) (payload : Fields) (start db : Db Text)
      → db.calls ≡ start.calls
      → has_ended (get_intent_status P intent_id db) ≡ false
      → Ends P intent_id worker payload start
          (dispatch_run P tracks intent_id name worker payload db)
  unfolding dispatch_run
  dispatch_run-Ends tracks name worker payload start db idle open_yet =
      let step = create_run P tracks intent_id db in
      let (calls, status) = create_run-Keeps P intent_id tracks intent_id db in
      elim (Bool-cases step.0.success) [
        | inl ok ↦
            rw (ok, dispatch_run)
              (dispatch_start-Ends tracks name worker payload (run_id_of step.0) start step.1
                (calls ∙ idle) (rw (status) open_yet))
        | inr bad ↦ rw (bad, dispatch_run) (uninvoked refl (calls ∙ idle))
      ]

  -- Step 5 and what follows, for a pending intent.
  pub dispatch_claim-Ends :
      (tracks : Bool) (name : String) (worker : Worker) (payload : Fields) (db : Db Text)
      → get_intent_status P intent_id db ≡ some "PENDING"
      → Ends P intent_id worker payload db
          (dispatch_claim P tracks intent_id name worker payload db)
  unfolding dispatch_claim claimed_done value_under
  dispatch_claim-Ends tracks name worker payload db pending =
      elim (append_event-Appends P (str "intent_claimed") (str dispatcher_worker_id)
        (dict (claimed_fields intent_id name)) none none db) [
          | kept x n later ends ↦ rw (ends, dispatch_claim) (uninvoked refl refl)
          | wrote t w json et ew ej free ends ↦
              let e = new_event P t w json none none db in
              let later : Db Text = record db {
                events = db.events ++ e ∷ [];
                tick = db.tick + 3;
              } in
              let typed : e.event_type ≡ "intent_claimed" = unfold new_event in ground arith in
              let body : e.payload_json ≡ json = unfold new_event in refl in
              let (calls, status) = update_intent_projection-Keeps P intent_id intent_id _ later in
              let moved =
                dispatch_event "intent_claimed" (claimed_fields intent_id name) e db later refl refl
                  typed (rw (body) ej) refl refl (rw (pending) refl) in
              rw (ends, dispatch_claim)
                (dispatch_run-Ends tracks name worker payload db _ calls
                  (rw (status, moved) (unfold intent_status_by_event_type in refl)))
        ]
