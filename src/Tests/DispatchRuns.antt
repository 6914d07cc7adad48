-- ===== src/Tests/DispatchRuns.antt =====
-- The theorems on dispatches, at one intent and the reference workers.
use leira.Prelude.{
  arith, ◌||◌, ◌==◌, false, ◌≡◌, refl, ◌∙◌, String, true, false, some, [], ◌∷◌, ◌++◌, ◌⊎◌,
}
use leira.Value.{Value, str, dict, entries, Fields}
use leira.Errors.{invalid_status}
use leira.Ledger.{has_id, Db, init}
use leira.Inbox.{get_intent_status}
use leira.Workers.{invoke_worker, echo_worker, exploding_worker}
use leira.Dispatch.{final_status, read_intent_payload, dispatch_once}
use leira.Dispatch.Outcome.{dispatch_once_calls, dispatch_once_success, dispatch_once_once}
use leira.Value.Safe.{is_printable}
use leira.Ledger.Fresh.{Fresh}
use leira.Dispatch.Live.{dispatch_once_reports}
use leira.Tests.Toy.{is_plain, toy-IsStandard, uuid, uuid_apart}
use leira.Tests.LedgerRuns.{never, calm}
use leira.Claims.{get_claim}
use leira.Dispatch.{dispatch_and_track}
use leira.Dispatch.Track.{dispatch_and_track_held}
use leira.Tests.InboxRuns.{pending, held_db, bobs, held, submitted_db, noise}

abbrev empty : Db Value
empty = init Value

-- The intent "u", run by the worker that raises.
abbrev exploded_db : Db Value
exploded_db = (dispatch_once calm true (uuid 0) exploding_worker submitted_db).1

plain_id : is_plain (uuid 0) ≡ true
unfolding uuid
plain_id = refl

dispatch_once_calls_example :
    (exploded_db.calls ≡ submitted_db.calls)
    ⊎ ((payload : Fields) × (read_intent_payload calm (uuid 0) submitted_db ≡ some payload)
        × (exploded_db.calls ≡ submitted_db.calls ++ dict payload ∷ []))
dispatch_once_calls_example =
    dispatch_once_calls calm is_plain (toy-IsStandard never) true (uuid 0) exploding_worker
      submitted_db plain_id

-- A dispatch is a success also when its worker raises.
dispatch_works : (dispatch_once calm true (uuid 0) exploding_worker submitted_db).0.success ≡ true
unfolding dispatch_once get_intent_status leira.Inbox.status_of leira.Inbox.intent_events
    leira.Inbox.submit_intent leira.Ledger.append_event leira.Inbox.validate_intent
    leira.Ledger.canonicalize_payload leira.Value.normalize_value leira.Inbox.stored_payload
    leira.Inbox.is_non_serializable leira.Ledger.insert_event leira.Ledger.has_id
    leira.Inbox.store_intent leira.Table.lookup leira.Inbox.is_intent_event leira.Ledger.new_event
    leira.Tests.Toy.shows leira.Dispatch.claimed_done leira.Dispatch.dispatch_claim
    leira.Dispatch.dispatch_final leira.Dispatch.dispatch_run leira.Dispatch.dispatch_start
    leira.Dispatch.dispatch_work leira.Dispatch.final_done invoke_worker
    leira.Dispatch.read_intent_payload_from leira.Errors.error_name
    leira.Inbox.intent_status_by_event_type leira.Inbox.submit_done
    leira.Inbox.update_intent_projection leira.Ledger.compute_event_hash leira.Ledger.hash_input
    leira.Ledger.head_hash leira.Lifecycle.allowed_transitions leira.Lifecycle.append_done
    leira.Lifecycle.append_from leira.Lifecycle.append_lifecycle_event leira.Lifecycle.create_run
    leira.Lifecycle.create_run_done leira.Lifecycle.get_run_state leira.Lifecycle.run_events
    leira.Lifecycle.update_projection leira.Projection.update_from_event leira.Table.upsert
    leira.Value.get leira.Value.put uuid leira.Value.prints
dispatch_works = refl

dispatch_once_success_example :
    (let r = dispatch_once calm true (uuid 0) exploding_worker submitted_db in
      (payload : Fields) × (read_intent_payload calm (uuid 0) submitted_db ≡ some payload)
      × (let status = final_status (invoke_worker exploding_worker payload).success in
          (r.1.calls ≡ submitted_db.calls ++ dict payload ∷ [])
          × (r.0.status ≡ some status)
          × (get_intent_status calm (uuid 0) r.1 ≡ some status)))
dispatch_once_success_example =
    dispatch_once_success calm is_plain (toy-IsStandard never) true (uuid 0) exploding_worker
      submitted_db plain_id dispatch_works

-- The ledger later, with one more row.
abbrev later : Db Value
later = record exploded_db { events = exploded_db.events ++ noise ∷ [] }

dispatch_once_once_example :
    (let again = dispatch_once calm true (uuid 0) echo_worker later in
      (again.0.success ≡ false) × (again.0.error_type ≡ some invalid_status) × (again.1 ≡ later))
dispatch_once_once_example =
    dispatch_once_once calm is_plain (toy-IsStandard never) true (uuid 0) exploding_worker
      echo_worker submitted_db later (noise ∷ []) plain_id dispatch_works refl

dispatch_and_track_held_example :
    (let r = dispatch_and_track calm true (uuid 0) (str "eve") echo_worker held_db in
      (r.0.success ≡ false)
      × (r.1.calls ≡ held_db.calls)
      × (get_intent_status calm (uuid 0) r.1 ≡ get_intent_status calm (uuid 0) held_db)
      × (get_claim calm (uuid 0) r.1 ≡ some bobs))
dispatch_and_track_held_example =
    dispatch_and_track_held calm true (uuid 0) (str "eve") echo_worker held_db bobs held

abbrev task_fields : Fields
task_fields = entries (("text", str "hello") ∷ [])

submitted_tick : submitted_db.tick ≡ 5
unfolding leira.Inbox.submit_intent leira.Ledger.append_event leira.Inbox.validate_intent
    leira.Ledger.canonicalize_payload leira.Value.normalize_value leira.Inbox.stored_payload
    leira.Inbox.is_non_serializable leira.Ledger.insert_event has_id leira.Inbox.store_intent
    leira.Table.lookup leira.Value.prints leira.Value.put
submitted_tick = refl

submitted_ids : (i : String) → has_id i submitted_db.events ≡ ((uuid 2 == i) || false)
unfolding uuid has_id leira.Inbox.submit_intent leira.Ledger.append_event
    leira.Inbox.validate_intent leira.Ledger.canonicalize_payload leira.Value.normalize_value
    leira.Inbox.stored_payload leira.Inbox.is_non_serializable leira.Ledger.insert_event
    leira.Inbox.store_intent leira.Table.lookup leira.Ledger.new_event leira.Value.prints
    leira.Value.put
submitted_ids i = refl

submitted-Fresh : Fresh calm submitted_db
submitted-Fresh = record {
  unused = λ n after.
      submitted_ids (uuid n) ∙ rw (uuid_apart 2 n (omega (arith, after, submitted_tick))) refl;
  apart = λ m n from before. uuid_apart m n before;
}

readable : read_intent_payload calm (uuid 0) submitted_db ≡ some task_fields
unfolding leira.Dispatch.read_intent_payload_from leira.Inbox.submit_intent
    leira.Ledger.append_event leira.Inbox.validate_intent leira.Ledger.canonicalize_payload
    leira.Value.normalize_value leira.Inbox.stored_payload leira.Inbox.is_non_serializable
    leira.Ledger.insert_event leira.Ledger.has_id leira.Inbox.store_intent leira.Table.lookup
    leira.Ledger.new_event leira.Tests.Toy.shows leira.Value.put uuid leira.Value.get
    leira.Errors.error_name leira.Inbox.submit_done leira.Ledger.compute_event_hash
    leira.Ledger.hash_input leira.Ledger.head_hash leira.Table.upsert leira.Value.prints
readable = refl

inputs_safe : is_printable calm.prints_int (dict task_fields) ≡ true
unfolding is_printable
inputs_safe = refl

outputs_safe :
    is_printable calm.prints_int (invoke_worker exploding_worker task_fields).outputs ≡ true
unfolding is_printable invoke_worker
outputs_safe = refl

named : (uuid 0 == "") ≡ false
unfolding uuid
named = refl

dispatch_once_reports_example :
    (let r = dispatch_once calm true (uuid 0) exploding_worker submitted_db in
      (r.0.success ≡ true)
      × (r.0.status ≡ some (final_status (invoke_worker exploding_worker task_fields).success)))
dispatch_once_reports_example =
    dispatch_once_reports calm is_plain (toy-IsStandard never) (λ n. refl) true (uuid 0)
      "ExplodingWorker" exploding_worker task_fields inputs_safe outputs_safe submitted_db named
      submitted-Fresh pending readable refl
