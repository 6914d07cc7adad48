-- ===== src/Lifecycle/Live.antt =====
-- When the steps of a run are sure to succeed.
use leira.Prelude.{
  ◌+◌, ◌≤◌, ◌≡◌, refl, String, Bool, true, false, Option, none, some, [], ◌∷◌, arith, ◌==◌,
  contains, inl, inr, Bool-cases,
}
use leira.Value.{Fields, str, dict, put, entries, as_non_empty}
use leira.Value.Safe.{is_printable}
use leira.Platform.{Platform, IsStandard}
use leira.Ledger.{Db}
use leira.Ledger.Fresh.{Fresh, NeverFails, Fresh-later, append_event-Fresh}
use leira.Projection.{update_from_event}
use leira.Lifecycle.{
  allowed_transitions, appendable_run_events, lifecycle_worker_id, extra_fields, get_run_state,
  update_projection, create_run_done, create_run, append_done, append_from, append_lifecycle_event,
}
use leira.Lifecycle.Trace.{events-update_projection}

module _ {Text : Type 0} (P : Platform Text) where
  tick-update_projection :
      (tracks : Bool) (run_id event_type event_id created_at : String) (db : Db Text)
      → db.tick ≤ (update_projection P tracks run_id event_type event_id created_at db).tick
  unfolding update_projection update_from_event
  tick-update_projection true run_id event_type event_id created_at db =
      elim (Bool-cases (P.fails db.tick)) [
        | inl bad ↦ rw (bad, update_from_event) (omega arith)
        | inr fine ↦ rw (fine, update_from_event) (omega arith)
      ]
  tick-update_projection false run_id event_type event_id created_at db = omega arith

  update_projection-Fresh :
      (tracks : Bool) (run_id event_type event_id created_at : String) (db : Db Text)
      → Fresh P db
      → Fresh P (update_projection P tracks run_id event_type event_id created_at db)
  update_projection-Fresh tracks run_id event_type event_id created_at db fresh =
      Fresh-later P db (update_projection P tracks run_id event_type event_id created_at db) fresh
        (events-update_projection P tracks run_id event_type event_id created_at db)
        (tick-update_projection tracks run_id event_type event_id created_at db)

  module _ (is_plain : String → Bool) (std : IsStandard P is_plain) (works : NeverFails P) where
    -- Where no write fails, a run is created for every operation id that is not empty.
    pub create_run-success :
        (tracks : Bool) (operation_id : String) (db : Db Text)
        → (operation_id == "") ≡ false
        → Fresh P db
        → ((create_run P tracks operation_id db).0.success ≡ true)
          × Fresh P (create_run P tracks operation_id db).1
    unfolding create_run create_run_done is_printable
    create_run-success tracks operation_id db named fresh =
        let start : Db Text = record db { tick = db.tick + 1 } in
        let (json, good, (made, later)) =
          append_event-Fresh P works "run_created" lifecycle_worker_id
            (entries (("run_id", str (P.uuid4 db.tick)) ∷ ("operation_id", str operation_id) ∷ []))
            none (some operation_id) start refl refl refl
            (Fresh-later P db start fresh refl (omega arith)) in
        rw (named, create_run)
          (rw (made)
            (refl, update_projection-Fresh tracks (P.uuid4 db.tick) "run_created" _ _ _ later))

    -- Where no write fails, an event that the table allows is appended, if its payload can be stored.
    pub append_lifecycle_event-success :
        (tracks : Bool) (run_id event_type s : String) (extra : Option Fields) (db : Db Text)
        → contains appendable_run_events event_type ≡ true
        → as_non_empty (str event_type) ≡ some event_type
        → (get_run_state P run_id db).current_state ≡ some s
        → contains (allowed_transitions s) event_type ≡ true
        → is_printable P.prints_int (dict (put "run_id" (str run_id) (extra_fields extra))) ≡ true
        → Fresh P db
        → ((append_lifecycle_event P tracks run_id event_type extra db).0.success ≡ true)
          × Fresh P (append_lifecycle_event P tracks run_id event_type extra db).1
    unfolding append_lifecycle_event append_from append_done
    append_lifecycle_event-success tracks run_id event_type s extra db known typed at allowed safe
          fresh =
        let (json, good, (made, later)) =
          append_event-Fresh P works event_type lifecycle_worker_id
            (put "run_id" (str run_id) (extra_fields extra)) none none db typed refl safe fresh in
        rw (known, append_lifecycle_event)
          (rw (at, append_lifecycle_event)
            (rw (allowed, append_from)
              (rw (made) (refl, update_projection-Fresh tracks run_id event_type _ _ _ later))))
