-- ===== src/Ledger/Append.antt =====
-- What `append_event` can do: insert one row at the end, or refuse and leave every table alone.
use leira.Prelude.{
  ℕ, ◌+◌, ◌≤◌, ◌≡◌, false, inl, inr, String, Option, some, [], ◌∷◌, ◌++◌, arith, ◌||◌, Bool-cases,
  Option-cases,
}
use leira.Value.{Value, as_non_empty}
use leira.Platform.{Platform}
use leira.Errors.{ErrorType, invalid_event_type, invalid_worker_id, db_error}
use leira.Ledger.{
  Db, AppendResult, appended, refused, has_id, canonicalize_payload, payload_error, new_event,
  insert_event, append_event,
}

-- How a call on `db` with these arguments ended.
pub data Appends {Text : Type 0} (P : Platform Text) (event_type worker_id payload : Value)
    (artifact_hash operation_id : Option String) (db : Db Text) (r : AppendResult × Db Text)
    : Type 0 where
  wrote :
      (t w : String) (json : Text)
      → as_non_empty event_type ≡ some t
      → as_non_empty worker_id ≡ some w
      → canonicalize_payload P payload ≡ some json
      → has_id (P.uuid4 (db.tick + 1)) db.events ≡ false
      → (let e = new_event P t w json artifact_hash operation_id db in
          r ≡ (
            appended e.id e.event_hash e.created_at,
            record db { events = db.events ++ e ∷ []; tick = db.tick + 3 },
          ))
      → Appends P event_type worker_id payload artifact_hash operation_id db r
  kept :
      (x : ErrorType) (n : ℕ)
      → db.tick ≤ n
      → r ≡ (refused x, record db { tick = n })
      → Appends P event_type worker_id payload artifact_hash operation_id db r

module _ {Text : Type 0} (P : Platform Text) (event_type worker_id payload : Value)
    (artifact_hash operation_id : Option String) (db : Db Text) where
  insert_event-Appends :
      (t w : String) (json : Text)
      → as_non_empty event_type ≡ some t
      → as_non_empty worker_id ≡ some w
      → canonicalize_payload P payload ≡ some json
      → Appends P event_type worker_id payload artifact_hash operation_id db
          (insert_event P (new_event P t w json artifact_hash operation_id db) db)
  unfolding insert_event new_event
  insert_event-Appends t w json et ew ej =
      elim (Bool-cases (P.fails (db.tick + 2) || has_id (P.uuid4 (db.tick + 1)) db.events)) [
        | inl bad ↦ kept db_error (db.tick + 3) (omega arith) (rw (bad, insert_event))
        | inr fine ↦ wrote t w json et ew ej (ground arith) (rw (fine, insert_event))
      ]

  pub append_event-Appends :
      Appends P event_type worker_id payload artifact_hash operation_id db
        (append_event P event_type worker_id payload artifact_hash operation_id db)
  unfolding append_event
  append_event-Appends = elim (Option-cases (as_non_empty event_type)) [
    | inl no_type ↦ kept invalid_event_type db.tick (omega arith) (rw (no_type, append_event))
    | inr (t, et) ↦ elim (Option-cases (as_non_empty worker_id)) [
      | inl no_worker ↦
          kept invalid_worker_id db.tick (omega arith) (rw (et, no_worker, append_event))
      | inr (w, ew) ↦ elim (Option-cases (canonicalize_payload P payload)) [
        | inl no_payload ↦
            kept (payload_error P payload) db.tick (omega arith)
              (rw (et, ew, no_payload, append_event))
        | inr (json, ej) ↦ rw (et, ew, ej, append_event) (insert_event-Appends t w json et ew ej)
      ]
    ]
  ]
