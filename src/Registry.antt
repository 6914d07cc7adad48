-- ===== src/Registry.antt =====
-- leira/registry/registry.py: worker objects by name in the memory of the process, with the record
-- of their registration in the ledger.
pub mod Names
use leira.Prelude.{
  ◌+◌, String, Bool, true, false, Option, none, some, List, [], ◌∷◌, ◌==◌, is_some, contains,
  if◌then◌else◌, map, sorted,
}
use leira.Value.{
  Value, Fields, null, str, dict, entries, get_non_empty, as_dict, as_non_empty, ◌>>=◌,
}
use leira.Platform.{Platform}
use leira.Errors.{ErrorType, invalid_worker, duplicate_worker, storage_failure, error_name}
use leira.Table.{Table, lookup, upsert}
use leira.Rows.{WorkerRow}
use leira.Ledger.{Db, LedgerEvent, AppendResult, appended, refused, append_event}
use leira.Workers.{Worker}

abbrev pub registry_worker_id : String
registry_worker_id = "kernel"

-- `self._workers`
abbrev pub WorkerRegistry : Type 0
WorkerRegistry = Table Worker

pub record RegisterResult : Type 0 where
  pub success : Bool
  pub worker_name : Option String
  pub error_type : Option ErrorType

-- `INSERT OR IGNORE`
unfoldable pub insert_or_ignore : {R : Type 0} → String → R → Table R → Table R
insert_or_ignore k r t = if is_some (lookup k t) then t else upsert k r t

-- The payload of a registration or of its rejection.
abbrev pub registration_fields : String → String → Option ErrorType → Fields
registration_fields worker_name status error_type = entries (
    ("worker_name", str worker_name)
    ∷ ("status", str status)
    ∷ ("error_type", elim error_type [ none ↦ null | some x ↦ str (error_name x) ])
    ∷ [])

unfoldable pub get_worker : WorkerRegistry → String → Option Worker
get_worker workers worker_name = lookup worker_name workers

unfoldable pub list_workers : WorkerRegistry → List String
list_workers workers = sorted (map (λ e. e.0) workers)

module _ {Text : Type 0} (P : Platform Text) where
  -- `raw_name if isinstance(raw_name, str) else repr(raw_name)`
  abbrev pub recorded_name : Value → String
  recorded_name (str s) = s
  recorded_name v = P.repr v

  -- `_update_worker_projection`
  unfoldable pub update_worker_projection : String → WorkerRow → Db Text → Bool × Db Text
  update_worker_projection worker_name row db =
      if P.fails db.tick then (false, record db { tick = db.tick + 1 }) else (
        true,
        record db {
          worker_rows = insert_or_ignore worker_name row db.worker_rows;
          tick = db.tick + 1;
        },
      )

  -- A rejected registration; the result of the append is dropped.
  unfoldable pub reject_registration : String → ErrorType → Db Text → Db Text
  reject_registration recorded x db =
      (append_event P (str "worker_registration_rejected") (str registry_worker_id)
        (dict (registration_fields recorded "REJECTED" (some x))) none none db).1

  unfoldable pub register_done :
      String
      → Worker
      → AppendResult
      → WorkerRegistry
      → Db Text
      → RegisterResult × WorkerRegistry × Db Text
  register_done name worker (refused x) workers db = (
    record { success = false; worker_name = some name; error_type = some storage_failure },
    workers,
    db,
  )
  register_done name worker (appended event_id event_hash created_at) workers db = (
    record { success = true; worker_name = some name; error_type = none },
    upsert name worker workers,
    (update_worker_projection name (record { registered_at = created_at; last_event_id = event_id })
        db).1,
  )

  -- `register_worker` once its tests have passed.
  unfoldable pub register_new :
      String → Worker → WorkerRegistry → Db Text → RegisterResult × WorkerRegistry × Db Text
  register_new name worker workers db =
      let (r, db') =
        append_event P (str "worker_registered") (str registry_worker_id)
          (dict (registration_fields name "REGISTERED" none)) none none db in
      register_done name worker r workers db'

  unfoldable pub register_worker :
      Worker → WorkerRegistry → Db Text → RegisterResult × WorkerRegistry × Db Text
  register_worker worker workers db = elim (as_non_empty worker.name) [
    | none ↦ (
      record { success = false; worker_name = none; error_type = some invalid_worker },
      workers,
      reject_registration (recorded_name worker.name) invalid_worker db,
    )
    | some name ↦
        if is_some (lookup name workers)
        then (
          record { success = false; worker_name = some name; error_type = some duplicate_worker },
          workers,
          reject_registration name duplicate_worker db,
        )
        else register_new name worker workers db
  ]

  -- The name that a row of `rebuild_worker_projection` registers.
  unfoldable pub registered_name : LedgerEvent Text → Option String
  registered_name e =
      if e.event_type == "worker_registered"
      then (P.loads e.payload_json >>= λ v. as_dict v >>= λ fs. get_non_empty "worker_name" fs)
      else none

  unfoldable pub rebuild_workers :
      Table WorkerRow → List String → List (LedgerEvent Text) → Table WorkerRow
  rebuild_workers rows seen_names [] = rows
  rebuild_workers rows seen_names (e ∷ es) = elim (registered_name e) [
    | none ↦ rebuild_workers rows seen_names es
    | some name ↦ elim (contains seen_names name) [
      | true ↦ rebuild_workers rows seen_names es
      | false ↦
          rebuild_workers
            (upsert name (record { registered_at = e.created_at; last_event_id = e.id }) rows)
            (name ∷ seen_names) es
    ]
  ]

  unfoldable pub rebuild_worker_projection : Db Text → Db Text
  rebuild_worker_projection db =
      if P.fails db.tick
      then record db { tick = db.tick + 1 }
      else record db { worker_rows = rebuild_workers [] [] db.events; tick = db.tick + 1 }
