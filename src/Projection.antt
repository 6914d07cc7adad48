-- ===== src/Projection.antt =====
-- leira/projection/state.py and rebuild.py: the table operation_state_projection, one row per run.
pub mod Rebuild
use leira.Prelude.{
  ◌+◌, String, Bool, true, false, Option, none, some, List, [], ◌∷◌, contains, is_some, all, not,
  ◌||◌, if◌then◌else◌,
}
use leira.Value.{get_str, as_dict, ◌>>=◌}
use leira.Platform.{Platform}
use leira.Table.{Table, lookup, upsert}
use leira.Ledger.{Db, LedgerEvent}
use leira.Rows.{RunRow}

abbrev pub run_lifecycle_event_types : List String
run_lifecycle_event_types =
    "run_created" ∷ "state_running" ∷ "artifact_written" ∷ "state_completed" ∷ []

module _ {Text : Type 0} where
  abbrev pub row_of : LedgerEvent Text → RunRow
  row_of e = record {
    current_state = e.event_type;
    last_event_id = e.id;
    updated_at = e.created_at;
  }

  -- `ProjectionEngine.get_current_state`
  unfoldable pub get_current_state : String → Db Text → Option String
  get_current_state run_id db = lookup run_id db.run_states >>= λ row. some row.current_state

module _ {Text : Type 0} (P : Platform Text) where
  -- `ProjectionEngine.update_from_event`
  unfoldable pub update_from_event : String → RunRow → Db Text → Bool × Db Text
  update_from_event run_id row db =
      if P.fails db.tick
      then (false, record db { tick = db.tick + 1 })
      else (true, record db { run_states = upsert run_id row db.run_states; tick = db.tick + 1 })

  -- Whether the loop of `rebuild_projection` can read the row: `json.loads` gives a dict, or the row is
  -- of another type and not read.
  unfoldable pub is_readable : LedgerEvent Text → Bool
  is_readable e =
      if contains run_lifecycle_event_types e.event_type
      then is_some (P.loads e.payload_json >>= as_dict)
      else true

  -- The string under run_id in a payload that can be read, if it has one.
  unfoldable pub payload_run_id : LedgerEvent Text → Option String
  payload_run_id e = P.loads e.payload_json >>= λ v. as_dict v >>= λ fs. get_str "run_id" fs

  -- One round of the loop of `rebuild_projection`.
  unfoldable pub rebuild_step : LedgerEvent Text → Table RunRow → Table RunRow
  rebuild_step e rows =
      if contains run_lifecycle_event_types e.event_type
      then elim (payload_run_id e) [ none ↦ rows | some run_id ↦ upsert run_id (row_of e) rows ]
      else rows

  unfoldable pub rebuild_from : Table RunRow → List (LedgerEvent Text) → Table RunRow
  rebuild_from rows [] = rows
  rebuild_from rows (e ∷ es) = rebuild_from (rebuild_step e rows) es

  -- `rebuild_projection`: the table is emptied and filled again in one transaction. It returns
  -- (`true`), or raises and rolls back (`false`): at a write that fails, or at the first lifecycle row
  -- whose payload is not a dict.
  unfoldable pub rebuild_projection : Db Text → Bool × Db Text
  rebuild_projection db =
      if P.fails db.tick || not (all is_readable db.events)
      then (false, record db { tick = db.tick + 1 })
      else (true, record db { run_states = rebuild_from [] db.events; tick = db.tick + 1 })
