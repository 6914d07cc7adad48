-- ===== src/Sessions.antt =====
-- leira/sessions/sessions.py: sessions, which group intents, recorded in the ledger and kept in two
-- tables.
mod Payloads
pub mod Rebuild
unfoldable pub use Payloads.*
pub mod Members
pub mod Order
pub mod Seen
pub mod Views
pub mod Again
use leira.Prelude.{
  ℕ, zero, suc, ◌+◌, String, Bool, true, false, not, ◌&&◌, ◌||◌, Option, none, some, List, [], ◌∷◌,
  ◌++◌, ◌==◌, is_some, keep, map, length, sort_by, if◌then◌else◌,
}
use leira.Value.{str, dict, ◌>>=◌}
use leira.Platform.{Platform}
use leira.Errors.{ErrorType, unknown_session, unknown_intent, duplicate_membership, storage_failure}
use leira.Table.{Table, lookup, upsert}
use leira.Rows.{SessionRow, MembershipRow}
use leira.Ledger.{Db, LedgerEvent, AppendResult, appended, refused, append_event}
use leira.Inbox.{get_intent_status}

-- The rows of one session.
unfoldable pub session_members : String → List MembershipRow → List MembershipRow
session_members session_id rows = keep (λ row. row.session_id == session_id) rows

-- `a < b`
abbrev pub below : ℕ → ℕ → Bool
below m zero = false
below zero (suc n) = true
below (suc m) (suc n) = below m n

-- SELECT intent_id … WHERE session_id = ? ORDER BY membership_order
unfoldable pub list_session_intents : String → List MembershipRow → List String
list_session_intents session_id rows =
    map (λ row. row.intent_id)
      (sort_by (λ a b. below a.membership_order b.membership_order)
        (session_members session_id rows))

-- Whether the table has a row under the key (session_id, intent_id).
unfoldable pub has_member : String → String → List MembershipRow → Bool
has_member session_id intent_id [] = false
has_member session_id intent_id (row ∷ rows) =
    (row.session_id == session_id && row.intent_id == intent_id)
    || has_member session_id intent_id rows

-- UPDATE session_projection SET intent_count = ?, last_event_id = ? WHERE session_id = ?
unfoldable pub count_intents : String → ℕ → String → Table SessionRow → Table SessionRow
count_intents session_id order event_id [] = []
count_intents session_id order event_id ((k, row) ∷ rest) =
    let rest' = count_intents session_id order event_id rest in
    if k == session_id
    then (k, record { intent_count = order; created_at = row.created_at; last_event_id = event_id })
      ∷ rest'
    else (k, row) ∷ rest'

abbrev pub session_failed : String → String → ErrorType → SessionResult
session_failed session_id intent_id x = record {
  success = false;
  session_id = some session_id;
  intent_id = some intent_id;
  error_type = some x;
}

module _ {Text : Type 0} where
  unfoldable pub get_session : String → Db Text → Option SessionBundle
  get_session session_id db = lookup session_id db.session_rows >>= λ row. some (record {
    session_id = session_id;
    created_at = row.created_at;
    intent_ids = list_session_intents session_id db.membership_rows;
  })

module _ {Text : Type 0} (P : Platform Text) where
  -- `_session_exists`
  unfoldable pub session_exists : String → List (LedgerEvent Text) → Bool
  session_exists session_id [] = false
  session_exists session_id (e ∷ es) =
      (e.event_type == session_created_event && P.mentions "session_id" session_id e.payload_json)
      || session_exists session_id es

  -- `_membership_exists`
  unfoldable pub membership_exists : String → String → List (LedgerEvent Text) → Bool
  membership_exists session_id intent_id [] = false
  membership_exists session_id intent_id (e ∷ es) =
      (e.event_type == session_intent_added_event
        && (P.mentions "session_id" session_id e.payload_json
            && P.mentions "intent_id" intent_id e.payload_json))
      || membership_exists session_id intent_id es

  -- `_append_rejection`; the result of the append is dropped.
  unfoldable pub append_rejection : String → String → ErrorType → Db Text → Db Text
  append_rejection session_id intent_id x db =
      (append_event P (str session_intent_rejected_event) (str sessions_worker_id)
        (dict (membership_fields session_id intent_id (some x))) none none db).1

  unfoldable pub store_session : String → SessionRow → Db Text → Bool × Db Text
  store_session session_id row db =
      if P.fails db.tick || is_some (lookup session_id db.session_rows)
      then (false, record db { tick = db.tick + 1 })
      else (
        true,
        record db { session_rows = upsert session_id row db.session_rows; tick = db.tick + 1 },
      )

  unfoldable pub create_done : String → AppendResult → Db Text → Option SessionBundle × Db Text
  create_done session_id (refused x) db = (none, db)
  create_done session_id (appended event_id event_hash created_at) db =
      let (stored, db') =
        store_session session_id
          (record { intent_count = 0; created_at = created_at; last_event_id = event_id }) db in
      (
        (if stored
            then some (record { session_id = session_id; created_at = created_at; intent_ids = [] })
            else none),
        db',
      )

  -- `create_session`; the result is `none` if it raises.
  unfoldable pub create_session : Db Text → Option SessionBundle × Db Text
  create_session db =
      let session_id = P.uuid4 db.tick in
      let (r, db') =
        append_event P (str session_created_event) (str sessions_worker_id)
          (dict (created_fields session_id)) none none (record db { tick = db.tick + 1 }) in
      create_done session_id r db'

  -- The transaction of `add_intent_to_session` on the two tables.
  unfoldable pub store_member : MembershipRow → Db Text → Bool × Db Text
  store_member row db =
      if P.fails db.tick || has_member row.session_id row.intent_id db.membership_rows
      then (false, record db { tick = db.tick + 1 })
      else (
        true,
        record db {
          membership_rows = db.membership_rows ++ row ∷ [];
          session_rows =
              count_intents row.session_id row.membership_order row.last_event_id db.session_rows;
          tick = db.tick + 1;
        },
      )

  -- The end of `add_intent_to_session`; `none` if the transaction raises.
  unfoldable pub add_done :
      String → String → AppendResult → Db Text → Option SessionResult × Db Text
  add_done session_id intent_id (refused x) db =
      (some (session_failed session_id intent_id storage_failure), db)
  add_done session_id intent_id (appended event_id event_hash created_at) db =
      let (stored, db') =
        store_member
          (record {
            session_id = session_id;
            intent_id = intent_id;
            membership_order = length (list_session_intents session_id db.membership_rows) + 1;
            created_at = created_at;
            last_event_id = event_id;
          })
          db in
      (
        (if stored
            then some (record {
              success = true;
              session_id = some session_id;
              intent_id = some intent_id;
              error_type = none;
            })
            else none),
        db',
      )

  -- `add_intent_to_session` once its tests have passed.
  unfoldable pub add_member : String → String → Db Text → Option SessionResult × Db Text
  add_member session_id intent_id db =
      let (r, db') =
        append_event P (str session_intent_added_event) (str sessions_worker_id)
          (dict (membership_fields session_id intent_id none)) none none db in
      add_done session_id intent_id r db'

  -- The first test of `add_intent_to_session` that fails.
  unfoldable pub refusal : String → String → Db Text → Option ErrorType
  refusal session_id intent_id db =
      if not (session_exists session_id db.events)
      then some unknown_session
      else if not (is_some (get_intent_status P intent_id db))
      then some unknown_intent
      else if membership_exists session_id intent_id db.events
      then some duplicate_membership
      else none

  unfoldable pub add_intent_to_session : String → String → Db Text → Option SessionResult × Db Text
  add_intent_to_session session_id intent_id db = elim (refusal session_id intent_id db) [
    | some x ↦
        (some (session_failed session_id intent_id x), append_rejection session_id intent_id x db)
    | none ↦ add_member session_id intent_id db
  ]
