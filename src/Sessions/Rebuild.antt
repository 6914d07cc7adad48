-- ===== src/Sessions/Rebuild.antt =====
-- `rebuild_session_projection` of leira/sessions/sessions.py.
use leira.Prelude.{
  ◌+◌, String, Bool, true, false, ◌&&◌, ◌||◌, Option, none, some, List, [], ◌∷◌, ◌++◌, ◌==◌, length,
  contains, map, sorted, if◌then◌else◌,
}
use leira.Value.{Fields, as_dict, ◌>>=◌}
use leira.Platform.{Platform}
use leira.Table.{Table, lookup, upsert}
use leira.Rows.{SessionRow, MembershipRow}
use leira.Ledger.{Db, LedgerEvent}
use leira.Sessions.{session_created_event, session_intent_added_event, payload_id}

-- What the dicts session_created_at, session_last_event_id and memberships hold under one session;
-- they have the same keys.
pub record SessionBuild : Type 0 where
  pub created_at : String
  pub last_event_id : String
  pub items : List MembershipRow

pub record Builds : Type 0 where
  pub sessions : Table SessionBuild
  pub seen_memberships : List (String × String)

abbrev pub has_pair : String → String → List (String × String) → Bool
has_pair s i [] = false
has_pair s i ((t, j) ∷ rest) = (t == s && j == i) || has_pair s i rest

-- `setdefault` for created_at and the members, an assignment for the last event.
unfoldable pub create_build : String → String → Option SessionBuild → SessionBuild
create_build event_id created_at none = record {
  created_at = created_at;
  last_event_id = event_id;
  items = [];
}
create_build event_id created_at (some b) = record {
  created_at = b.created_at;
  last_event_id = event_id;
  items = b.items;
}

unfoldable pub add_item : String → String → String → String → SessionBuild → SessionBuild
add_item session_id intent_id event_id created_at b = record {
  created_at = b.created_at;
  last_event_id = event_id;
  items =
      b.items
      ++ (record {
        session_id = session_id;
        intent_id = intent_id;
        membership_order = length b.items + 1;
        created_at = created_at;
        last_event_id = event_id;
      })
        ∷ [];
}

unfoldable pub session_row_of : SessionBuild → SessionRow
session_row_of b = record {
  intent_count = length b.items;
  created_at = b.created_at;
  last_event_id = b.last_event_id;
}

-- The inserts, session by session in the order of their ids.
unfoldable pub built_rows : Table SessionBuild → List String → Table SessionRow × List MembershipRow
built_rows sessions [] = ([], [])
built_rows sessions (k ∷ ks) =
    let (rows, members) = built_rows sessions ks in
    elim (lookup k sessions) [
      | none ↦ (rows, members)
      | some b ↦ ((k, session_row_of b) ∷ rows, b.items ++ members)
    ]

module _ {Text : Type 0} (P : Platform Text) where
  -- A row of the query with the dict and the session it names.
  unfoldable pub session_entry : LedgerEvent Text → Option (Fields × String)
  session_entry e =
      if contains (session_created_event ∷ session_intent_added_event ∷ []) e.event_type
      then (P.loads e.payload_json >>= λ v.
          as_dict v >>= λ fs. payload_id "session_id" fs >>= λ session_id. some (fs, session_id))
      else none

  -- The round for a session_intent_added that names this intent.
  unfoldable pub add_round : String → String → LedgerEvent Text → Builds → Builds
  add_round session_id intent_id e b = elim (lookup session_id b.sessions) [
    | none ↦ b
    | some build ↦ if has_pair session_id intent_id b.seen_memberships then b else record {
      sessions =
          upsert session_id (add_item session_id intent_id e.id e.created_at build) b.sessions;
      seen_memberships = (session_id, intent_id) ∷ b.seen_memberships;
    }
  ]

  unfoldable pub build_round : LedgerEvent Text → Builds → Builds
  build_round e b = elim (session_entry e) [
    | none ↦ b
    | some (fs, session_id) ↦ elim (e.event_type == session_created_event) [
      | true ↦ record {
        sessions =
            upsert session_id (create_build e.id e.created_at (lookup session_id b.sessions))
              b.sessions;
        seen_memberships = b.seen_memberships;
      }
      | false ↦ elim (payload_id "intent_id" fs) [
        | none ↦ b
        | some intent_id ↦ add_round session_id intent_id e b
      ]
    ]
  ]

  unfoldable pub build_from : Builds → List (LedgerEvent Text) → Builds
  build_from b [] = b
  build_from b (e ∷ es) = build_from (build_round e b) es

  unfoldable pub rebuild_session_projection : Db Text → Db Text
  rebuild_session_projection db =
      let built =
        (build_from (record { sessions = []; seen_memberships = [] }) db.events).sessions in
      let (rows, members) = built_rows built (sorted (map (λ x. x.0) built)) in
      if P.fails db.tick
      then record db { tick = db.tick + 1 }
      else record db { session_rows = rows; membership_rows = members; tick = db.tick + 1 }
