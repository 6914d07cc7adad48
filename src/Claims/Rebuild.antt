-- ===== src/Claims/Rebuild.antt =====
-- `rebuild_claim_projection`: the table of active claims, filled again from the ledger.
use leira.Prelude.{◌+◌, String, Option, none, some, List, [], ◌∷◌, ◌++◌, ◌==◌, if◌then◌else◌}
use leira.Value.{get_non_empty, as_dict, ◌>>=◌}
use leira.Platform.{Platform}
use leira.Table.{Table, lookup, upsert}
use leira.Ledger.{Db, LedgerEvent}
use leira.Rows.{ClaimRow}
use leira.Claims.{ClaimEvent, ClaimInfo, is_claim_event, replay_claim_events}

abbrev pub events_under : String → Table (List ClaimEvent) → List ClaimEvent
events_under i groups = elim (lookup i groups) [ none ↦ [] | some es ↦ es ]

abbrev pub claim_row_of : ClaimInfo → ClaimRow
claim_row_of a = record {
  claim_id = a.claim_id;
  owner_id = a.owner_id;
  claimed_at = a.claimed_at;
  last_event_id = a.last_event_id;
}

-- The second loop: a row for each group with an active claim.
unfoldable pub active_rows : Table (List ClaimEvent) → Table ClaimRow
active_rows [] = []
active_rows ((i, es) ∷ rest) =
    let rows = active_rows rest in
    elim (replay_claim_events es) [ none ↦ rows | some a ↦ (a.intent_id, claim_row_of a) ∷ rows ]

module _ {Text : Type 0} (P : Platform Text) where
  -- What the first loop reads off a row.
  unfoldable pub claim_entry : LedgerEvent Text → Option (String × ClaimEvent)
  claim_entry e =
      if is_claim_event P e
      then (P.loads e.payload_json >>= λ v. as_dict v >>= λ fs.
          get_non_empty "intent_id" fs >>= λ i. some (
            i,
            record {
              event_type = e.event_type;
              payload = fs;
              created_at = e.created_at;
              event_id = e.id;
            },
          ))
      else none

  -- The first loop, `events_by_intent.setdefault(intent_id, []).append(…)`.
  unfoldable pub events_by_intent :
      Table (List ClaimEvent) → List (LedgerEvent Text) → Table (List ClaimEvent)
  events_by_intent groups [] = groups
  events_by_intent groups (e ∷ es) = elim (claim_entry e) [
    | none ↦ events_by_intent groups es
    | some (i, c) ↦ events_by_intent (upsert i (events_under i groups ++ c ∷ []) groups) es
  ]

  unfoldable pub rebuild_claim_projection : Db Text → Db Text
  rebuild_claim_projection db =
      if P.fails db.tick then record db { tick = db.tick + 1 } else record db {
        claim_rows = active_rows (events_by_intent [] db.events);
        tick = db.tick + 1;
      }

  -- The claim rows of one intent, in the order of the ledger.
  abbrev pub own_event : String → Option (String × ClaimEvent) → List ClaimEvent → List ClaimEvent
  own_event i none rest = rest
  own_event i (some (j, c)) rest = if j == i then c ∷ rest else rest

  unfoldable pub own_events : String → List (LedgerEvent Text) → List ClaimEvent
  own_events i [] = []
  own_events i (e ∷ es) = own_event i (claim_entry e) (own_events i es)
