-- ===== src/Audit/Claims.antt =====
-- The checks of leira/audit/auditor.py on claims and intent_claim_projection.
pub mod Rebuilt
use leira.Prelude.{
  String, Option, none, some, List, [], ◌∷◌, ◌++◌, ◌==◌, ◌&&◌, not, contains, if◌then◌else◌,
}
use leira.Value.{get_non_empty, ◌>>=◌}
use leira.Platform.{Platform}
use leira.Table.{Table, upsert}
use leira.Rows.{ClaimRow}
use leira.Ledger.{LedgerEvent}
use leira.Claims.{
  ClaimEvent, claim_established_event_type, claim_released_event_type, has_entry,
  replay_claim_events,
}
use leira.Claims.Rebuild.{events_under, claim_row_of}
use leira.Audit.{report, report_if, parse_payload, compare_expected, unexpected_entries}

-- The claim that stands while the rows of one intent are replayed: its id and its owner.
abbrev pub ActiveClaim : Type 0
ActiveClaim = Option (String × String)

-- The claim that an established row makes, in `check_claim_history`.
unfoldable pub established : ClaimEvent → ActiveClaim
established e = get_non_empty "claim_id" e.payload >>= λ claim_id.
    get_non_empty "owner_id" e.payload >>= λ owner_id. some (claim_id, owner_id)

-- One round of the inner loop of `check_claim_history`: what is reported, and the claim after it.
unfoldable pub claim_round : ActiveClaim → ClaimEvent → List String × ActiveClaim
claim_round none e =
    if e.event_type == claim_established_event_type then ([], established e) else ([], none)
claim_round (some (claim_id, owner_id)) e =
    if e.event_type == claim_established_event_type
    then (report "DUPLICATE_ACTIVE_CLAIM" e.event_id ∷ [], some (claim_id, owner_id))
    else if has_entry "claim_id" claim_id e.payload && has_entry "owner_id" owner_id e.payload
    then ([], none)
    else (report "RELEASE_OWNER_MISMATCH" e.event_id ∷ [], some (claim_id, owner_id))

unfoldable pub claim_rounds : ActiveClaim → List ClaimEvent → List String
claim_rounds active [] = []
claim_rounds active (e ∷ es) =
    let (reports, active') = claim_round active e in reports ++ claim_rounds active' es

-- The loop over the groups in `check_claim_history`.
unfoldable pub claim_histories : Table (List ClaimEvent) → List String
claim_histories [] = []
claim_histories ((intent_id, es) ∷ rest) = claim_rounds none es ++ claim_histories rest

-- The loop over the groups in `compute_expected_claim_projection`.
unfoldable pub expected_claims : Table (List ClaimEvent) → Table ClaimRow
expected_claims [] = []
expected_claims ((intent_id, es) ∷ rest) =
    let rows = expected_claims rest in
    elim (replay_claim_events es) [
      | none ↦ rows
      | some active ↦ (intent_id, claim_row_of active) ∷ rows
    ]

-- What `check_claim_projection` says of an expected row.
unfoldable pub judge_claim : String → ClaimRow → Option ClaimRow → List String
judge_claim intent_id expected none = report "CLAIM_PROJECTION_MISMATCH" intent_id ∷ []
judge_claim intent_id expected (some row) =
    report_if (not (row.claim_id == expected.claim_id && row.owner_id == expected.owner_id))
      "CLAIM_PROJECTION_MISMATCH" intent_id
    ++ report_if (not (row.claimed_at == expected.claimed_at))
        "CLAIM_PROJECTION_UPDATED_AT_MISMATCH" intent_id
    ++ report_if (not (row.last_event_id == expected.last_event_id))
        "CLAIM_PROJECTION_LAST_EVENT_ID_MISMATCH" intent_id

module _ {Text : Type 0} (P : Platform Text) where
  -- What `_group_claim_events_by_intent` reads off an event.
  unfoldable pub audited_claim : LedgerEvent Text → Option (String × ClaimEvent)
  audited_claim e =
      if contains (claim_established_event_type ∷ claim_released_event_type ∷ []) e.event_type
      then (parse_payload P e >>= λ fs. get_non_empty "intent_id" fs >>= λ intent_id. some (
        intent_id,
        record {
          event_type = e.event_type;
          payload = fs;
          created_at = e.created_at;
          event_id = e.id;
        },
      ))
      else none

  unfoldable pub group_claim_events_by_intent :
      Table (List ClaimEvent) → List (LedgerEvent Text) → Table (List ClaimEvent)
  group_claim_events_by_intent groups [] = groups
  group_claim_events_by_intent groups (e ∷ es) = elim (audited_claim e) [
    | none ↦ group_claim_events_by_intent groups es
    | some (intent_id, c) ↦
        group_claim_events_by_intent
          (upsert intent_id (events_under intent_id groups ++ c ∷ []) groups) es
  ]

  unfoldable pub check_claim_history : List (LedgerEvent Text) → List String
  check_claim_history es = claim_histories (group_claim_events_by_intent [] es)

  unfoldable pub compute_expected_claim_projection : List (LedgerEvent Text) → Table ClaimRow
  compute_expected_claim_projection es = expected_claims (group_claim_events_by_intent [] es)

  unfoldable pub check_claim_projection : Table ClaimRow → List (LedgerEvent Text) → List String
  check_claim_projection actual es =
      compare_expected judge_claim (compute_expected_claim_projection es) actual
      ++ unexpected_entries "CLAIM_PROJECTION_UNEXPECTED_ENTRY"
          (compute_expected_claim_projection es) actual
