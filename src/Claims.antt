-- ===== src/Claims.antt =====
-- leira/claims/claims.py: exclusive ownership of intents, recorded in the ledger.
pub mod Replay
pub mod Ownership
pub mod Rows
pub mod Release
pub mod Rebuild
pub mod Grouping
use leira.Prelude.{
  ◌+◌, String, Bool, true, false, ◌&&◌, Option, none, some, List, [], ◌∷◌, ◌==◌, contains,
  if◌then◌else◌,
}
use leira.Value.{
  Value, Fields, str, dict, entries, optional, get_str, get_non_empty, as_non_empty, as_dict, ◌>>=◌,
}
use leira.Platform.{Platform}
use leira.Errors.{
  ErrorType, unknown_intent, invalid_status, invalid_owner, already_claimed, no_active_claim,
  owner_mismatch, storage_failure, error_name,
}
use leira.Table.{upsert, delete}
use leira.Ledger.{Db, LedgerEvent, AppendResult, appended, refused, append_event}
use leira.Rows.{ClaimRow}
use leira.Inbox.{get_intent_status}

abbrev pub claims_worker_id : String
claims_worker_id = "kernel"

abbrev pub claim_established_event_type : String
claim_established_event_type = "intent_claim_established"

abbrev pub claim_released_event_type : String
claim_released_event_type = "intent_released"

abbrev pub claim_rejected_event_type : String
claim_rejected_event_type = "intent_claim_rejected"

abbrev pub release_rejected_event_type : String
release_rejected_event_type = "intent_release_rejected"

pub record ClaimInfo : Type 0 where
  pub intent_id : String
  pub claim_id : String
  pub owner_id : String
  pub claimed_at : String
  pub last_event_id : String

-- `ClaimResult`, `ReleaseResult`
pub data ClaimResult : Type 0 where
  claimed : (claim_id : String) → ClaimResult
  claim_refused : ErrorType → ClaimResult

pub data ReleaseResult : Type 0 where
  released : ReleaseResult
  release_refused : ErrorType → ReleaseResult

-- A row as `replay_claim_events` takes it.
pub record ClaimEvent : Type 0 where
  pub event_type : String
  pub payload : Fields
  pub created_at : String
  pub event_id : String

unfoldable pub claim_artifact : Option String → String → String → String → Option ErrorType → Value
claim_artifact claim_id intent_id owner_id action error_type = dict (
    entries (
      ("type", str "claim")
      ∷ (
        "content",
        dict (
            entries (
              ("claim_id", optional claim_id)
              ∷ ("intent_id", str intent_id)
              ∷ ("owner_id", str owner_id)
              ∷ ("action", str action)
              ∷ ("error_type", optional (error_type >>= λ x. some (error_name x)))
              ∷ [])),
      )
      ∷ []))

-- The claim that an established row makes, if its ids are strings and not empty.
unfoldable pub claim_of : ClaimEvent → Option ClaimInfo
claim_of e = get_non_empty "claim_id" e.payload >>= λ claim_id.
    get_non_empty "owner_id" e.payload >>= λ owner_id.
    get_non_empty "intent_id" e.payload >>= λ intent_id. some (record {
      intent_id = intent_id;
      claim_id = claim_id;
      owner_id = owner_id;
      claimed_at = e.created_at;
      last_event_id = e.event_id;
    })

-- `payload.get(k) == s`
abbrev pub has_entry : String → String → Fields → Bool
has_entry k s fs = elim (get_str k fs) [ none ↦ false | some t ↦ t == s ]

-- One round of `replay_claim_events`.
unfoldable pub replay_step : Option ClaimInfo → ClaimEvent → Option ClaimInfo
replay_step none e = if e.event_type == claim_established_event_type then claim_of e else none
replay_step (some active) e =
    if e.event_type == claim_established_event_type
    then some active
    else if e.event_type == claim_released_event_type
        && (has_entry "claim_id" active.claim_id e.payload
            && has_entry "owner_id" active.owner_id e.payload)
    then none
    else some active

unfoldable pub replay_from : Option ClaimInfo → List ClaimEvent → Option ClaimInfo
replay_from active [] = active
replay_from active (e ∷ es) = replay_from (replay_step active e) es

unfoldable pub replay_claim_events : List ClaimEvent → Option ClaimInfo
replay_claim_events es = replay_from none es

-- The payload of an established claim and of its release.
abbrev pub claim_fields : String → String → String → String → Fields
claim_fields claim_id intent_id owner_id action = entries (
    ("claim_id", str claim_id)
    ∷ ("intent_id", str intent_id)
    ∷ ("owner_id", str owner_id)
    ∷ ("artifact", claim_artifact (some claim_id) intent_id owner_id action none)
    ∷ [])

module _ {Text : Type 0} (P : Platform Text) where
  abbrev pub is_claim_event : LedgerEvent Text → Bool
  is_claim_event e =
      contains (claim_established_event_type ∷ claim_released_event_type ∷ []) e.event_type

  -- What `get_claim` makes of a row: found by the query, read as a dict, and naming the intent.
  unfoldable pub claim_event : String → LedgerEvent Text → Option ClaimEvent
  claim_event intent_id e =
      if is_claim_event e && P.mentions "intent_id" intent_id e.payload_json
      then (P.loads e.payload_json >>= λ v. as_dict v >>= λ fs.
          if has_entry "intent_id" intent_id fs
          then some (record {
            event_type = e.event_type;
            payload = fs;
            created_at = e.created_at;
            event_id = e.id;
          })
          else none)
      else none

  unfoldable pub claim_events : String → List (LedgerEvent Text) → List ClaimEvent
  claim_events intent_id [] = []
  claim_events intent_id (e ∷ es) =
      let rest = claim_events intent_id es in
      elim (claim_event intent_id e) [ none ↦ rest | some c ↦ c ∷ rest ]

  unfoldable pub get_claim : String → Db Text → Option ClaimInfo
  get_claim intent_id db = replay_claim_events (claim_events intent_id db.events)

  -- `_upsert_claim_projection`
  unfoldable pub upsert_claim_projection : String → ClaimRow → Db Text → Bool × Db Text
  upsert_claim_projection intent_id row db =
      if P.fails db.tick
      then (false, record db { tick = db.tick + 1 })
      else (true, record db { claim_rows = upsert intent_id row db.claim_rows; tick = db.tick + 1 })

  -- `_clear_claim_projection`
  unfoldable pub clear_claim_projection : String → Db Text → Bool × Db Text
  clear_claim_projection intent_id db =
      if P.fails db.tick
      then (false, record db { tick = db.tick + 1 })
      else (true, record db { claim_rows = delete intent_id db.claim_rows; tick = db.tick + 1 })

  -- `owner_id if isinstance(owner_id, str) else repr(owner_id)`
  abbrev pub recorded_owner : Value → String
  recorded_owner (str s) = s
  recorded_owner v = P.repr v

  -- `_reject_claim`; the result of the append is dropped.
  unfoldable pub reject_claim : String → Value → ErrorType → Db Text → Db Text
  reject_claim intent_id owner_id error_type db =
      let owner = recorded_owner owner_id in
      (append_event P (str claim_rejected_event_type) (str claims_worker_id)
        (dict (
          entries (
            ("intent_id", str intent_id)
            ∷ ("owner_id", str owner)
            ∷ ("artifact", claim_artifact none intent_id owner "REJECTED" (some error_type))
            ∷ [])))
        none none db).1

  -- `_reject_release`
  unfoldable pub reject_release : String → Value → Option String → ErrorType → Db Text → Db Text
  reject_release intent_id owner_id claim_id error_type db =
      let owner = recorded_owner owner_id in
      (append_event P (str release_rejected_event_type) (str claims_worker_id)
        (dict (
          entries (
            ("intent_id", str intent_id)
            ∷ ("owner_id", str owner)
            ∷ ("claim_id", optional claim_id)
            ∷ ("artifact", claim_artifact claim_id intent_id owner "REJECTED" (some error_type))
            ∷ [])))
        none none db).1

  unfoldable pub claim_done :
      String → String → String → AppendResult → Db Text → ClaimResult × Db Text
  claim_done claim_id intent_id owner_id (refused x) db = (claim_refused storage_failure, db)
  claim_done claim_id intent_id owner_id (appended event_id event_hash created_at) db = (
    claimed claim_id,
    (upsert_claim_projection intent_id
        (record {
          claim_id = claim_id;
          owner_id = owner_id;
          claimed_at = created_at;
          last_event_id = event_id;
        })
        db).1,
  )

  -- `claim_intent` once its tests have passed.
  unfoldable pub establish_claim : String → String → Db Text → ClaimResult × Db Text
  establish_claim intent_id owner_id db =
      let claim_id = P.uuid4 db.tick in
      let (r, db') =
        append_event P (str claim_established_event_type) (str claims_worker_id)
          (dict (claim_fields claim_id intent_id owner_id "CLAIMED")) none none
          (record db { tick = db.tick + 1 }) in
      claim_done claim_id intent_id owner_id r db'

  unfoldable pub claim_intent : String → Value → Db Text → ClaimResult × Db Text
  claim_intent intent_id owner_id db = elim (as_non_empty owner_id) [
    | none ↦ (claim_refused invalid_owner, reject_claim intent_id owner_id invalid_owner db)
    | some owner ↦ elim (get_intent_status P intent_id db) [
      | none ↦ (claim_refused unknown_intent, reject_claim intent_id owner_id unknown_intent db)
      | some status ↦
          if status == "PENDING"
          then (elim (get_claim intent_id db) [
            | none ↦ establish_claim intent_id owner db
            | some active ↦
                (claim_refused already_claimed, reject_claim intent_id owner_id already_claimed db)
          ])
          else (claim_refused invalid_status, reject_claim intent_id owner_id invalid_status db)
    ]
  ]

  unfoldable pub release_done : String → AppendResult → Db Text → ReleaseResult × Db Text
  release_done intent_id (refused x) db = (release_refused storage_failure, db)
  release_done intent_id (appended event_id event_hash created_at) db =
      (released, (clear_claim_projection intent_id db).1)

  -- `release_claim` once its tests have passed.
  unfoldable pub end_claim : String → ClaimInfo → String → Db Text → ReleaseResult × Db Text
  end_claim intent_id active owner_id db =
      let (r, db') =
        append_event P (str claim_released_event_type) (str claims_worker_id)
          (dict (claim_fields active.claim_id intent_id owner_id "RELEASED")) none none db in
      release_done intent_id r db'

  unfoldable pub release_claim : String → Value → Db Text → ReleaseResult × Db Text
  release_claim intent_id owner_id db = elim (as_non_empty owner_id) [
    | none ↦
        (release_refused invalid_owner, reject_release intent_id owner_id none invalid_owner db)
    | some owner ↦ elim (get_claim intent_id db) [
      | none ↦ (
        release_refused no_active_claim,
        reject_release intent_id owner_id none no_active_claim db,
      )
      | some active ↦ if active.owner_id == owner then end_claim intent_id active owner db else (
        release_refused owner_mismatch,
        reject_release intent_id owner_id (some active.claim_id) owner_mismatch db,
      )
    ]
  ]
