-- ===== src/Gated.antt =====
-- The dispatches of leira/dispatcher/dispatcher.py that capture provenance first.
pub mod Gate
mod Passes
mod Run
unfoldable pub use Run.*
use leira.Prelude.{◌+◌, String, Bool, false, Option, none, some, ◌==◌, if◌then◌else◌}
use leira.Value.{Value, Fields, str, dict, as_non_empty}
use leira.Platform.{Platform}
use leira.Errors.{unknown_intent, invalid_status, invalid_worker, error_name, uncaught}
use leira.Ledger.{Db, AppendResult, appended, refused, append_event}
use leira.Inbox.{get_intent_status, update_intent_projection}
use leira.Claims.{
  claimed, claim_refused, ReleaseResult, released, release_refused, claim_intent, release_claim,
}
use leira.Workers.{Worker}
use leira.Dispatch.{dispatcher_worker_id, claimed_fields, read_intent_payload}
use leira.Provenance.{Surroundings}
use leira.Provenance.Capture.{capture_provenance, capture_environment}

-- `error_type` stands for an exception, which an append in the run raised.
abbrev pub has_raised : Option String → Bool
has_raised none = false
has_raised (some s) = s == error_name uncaught

module _ {Text : Type 0} (P : Platform Text) (S : Surroundings Text) (repo_path : String) where
  -- The capture of the environment and what follows.
  unfoldable pub gated_environment :
      Bool → String → String → Worker → Fields → String → Db Text → GatedResult × Db Text
  gated_environment tracks intent_id name worker payload provenance db =
      let (s, db') = capture_environment P S intent_id db in
      elim s.error_type [
        | some error ↦
            fail_intent P intent_id name error s.stderr (some provenance) (some s.snapshot_id) db'
        | none ↦ gated_run P tracks intent_id name worker payload provenance s.snapshot_id db'
      ]

  -- The capture of provenance and what follows.
  unfoldable pub gated_provenance :
      Bool → String → String → Worker → Fields → Db Text → GatedResult × Db Text
  gated_provenance tracks intent_id name worker payload db =
      let (s, db') = capture_provenance P S intent_id repo_path db in
      elim s.error_type [
        | some error ↦ fail_intent P intent_id name error s.stderr (some s.snapshot_id) none db'
        | none ↦ gated_environment tracks intent_id name worker payload s.snapshot_id db'
      ]

  unfoldable pub gated_claimed :
      Bool → String → String → Worker → Fields → AppendResult → Db Text → GatedResult × Db Text
  gated_claimed tracks intent_id name worker payload (refused x) db =
      (not_gated intent_id (some name) none (error_name x) none none, db)
  gated_claimed tracks intent_id name worker payload (appended event_id event_hash created_at) db =
      gated_provenance tracks intent_id name worker payload
        (update_intent_projection P intent_id
          (record {
            status = "RUNNING";
            worker_name = some name;
            updated_at = created_at;
            last_event_id = event_id;
          })
          db).1

  unfoldable pub gated_claim :
      Bool → String → String → Worker → Fields → Db Text → GatedResult × Db Text
  gated_claim tracks intent_id name worker payload db =
      let (a, db') =
        append_event P (str "intent_claimed") (str dispatcher_worker_id)
          (dict (claimed_fields intent_id name)) none none db in
      gated_claimed tracks intent_id name worker payload a db'

  unfoldable pub dispatch_with_provenance : Bool → String → Worker → Db Text → GatedResult × Db Text
  dispatch_with_provenance tracks intent_id worker db = elim (get_intent_status P intent_id db) [
    | none ↦ (not_gated intent_id none none (error_name unknown_intent) none none, db)
    | some status ↦
        if status == "PENDING"
        then (elim (read_intent_payload P intent_id db) [
          | none ↦ (not_gated intent_id none none (error_name unknown_intent) none none, db)
          | some payload ↦ elim (as_non_empty worker.name) [
            | none ↦ (not_gated intent_id none none (error_name invalid_worker) none none, db)
            | some name ↦ gated_claim tracks intent_id name worker payload db
          ]
        ])
        else (not_gated intent_id none (some status) (error_name invalid_status) none none, db)
  ]

  -- The result once the claim has been given back, or not.
  unfoldable pub gated_tracked : GatedResult → ReleaseResult → GatedResult
  gated_tracked r released = r
  gated_tracked r (release_refused x) = record r { release_error_type = some (error_name x) }

  unfoldable pub dispatch_with_provenance_and_track :
      Bool → String → Value → Worker → Db Text → GatedResult × Db Text
  dispatch_with_provenance_and_track tracks intent_id owner_id worker db =
      let (c, db1) = claim_intent P intent_id owner_id db in
      elim c [
        | claim_refused x ↦ (not_gated intent_id none none (error_name x) none none, db1)
        | claimed claim_id ↦
            (let (r, db2) = dispatch_with_provenance tracks intent_id worker db1 in
              let (given_back, db3) = release_claim P intent_id owner_id db2 in
              if has_raised r.error_type then (r, db2) else (gated_tracked r given_back, db3))
      ]
