-- ===== src/Dispatch/Track.antt =====
-- `dispatch_and_track`: the claim around a dispatch.
use leira.Prelude.{
  ◌≡◌, refl, ◌∙◌, String, Bool, false, Option, none, some, arith, ◌==◌, contains, inl, inr,
  Bool-cases, Option-cases,
}
use leira.Value.{Value, str, as_non_empty}
use leira.Platform.{Platform}
use leira.Errors.{ErrorType, already_claimed, invalid_owner, unknown_intent, invalid_status}
use leira.Ledger.{Db, append_event, new_event}
use leira.Ledger.Append.{wrote, kept, append_event-Appends}
use leira.Inbox.{get_intent_status, intent_ledger_event_types}
use leira.Claims.{ClaimInfo, get_claim, claim_intent, claim_refused, reject_claim, claims_worker_id}
use leira.Claims.Ownership.{get_claim-reject_claim}
use leira.Workers.{Worker}
use leira.Dispatch.{dispatch_and_track}
use leira.Dispatch.Keeps.{Keeps, same_status, status_unmoved}

module _ {Text : Type 0} (P : Platform Text) where
  append_event-Keeps :
      (i t : String) (worker payload : Value) (ah op : Option String) (db : Db Text)
      → contains intent_ledger_event_types t ≡ false
      → Keeps P i db (append_event P (str t) worker payload ah op db).1
  append_event-Keeps i t worker payload ah op db other =
      elim (append_event-Appends P (str t) worker payload ah op db) [
        | kept x n later made ↦ rw made (refl, same_status P i db _ refl)
        | wrote u w json et ew ej free made ↦
            let e = new_event P u w json ah op db in
            let typed : e.event_type ≡ t = unfold new_event in ground arith in
            rw made (refl, status_unmoved P i db _ e refl (rw (typed) other))
      ]

  reject_claim-Keeps :
      (i intent_id : String) (owner_id : Value) (x : ErrorType) (db : Db Text)
      → Keeps P i db (reject_claim P intent_id owner_id x db)
  unfolding reject_claim
  reject_claim-Keeps i intent_id owner_id x db =
      append_event-Keeps i "intent_claim_rejected" (str claims_worker_id) _ none none db refl

  -- Each way in which a claim of a held intent is refused.
  claim_intent_held :
      (intent_id : String) (owner_id : Value) (db : Db Text) (active : ClaimInfo)
      → get_claim P intent_id db ≡ some active
      → (x : ErrorType) × (claim_intent P intent_id owner_id db
          ≡ (claim_refused x, reject_claim P intent_id owner_id x db))
  unfolding claim_intent
  claim_intent_held intent_id owner_id db active held =
      elim (Option-cases (as_non_empty owner_id)) [
        | inl no_owner ↦ (invalid_owner, rw (no_owner, claim_intent) refl)
        | inr (owner, named) ↦ elim (Option-cases (get_intent_status P intent_id db)) [
          | inl unknown ↦
              (unknown_intent, rw (named, claim_intent) (rw (unknown, claim_intent) refl))
          | inr (status, known) ↦ elim (Bool-cases (status == "PENDING")) [
            | inl pending ↦ (
              already_claimed,
              rw (named, claim_intent)
                  (rw (known, claim_intent)
                    (rw (pending, claim_intent) (rw (held, claim_intent) refl))),
            )
            | inr other ↦ (
              invalid_status,
              rw (named, claim_intent) (rw (known, claim_intent) (rw (other, claim_intent) refl)),
            )
          ]
        ]
      ]

  -- While an intent is claimed, `dispatch_and_track` on it fails, whoever asks and with whatever
  -- worker: no worker is called, the intent keeps its status and the claim stays.
  pub dispatch_and_track_held :
      (tracks : Bool) (intent_id : String) (owner_id : Value) (worker : Worker) (db : Db Text)
      (active : ClaimInfo)
      → get_claim P intent_id db ≡ some active
      → (let r = dispatch_and_track P tracks intent_id owner_id worker db in
          (r.0.success ≡ false)
          × (r.1.calls ≡ db.calls)
          × (get_intent_status P intent_id r.1 ≡ get_intent_status P intent_id db)
          × (get_claim P intent_id r.1 ≡ some active))
  unfolding dispatch_and_track
  dispatch_and_track_held tracks intent_id owner_id worker db active held =
      let (x, refusal) = claim_intent_held intent_id owner_id db active held in
      let (calls, status) = reject_claim-Keeps intent_id intent_id owner_id x db in
      rw (refusal, dispatch_and_track)
        (rw (refusal)
          (refl, calls, status, get_claim-reject_claim P intent_id intent_id owner_id x db ∙ held))
