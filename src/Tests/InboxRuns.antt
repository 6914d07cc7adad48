-- ===== src/Tests/InboxRuns.antt =====
-- The theorems on intents and claims, at one intent.
use leira.Prelude.{
  ap, true, false, ◌≢◌, ◌==◌, none, some, ◌≡◌, refl, [], ◌∷◌, ◌++◌, ◌⊎◌, if◌then◌else◌,
}
use leira.Value.{as_str, Value, str, dict, null, entries, float}
use leira.Errors.{ErrorType, owner_mismatch, storage_failure}
use leira.Ledger.{Db, LedgerEvent, init, append_event, new_event}
use leira.Inbox.{
  submit_intent, submitted, submit_failed, get_intent_status, is_intent_event,
  intent_status_by_event_type, has_ended,
}
use leira.Inbox.Status.{get_intent_status-append_terminal, get_intent_status-snoc}
use leira.Inbox.Submit.{submit_intent_unrecorded, get_intent_status-submit_intent}
use leira.Claims.{
  get_claim, claim_intent, release_claim, ClaimInfo, claimed, claim_refused, released,
  release_refused,
}
use leira.Claims.Ownership.{claim_intent_exclusive}
use leira.Claims.Rows.{IsHeldBy}
use leira.Claims.Release.{
  claim_intent-pending, release_claim-owner, release_claim-other, claim_intent_unreleasable,
}
use leira.Tests.Toy.{is_plain, toy-IsStandard, uuid, decomposed}
use leira.Tests.LedgerRuns.{never, calm}

abbrev empty : Db Value
empty = init Value

abbrev task : Value
task = dict (entries (("text", str "hello") ∷ []))

-- The intent "u", accepted.
abbrev pub submitted_db : Db Value
submitted_db = (submit_intent calm (str "Echo") task empty).1

-- An intent of no type, rejected.
abbrev rejected_db : Db Value
rejected_db = (submit_intent calm null task empty).1

-- A float cannot be stored.
abbrev unsafe_task : Value
unsafe_task = dict (entries (("x", float "0.5") ∷ []))

submit_intent_unrecorded_example :
    (let r = submit_intent calm null unsafe_task empty in
      (r.0 ≡ some submit_failed) × (r.1.events ≡ empty.events))
unfolding leira.Value.Safe.is_safe
submit_intent_unrecorded_example =
    submit_intent_unrecorded calm null unsafe_task empty refl refl refl

submitted_answer : (submit_intent calm (str "Echo") task empty).0 ≡ some (submitted (uuid 0) none)
unfolding submit_intent append_event leira.Inbox.validate_intent leira.Ledger.canonicalize_payload
    leira.Value.normalize_value leira.Inbox.stored_payload leira.Inbox.is_non_serializable
    leira.Ledger.insert_event leira.Ledger.has_id leira.Inbox.store_intent leira.Table.lookup
    leira.Value.prints leira.Value.put
submitted_answer = refl

unknown_yet : get_intent_status calm (uuid 0) empty ≡ none
unfolding get_intent_status leira.Inbox.status_of leira.Inbox.intent_events
unknown_yet = refl

get_intent_status-submit_intent_example :
    get_intent_status calm (uuid 0) submitted_db ≡ some "PENDING"
get_intent_status-submit_intent_example =
    get_intent_status-submit_intent calm is_plain (toy-IsStandard never) (str "Echo") task empty
      (submitted (uuid 0) none) unknown_yet submitted_answer refl

pub pending : get_intent_status calm (uuid 0) submitted_db ≡ some "PENDING"
pending =
    get_intent_status-submit_intent calm is_plain (toy-IsStandard never) (str "Echo") task empty
      (submitted (uuid 0) none) unknown_yet submitted_answer refl

rejected : get_intent_status calm (uuid 0) rejected_db ≡ some "REJECTED"
unfolding submit_intent get_intent_status leira.Inbox.status_of leira.Inbox.intent_events
    append_event leira.Inbox.validate_intent leira.Ledger.canonicalize_payload
    leira.Value.normalize_value leira.Inbox.stored_payload leira.Inbox.is_non_serializable
    leira.Ledger.insert_event leira.Ledger.has_id leira.Inbox.store_intent leira.Table.lookup
    is_intent_event new_event leira.Tests.Toy.shows leira.Value.put uuid leira.Errors.error_name
    intent_status_by_event_type leira.Inbox.submit_done leira.Ledger.compute_event_hash
    leira.Ledger.hash_input leira.Ledger.head_hash leira.Table.upsert leira.Value.prints
rejected = refl

abbrev pub noise : LedgerEvent Value
noise =
    new_event calm "intent_submitted" "kernel" (dict (entries (("intent_id", str "u") ∷ []))) none
      none empty

get_intent_status-append_terminal_example :
    get_intent_status calm
      (uuid 0)
      (record rejected_db { events = rejected_db.events ++ noise ∷ [] })
    ≡ some "REJECTED"
get_intent_status-append_terminal_example =
    get_intent_status-append_terminal calm (uuid 0) rejected_db
      (record rejected_db { events = rejected_db.events ++ noise ∷ [] }) (noise ∷ []) "REJECTED"
      rejected refl refl

get_intent_status-snoc_example :
    (let later : Db Value = record submitted_db { events = submitted_db.events ++ noise ∷ [] } in
      get_intent_status calm (uuid 0) later ≡ (
        if has_ended (get_intent_status calm (uuid 0) submitted_db)
        then get_intent_status calm (uuid 0) submitted_db
        else if is_intent_event calm (uuid 0) noise
        then intent_status_by_event_type noise.event_type
        else get_intent_status calm (uuid 0) submitted_db))
get_intent_status-snoc_example =
    get_intent_status-snoc calm (uuid 0) submitted_db
      (record submitted_db { events = submitted_db.events ++ noise ∷ [] }) noise refl

unclaimed : get_claim calm (uuid 0) submitted_db ≡ none
unfolding get_claim leira.Claims.replay_claim_events leira.Claims.replay_from
    leira.Claims.claim_events submit_intent append_event leira.Inbox.validate_intent
    leira.Ledger.canonicalize_payload leira.Value.normalize_value leira.Inbox.stored_payload
    leira.Inbox.is_non_serializable leira.Ledger.insert_event leira.Ledger.has_id
    leira.Inbox.store_intent leira.Table.lookup leira.Claims.claim_event new_event
    leira.Value.prints leira.Value.put
unclaimed = refl

claim_intent-pending_example :
    (let r = claim_intent calm (uuid 0) (str "bob") submitted_db in
      ((r.0 ≡ claim_refused storage_failure) × (get_claim calm (uuid 0) r.1 ≡ none))
      ⊎ ((r.0 ≡ claimed (uuid submitted_db.tick))
          × IsHeldBy (get_claim calm (uuid 0) r.1) (uuid submitted_db.tick) (calm.nfc "bob")))
unfolding uuid
claim_intent-pending_example =
    claim_intent-pending calm is_plain (toy-IsStandard never) (uuid 0) "bob" submitted_db refl refl
      refl refl pending unclaimed

-- The intent, claimed by bob.
abbrev pub held_db : Db Value
held_db = (claim_intent calm (uuid 0) (str "bob") submitted_db).1

abbrev pub bobs : ClaimInfo
bobs = record {
  intent_id = "u";
  claim_id = "uuuuuu";
  owner_id = "bob";
  claimed_at = "now";
  last_event_id = "uuuuuuuu";
}

pub held : get_claim calm (uuid 0) held_db ≡ some bobs
unfolding get_claim claim_intent leira.Claims.replay_claim_events leira.Claims.replay_from
    leira.Claims.claim_events get_intent_status leira.Inbox.status_of leira.Inbox.intent_events
    submit_intent append_event leira.Inbox.validate_intent leira.Ledger.canonicalize_payload
    leira.Value.normalize_value leira.Inbox.stored_payload leira.Inbox.is_non_serializable
    leira.Ledger.insert_event leira.Ledger.has_id leira.Inbox.store_intent leira.Table.lookup
    leira.Claims.claim_artifact leira.Claims.claim_done leira.Claims.claim_event
    leira.Claims.claim_of leira.Claims.establish_claim leira.Claims.reject_claim
    leira.Claims.replay_step leira.Claims.upsert_claim_projection leira.Errors.error_name
    intent_status_by_event_type is_intent_event leira.Inbox.submit_done
    leira.Ledger.compute_event_hash leira.Ledger.hash_input leira.Ledger.head_hash new_event
    leira.Table.upsert leira.Value.get leira.Value.get_non_empty leira.Value.get_str leira.Value.put
    leira.Tests.Toy.shows uuid leira.Value.prints
held = refl

claim_intent_exclusive_example :
    (let r = claim_intent calm (uuid 0) (str "eve") held_db in
      ((x : ErrorType) × (r.0 ≡ claim_refused x)) × (get_claim calm (uuid 0) r.1 ≡ some bobs))
claim_intent_exclusive_example = claim_intent_exclusive calm (uuid 0) (str "eve") held_db bobs held

not_bob : str "eve" ≢ str bobs.owner_id
not_bob h =
    let clash : true ≡ false = ap (λ v. elim (as_str v) [ none ↦ false | some s ↦ s == "eve" ]) h in
    cc

release_claim-other_example :
    (let r = release_claim calm (uuid 0) (str "eve") held_db in
      (r.0 ≡ release_refused owner_mismatch) × (get_claim calm (uuid 0) r.1 ≡ some bobs))
release_claim-other_example =
    release_claim-other calm (uuid 0) (str "eve") bobs held_db not_bob held

release_claim-owner_example :
    (let r = release_claim calm (uuid 0) (str "bob") held_db in
      ((r.0 ≡ release_refused storage_failure) × (get_claim calm (uuid 0) r.1 ≡ some bobs))
      ⊎ ((r.0 ≡ released) × (get_claim calm (uuid 0) r.1 ≡ none)))
unfolding uuid
release_claim-owner_example =
    release_claim-owner calm is_plain (toy-IsStandard never) (uuid 0) bobs held_db refl refl refl
      refl held

claimed_by_accent :
    (claim_intent calm (uuid 0) (str decomposed) submitted_db).0 ≡ claimed (uuid submitted_db.tick)
unfolding claim_intent get_intent_status leira.Inbox.status_of leira.Inbox.intent_events
    submit_intent append_event leira.Inbox.validate_intent leira.Ledger.canonicalize_payload
    leira.Value.normalize_value leira.Inbox.stored_payload leira.Inbox.is_non_serializable
    leira.Ledger.insert_event leira.Ledger.has_id leira.Inbox.store_intent leira.Table.lookup
    is_intent_event new_event leira.Tests.Toy.shows leira.Claims.claim_artifact
    leira.Claims.claim_done leira.Claims.claim_event leira.Claims.claim_events leira.Claims.claim_of
    leira.Claims.establish_claim get_claim leira.Claims.reject_claim
    leira.Claims.replay_claim_events leira.Claims.replay_from leira.Claims.replay_step
    leira.Claims.upsert_claim_projection leira.Errors.error_name intent_status_by_event_type
    leira.Inbox.submit_done leira.Ledger.compute_event_hash leira.Ledger.hash_input
    leira.Ledger.head_hash leira.Table.upsert leira.Value.get leira.Value.get_non_empty
    leira.Value.get_str leira.Value.put uuid leira.Value.prints
claimed_by_accent = refl

claim_intent_unreleasable_example :
    (release_claim calm
      (uuid 0)
      (str decomposed)
      (claim_intent calm (uuid 0) (str decomposed) submitted_db).1).0
    ≡ release_refused owner_mismatch
unfolding uuid
claim_intent_unreleasable_example =
    claim_intent_unreleasable calm is_plain (toy-IsStandard never) (uuid 0) decomposed submitted_db
      refl refl refl refl refl pending unclaimed claimed_by_accent
