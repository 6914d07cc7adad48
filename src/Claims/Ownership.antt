-- ===== src/Claims/Ownership.antt =====
-- One owner at a time: what `claim_intent` and `release_claim` do to the active claim.
use leira.Prelude.{
  ap, ◌≡◌, refl, ◌∙◌, String, Bool, true, false, Option, none, some, [], ◌∷◌, arith, ◌==◌, eq_refl,
  contains, inl, inr, Bool-cases, Option-cases,
}
use leira.Value.{Value, Fields, dict, str, get_str, get_non_empty, as_non_empty}
use leira.Value.Normal.{value_under}
use leira.Platform.{Platform, IsStandard}
use leira.Errors.{ErrorType, already_claimed, invalid_owner, unknown_intent, invalid_status}
use leira.Ledger.{Db, LedgerEvent, canonicalize_payload, append_event, new_event}
use leira.Ledger.Append.{wrote, kept, append_event-Appends}
use leira.Ledger.Payload.{loads-stored, mentions-stored, value_under-known}
use leira.Inbox.{get_intent_status}
use leira.Claims.{
  ClaimInfo, ClaimResult, claim_refused, claim_established_event_type, claim_released_event_type,
  claims_worker_id, claim_fields, has_entry, claim_event, get_claim, reject_claim, reject_release,
  claim_intent,
}
use leira.Claims.Replay.{get_claim-snoc}

module _ {Text : Type 0} (P : Platform Text) where
  -- A row of another type is no claim event.
  claim_event_other :
      (intent_id : String) (e : LedgerEvent Text)
      → contains (claim_established_event_type ∷ claim_released_event_type ∷ []) e.event_type
        ≡ false
      → claim_event P intent_id e ≡ none
  unfolding claim_event
  claim_event_other intent_id e other = rw (other, claim_event) refl

  get_claim-append_event :
      (intent_id : String) (t : String) (worker payload : Value) (ah op : Option String)
      (db : Db Text)
      → contains (claim_established_event_type ∷ claim_released_event_type ∷ []) t ≡ false
      → get_claim P intent_id (append_event P (str t) worker payload ah op db).1
        ≡ get_claim P intent_id db
  get_claim-append_event intent_id t worker payload ah op db other =
      elim (append_event-Appends P (str t) worker payload ah op db) [
        | kept x n later made ↦ rw made (unfold get_claim in refl)
        | wrote u w json et ew ej free made ↦
            let e = new_event P u w json ah op db in
            let typed : e.event_type ≡ t = unfold new_event in ground arith in
            get_claim-snoc P intent_id db (append_event P (str t) worker payload ah op db).1 e
              (rw made refl)
            ∙ rw (claim_event_other intent_id e (rw typed other)) refl
      ]

  pub get_claim-reject_claim :
      (i intent_id : String) (owner_id : Value) (x : ErrorType) (db : Db Text)
      → get_claim P i (reject_claim P intent_id owner_id x db) ≡ get_claim P i db
  unfolding reject_claim
  get_claim-reject_claim i intent_id owner_id x db =
      get_claim-append_event i "intent_claim_rejected" (str claims_worker_id) _ none none db refl

  pub get_claim-reject_release :
      (i intent_id : String) (owner_id : Value) (claim_id : Option String) (x : ErrorType)
      (db : Db Text)
      → get_claim P i (reject_release P intent_id owner_id claim_id x db) ≡ get_claim P i db
  unfolding reject_release
  get_claim-reject_release i intent_id owner_id claim_id x db =
      get_claim-append_event i "intent_release_rejected" (str claims_worker_id) _ none none db refl

  -- While an intent is claimed, nobody claims it again: `claim_intent` refuses, whoever asks, and
  -- the active claim stays as it is.
  pub claim_intent_exclusive :
      (intent_id : String) (owner_id : Value) (db : Db Text) (active : ClaimInfo)
      → get_claim P intent_id db ≡ some active
      → (let r = claim_intent P intent_id owner_id db in
          ((x : ErrorType) × (r.0 ≡ claim_refused x)) × (get_claim P intent_id r.1 ≡ some active))
  unfolding claim_intent
  claim_intent_exclusive intent_id owner_id db active held =
      elim (Option-cases (as_non_empty owner_id)) [
        | inl no_owner ↦ rw (no_owner, claim_intent) (refusal invalid_owner)
        | inr (owner, named) ↦ elim (Option-cases (get_intent_status P intent_id db)) [
          | inl unknown ↦
              rw (named, claim_intent) (rw (unknown, claim_intent) (refusal unknown_intent))
          | inr (status, known) ↦ elim (Bool-cases (status == "PENDING")) [
            | inl pending ↦
                rw (named, claim_intent)
                  (rw (known, claim_intent)
                    (rw (pending, claim_intent)
                      (rw (held, claim_intent) (refusal already_claimed))))
            | inr other ↦
                rw (named, claim_intent)
                  (rw (known, claim_intent) (rw (other, claim_intent) (refusal invalid_status)))
          ]
        ]
      ]
    where
      refusal :
          (x : ErrorType)
          → (let r : ClaimResult × Db Text =
                (claim_refused x, reject_claim P intent_id owner_id x db) in
              ((y : ErrorType) × (r.0 ≡ claim_refused y))
              × (get_claim P intent_id r.1 ≡ some active))
      refusal x = ((x, refl), get_claim-reject_claim intent_id intent_id owner_id x db ∙ held)

pub get_non_empty-get_str :
    (k s : String) (fs : Fields)
    → get_str k fs ≡ some s
    → (s == "") ≡ false
    → get_non_empty k fs ≡ some s
unfolding get_str get_non_empty
get_non_empty-get_str k s fs got filled = ground arith

pub has_entry-get_str :
    (k s : String) (fs : Fields) → get_str k fs ≡ some s → has_entry k s fs ≡ true
has_entry-get_str k s fs got = rw (got, has_entry) (eq_refl s)

module _ {Text : Type 0} (P : Platform Text) (is_plain : String → Bool)
    (std : IsStandard P is_plain) where
  -- The row of an established claim or of a release, as `get_claim` reads it.
  pub claim_row :
      (claim_id intent_id owner_id action : String) (e : LedgerEvent Text)
      → contains (claim_established_event_type ∷ claim_released_event_type ∷ []) e.event_type ≡ true
      → canonicalize_payload P (dict (claim_fields claim_id intent_id owner_id action))
        ≡ some e.payload_json
      → is_plain intent_id ≡ true
      → (gs : Fields) × (claim_event P intent_id e
          ≡ some (record {
            event_type = e.event_type;
            payload = gs;
            created_at = e.created_at;
            event_id = e.id;
          }))
        × (get_str "claim_id" gs ≡ some (P.nfc claim_id))
        × (get_str "intent_id" gs ≡ some intent_id)
        × (get_str "owner_id" gs ≡ some (P.nfc owner_id))
  unfolding claim_event value_under
  claim_row claim_id intent_id owner_id action e typed stored plain =
      let fs = claim_fields claim_id intent_id owner_id action in
      let (gs, read, got) = loads-stored P is_plain std fs e.payload_json stored in
      let own : (k s : String)
          → value_under (λ x. x) k fs ≡ some (str s)
          → get_str k gs ≡ some (P.nfc s) =
        λ k s given. got k s (value_under-known P is_plain std k fs refl ∙ given) in
      let named : get_str "intent_id" gs ≡ some intent_id =
        own "intent_id" intent_id refl ∙ ap some (std.nfc_plain intent_id plain) in
      let found : P.mentions "intent_id" intent_id e.payload_json ≡ true =
        mentions-stored P is_plain std fs e.payload_json stored "intent_id" intent_id refl
          (value_under-known P is_plain std "intent_id" fs refl) plain in
      let entry : has_entry "intent_id" intent_id gs ≡ true =
        has_entry-get_str "intent_id" intent_id gs named in
      (
        gs,
        rw (typed, found, claim_event) (rw (read, claim_event) (rw (entry, claim_event) refl)),
        own "claim_id" claim_id refl,
        named,
        own "owner_id" owner_id refl,
      )
