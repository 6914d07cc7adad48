-- ===== src/Claims/Rows.antt =====
-- What the rows that `claim_intent` and `release_claim` add do to the active claim.
use leira.Prelude.{
  ap, ◌+◌, ◌≡◌, refl, ◌∙◌, String, Bool, true, false, Option, none, some, [], ◌∷◌, ◌++◌, arith,
  ◌==◌, eq_iff, inl, inr, Bool-cases, ◌≢◌, ◌⊎◌,
}
use leira.Value.{Value, dict, str}
use leira.Platform.{Platform, IsStandard}
use leira.Errors.{storage_failure}
use leira.Ledger.{Db, LedgerEvent, appended, canonicalize_payload, new_event}
use leira.Ledger.Append.{wrote, kept, append_event-Appends}
use leira.Claims.{
  ClaimInfo, claimed, claim_refused, released, release_refused, claim_established_event_type,
  claim_released_event_type, claims_worker_id, claim_fields, claim_of, replay_step, get_claim,
  upsert_claim_projection, clear_claim_projection, claim_done, establish_claim, end_claim,
  release_done,
}
use leira.Claims.Replay.{after_row, get_claim-snoc}
use leira.Claims.Ownership.{claim_row, get_non_empty-get_str, has_entry-get_str}

-- The claim that `claim_intent` records.
abbrev pub IsHeldBy : Option ClaimInfo → String → String → Type 0
IsHeldBy r claim_id owner_id =
    (active : ClaimInfo) × (r ≡ some active)
    × (active.claim_id ≡ claim_id)
    × (active.owner_id ≡ owner_id)

filled_text : (s : String) → s ≢ "" → (s == "") ≡ false
filled_text s filled = elim (Bool-cases (s == "")) [
  | inl e ↦ absurd (filled ((eq_iff s "").0 e))
  | inr e ↦ e
]

module _ {Text : Type 0} (P : Platform Text) where
  get_claim-events :
      (i : String) (db later : Db Text)
      → later.events ≡ db.events
      → get_claim P i later ≡ get_claim P i db
  unfolding get_claim
  get_claim-events i db later same = rw (same) refl

  claim_done-appended :
      (i c intent_id owner eid h at : String) (db : Db Text)
      → (get_claim P i (claim_done P c intent_id owner (appended eid h at) db).1 ≡ get_claim P i db)
        × ((claim_done P c intent_id owner (appended eid h at) db).0 ≡ claimed c)
  unfolding claim_done upsert_claim_projection
  claim_done-appended i c intent_id owner eid h at db = elim (Bool-cases (P.fails db.tick)) [
    | inl e ↦ (rw (e, upsert_claim_projection) (unfold get_claim in refl), refl)
    | inr e ↦ (rw (e, upsert_claim_projection) (unfold get_claim in refl), refl)
  ]

  release_done-appended :
      (i intent_id eid h at : String) (db : Db Text)
      → (get_claim P i (release_done P intent_id (appended eid h at) db).1 ≡ get_claim P i db)
        × ((release_done P intent_id (appended eid h at) db).0 ≡ released)
  unfolding release_done clear_claim_projection
  release_done-appended i intent_id eid h at db = elim (Bool-cases (P.fails db.tick)) [
    | inl e ↦ (rw (e, clear_claim_projection) (unfold get_claim in refl), refl)
    | inr e ↦ (rw (e, clear_claim_projection) (unfold get_claim in refl), refl)
  ]

module _ {Text : Type 0} (P : Platform Text) (is_plain : String → Bool)
    (std : IsStandard P is_plain) where
  -- A row that establishes a claim makes it the active one when there was none.
  after_established :
      (claim_id intent_id owner_id : String) (e : LedgerEvent Text)
      → e.event_type ≡ claim_established_event_type
      → canonicalize_payload P (dict (claim_fields claim_id intent_id owner_id "CLAIMED"))
        ≡ some e.payload_json
      → is_plain intent_id ≡ true
      → (intent_id == "") ≡ false
      → (P.nfc claim_id == "") ≡ false
      → (P.nfc owner_id == "") ≡ false
      → IsHeldBy (after_row P intent_id e none) (P.nfc claim_id) (P.nfc owner_id)
  unfolding claim_of replay_step
  after_established claim_id intent_id owner_id e typed stored plain i_filled c_filled o_filled =
      let (gs, row, c, i, o) =
        claim_row P is_plain std claim_id intent_id owner_id "CLAIMED" e (rw (typed) refl) stored
          plain in
      let c' = get_non_empty-get_str "claim_id" _ gs c c_filled in
      let i' = get_non_empty-get_str "intent_id" _ gs i i_filled in
      let o' = get_non_empty-get_str "owner_id" _ gs o o_filled in
      (
        record {
          intent_id = intent_id;
          claim_id = P.nfc claim_id;
          owner_id = P.nfc owner_id;
          claimed_at = e.created_at;
          last_event_id = e.id;
        },
        rw (row) (
            rw (typed, replay_step)
              (rw (c', claim_of) (rw (o', claim_of) (rw (i', claim_of) refl)))),
        refl,
        refl,
      )

  -- A row that releases the active claim, with its claim id and owner, ends it.
  after_released :
      (intent_id : String) (active : ClaimInfo) (e : LedgerEvent Text)
      → e.event_type ≡ claim_released_event_type
      → canonicalize_payload P
          (dict (claim_fields active.claim_id intent_id active.owner_id "RELEASED"))
        ≡ some e.payload_json
      → is_plain intent_id ≡ true
      → P.nfc active.claim_id ≡ active.claim_id
      → P.nfc active.owner_id ≡ active.owner_id
      → after_row P intent_id e (some active) ≡ none
  unfolding replay_step
  after_released intent_id active e typed stored plain c_nfc o_nfc =
      let (gs, row, c, i, o) =
        claim_row P is_plain std active.claim_id intent_id active.owner_id "RELEASED" e
          (rw (typed) refl) stored plain in
      let c' = has_entry-get_str "claim_id" active.claim_id gs (c ∙ ap some c_nfc) in
      let o' = has_entry-get_str "owner_id" active.owner_id gs (o ∙ ap some o_nfc) in
      rw (row) (rw (typed, replay_step) (rw (c', replay_step) (rw (o', replay_step) refl)))

  pub establish_claim-outcome :
      (intent_id owner_id : String) (db : Db Text)
      → is_plain intent_id ≡ true
      → (intent_id == "") ≡ false
      → (P.nfc owner_id == "") ≡ false
      → get_claim P intent_id db ≡ none
      → (let r = establish_claim P intent_id owner_id db in
          ((r.0 ≡ claim_refused storage_failure) × (get_claim P intent_id r.1 ≡ none))
          ⊎ ((r.0 ≡ claimed (P.uuid4 db.tick))
              × IsHeldBy (get_claim P intent_id r.1) (P.uuid4 db.tick) (P.nfc owner_id)))
  unfolding establish_claim claim_done
  establish_claim-outcome intent_id owner_id db plain filled o_filled idle =
      let c = P.uuid4 db.tick in
      let c_nfc : P.nfc c ≡ c = std.nfc_plain c (std.uuid4_plain db.tick) in
      let ready : Db Text = record db { tick = db.tick + 1 } in
      let payload : Value = dict (claim_fields c intent_id owner_id "CLAIMED") in
      elim (append_event-Appends P (str claim_established_event_type) (str claims_worker_id) payload
        none none ready) [
          | kept x n later made ↦
              rw (made, establish_claim) (inl (refl, get_claim-events P intent_id db _ refl ∙ idle))
          | wrote t w json et ew ej free made ↦
              let e = new_event P t w json none none ready in
              let typed : e.event_type ≡ claim_established_event_type =
                unfold new_event in ground arith in
              let body : e.payload_json ≡ json = unfold new_event in refl in
              let c_filled : (P.nfc c == "") ≡ false =
                rw (c_nfc) (filled_text c (std.uuid4_ne_empty db.tick)) in
              let later : Db Text = record ready {
                events = db.events ++ e ∷ [];
                tick = ready.tick + 3;
              } in
              let grown = get_claim-snoc P intent_id db later e refl in
              let (active, now, its, whose) =
                after_established c intent_id owner_id e typed (rw (body) ej) plain filled c_filled
                  o_filled in
              let (same, done) =
                claim_done-appended P intent_id c intent_id owner_id e.id e.event_hash e.created_at
                  later in
              rw (made, establish_claim)
                (inr (done, (active, same ∙ grown ∙ rw (idle) now, its ∙ c_nfc, whose)))
        ]

  pub end_claim-outcome :
      (intent_id : String) (active : ClaimInfo) (db : Db Text)
      → is_plain intent_id ≡ true
      → P.nfc active.claim_id ≡ active.claim_id
      → P.nfc active.owner_id ≡ active.owner_id
      → get_claim P intent_id db ≡ some active
      → (let r = end_claim P intent_id active active.owner_id db in
          ((r.0 ≡ release_refused storage_failure) × (get_claim P intent_id r.1 ≡ some active))
          ⊎ ((r.0 ≡ released) × (get_claim P intent_id r.1 ≡ none)))
  unfolding end_claim release_done
  end_claim-outcome intent_id active db plain c_nfc o_nfc held =
      let payload : Value =
        dict (claim_fields active.claim_id intent_id active.owner_id "RELEASED") in
      elim (append_event-Appends P (str claim_released_event_type) (str claims_worker_id) payload
        none none db) [
          | kept x n later made ↦
              rw (made, end_claim) (inl (refl, get_claim-events P intent_id db _ refl ∙ held))
          | wrote t w json et ew ej free made ↦
              let e = new_event P t w json none none db in
              let typed : e.event_type ≡ claim_released_event_type =
                unfold new_event in ground arith in
              let body : e.payload_json ≡ json = unfold new_event in refl in
              let later : Db Text = record db {
                events = db.events ++ e ∷ [];
                tick = db.tick + 3;
              } in
              let grown = get_claim-snoc P intent_id db later e refl in
              let ended =
                after_released intent_id active e typed (rw (body) ej) plain c_nfc o_nfc in
              let (same, done) =
                release_done-appended P intent_id intent_id e.id e.event_hash e.created_at later in
              rw (made, end_claim) (inr (done, same ∙ grown ∙ rw (held) ended))
        ]
