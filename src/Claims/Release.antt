-- ===== src/Claims/Release.antt =====
-- Who holds an intent after `claim_intent`, and who can give it back with `release_claim`.
use leira.Prelude.{
  ap, arith, ◌≡◌, ◌≢◌, refl, ◌∙◌, sym, String, Bool, true, false, none, some, ◌==◌, eq_iff, eq_refl,
  inl, inr, ◌⊎◌, Bool-cases, Option-cases,
}
use leira.Value.{Value, str, as_non_empty}
use leira.Platform.{Platform, IsStandard}
use leira.Errors.{owner_mismatch, invalid_owner, storage_failure}
use leira.Ledger.{Db}
use leira.Inbox.{get_intent_status}
use leira.Claims.{
  ClaimInfo, claimed, claim_refused, released, release_refused, get_claim, claim_intent,
  release_claim,
}
use leira.Claims.Ownership.{get_claim-reject_release}
use leira.Claims.Rows.{IsHeldBy, establish_claim-outcome, end_claim-outcome}

module _ {Text : Type 0} (P : Platform Text) (is_plain : String → Bool)
    (std : IsStandard P is_plain) where
  -- A pending, unclaimed intent with a plain id, claimed by an owner whose name is not empty, also
  -- not in NFC: either the store failed and it stays unclaimed, or the new claim, with the id that is
  -- returned and the NFC of the owner's name, is the active one.
  -- The platform is assumed to behave as documented.
  pub claim_intent-pending :
      (intent_id owner_id : String) (db : Db Text)
      → is_plain intent_id ≡ true
      → (intent_id == "") ≡ false
      → (owner_id == "") ≡ false
      → (P.nfc owner_id == "") ≡ false
      → get_intent_status P intent_id db ≡ some "PENDING"
      → get_claim P intent_id db ≡ none
      → (let r = claim_intent P intent_id (str owner_id) db in
          ((r.0 ≡ claim_refused storage_failure) × (get_claim P intent_id r.1 ≡ none))
          ⊎ ((r.0 ≡ claimed (P.uuid4 db.tick))
              × IsHeldBy (get_claim P intent_id r.1) (P.uuid4 db.tick) (P.nfc owner_id)))
  unfolding claim_intent
  claim_intent-pending intent_id owner_id db plain filled named o_filled pending idle =
      rw (named, claim_intent)
        (rw (pending, claim_intent)
          (rw (idle, claim_intent)
            (establish_claim-outcome P is_plain std intent_id owner_id db plain filled o_filled
              idle)))

  -- The owner of the active claim of an intent with a plain id can release it, when the ids stored
  -- with the claim are in NFC: either the store failed and it is still held, or nobody holds it.
  -- The platform is assumed to behave as documented.
  pub release_claim-owner :
      (intent_id : String) (active : ClaimInfo) (db : Db Text)
      → is_plain intent_id ≡ true
      → (active.owner_id == "") ≡ false
      → P.nfc active.claim_id ≡ active.claim_id
      → P.nfc active.owner_id ≡ active.owner_id
      → get_claim P intent_id db ≡ some active
      → (let r = release_claim P intent_id (str active.owner_id) db in
          ((r.0 ≡ release_refused storage_failure) × (get_claim P intent_id r.1 ≡ some active))
          ⊎ ((r.0 ≡ released) × (get_claim P intent_id r.1 ≡ none)))
  unfolding release_claim
  release_claim-owner intent_id active db plain named c_nfc o_nfc held =
      rw (named, release_claim)
        (rw (held, release_claim)
          (rw (eq_refl active.owner_id, release_claim)
            (end_claim-outcome P is_plain std intent_id active db plain c_nfc o_nfc held)))

as_non_empty-means :
    (v : Value) (s : String) → as_non_empty v ≡ some s → (v ≡ str s) × ((s == "") ≡ false)
as_non_empty-means v s h = ground arith

apart : (s t : String) → s ≢ t → (s == t) ≡ false
apart s t differ = elim (Bool-cases (s == t)) [
  | inl same ↦ absurd (differ ((eq_iff s t).0 same))
  | inr other ↦ other
]

module _ {Text : Type 0} (P : Platform Text) where
  release_claim-other_text :
      (intent_id owner_id : String) (active : ClaimInfo) (db : Db Text)
      → (owner_id == "") ≡ false
      → (active.owner_id == owner_id) ≡ false
      → get_claim P intent_id db ≡ some active
      → (let r = release_claim P intent_id (str owner_id) db in
          (r.0 ≡ release_refused owner_mismatch) × (get_claim P intent_id r.1 ≡ some active))
  unfolding release_claim
  release_claim-other_text intent_id owner_id active db named other held =
      rw (named, release_claim)
        (rw (held, release_claim)
          (rw (other, release_claim)
            (
              refl,
              get_claim-reject_release P intent_id intent_id (str owner_id) (some active.claim_id)
                    owner_mismatch db
                  ∙ held,
            )))

  -- Who is not the owner of the active claim cannot release it, and the claim stays: `release_claim`
  -- answers INVALID_OWNER to an owner that is not a text or is empty, and OWNER_MISMATCH to any other.
  pub release_claim-other :
      (intent_id : String) (owner_id : Value) (active : ClaimInfo) (db : Db Text)
      → owner_id ≢ str active.owner_id
      → get_claim P intent_id db ≡ some active
      → (let r = release_claim P intent_id owner_id db in
          (r.0
            ≡ release_refused (elim (as_non_empty owner_id) [
              | none ↦ invalid_owner
              | some owner ↦ owner_mismatch
            ]))
          × (get_claim P intent_id r.1 ≡ some active))
  unfolding release_claim
  release_claim-other intent_id owner_id active db other held =
      elim (Option-cases (as_non_empty owner_id)) [
        | inl nobody ↦
            rw (nobody, release_claim)
              (
                refl,
                get_claim-reject_release P intent_id intent_id owner_id none invalid_owner db
                    ∙ held,
              )
        | inr (owner, given) ↦
            let (text, full) = as_non_empty-means owner_id owner given in
            let differs : (active.owner_id == owner) ≡ false =
              apart active.owner_id owner (λ same. other (text ∙ ap str (sym same))) in
            rw (given)
              (rw (text) (release_claim-other_text intent_id owner active db full differs held))
      ]

module _ {Text : Type 0} (P : Platform Text) (is_plain : String → Bool)
    (std : IsStandard P is_plain) where
  -- An owner whose name is not in NFC can claim a pending, unclaimed intent, and is then refused as
  -- OWNER_MISMATCH when releasing it under the same name.
  -- The platform is assumed to behave as documented.
  pub claim_intent_unreleasable :
      (intent_id owner_id : String) (db : Db Text)
      → is_plain intent_id ≡ true
      → (intent_id == "") ≡ false
      → (owner_id == "") ≡ false
      → (P.nfc owner_id == "") ≡ false
      → (P.nfc owner_id == owner_id) ≡ false
      → get_intent_status P intent_id db ≡ some "PENDING"
      → get_claim P intent_id db ≡ none
      → (claim_intent P intent_id (str owner_id) db).0 ≡ claimed (P.uuid4 db.tick)
      → (release_claim P intent_id (str owner_id) (claim_intent P intent_id (str owner_id) db).1).0
        ≡ release_refused owner_mismatch
  claim_intent_unreleasable intent_id owner_id db plain filled named o_filled changed pending idle
        got =
      elim (claim_intent-pending P is_plain std intent_id owner_id db plain filled named o_filled
        pending idle) [
          | inl (failed, now) ↦ absurd (cc)
          | inr (made, (active, held, its, whose)) ↦
              (release_claim-other_text P intent_id owner_id active _ named (rw (whose) changed)
                held).0
        ]
