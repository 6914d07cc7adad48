-- ===== src/Claims/Replay.antt =====
-- How the active claim follows the ledger, row by row.
use leira.Prelude.{
  ◌≡◌, refl, String, Option, none, some, List, [], ◌∷◌, ◌++◌, inl, inr, Option-cases,
}
use leira.Platform.{Platform}
use leira.Ledger.{Db, LedgerEvent}
use leira.Claims.{
  ClaimEvent, ClaimInfo, replay_step, replay_from, replay_claim_events, claim_event, claim_events,
  get_claim,
}

replay_from-append :
    (active : Option ClaimInfo) (es fs : List ClaimEvent)
    → replay_from active (es ++ fs) ≡ replay_from (replay_from active es) fs
unfolding replay_from
replay_from-append active [] fs = refl
replay_from-append active (e ∷ es) fs = replay_from-append (replay_step active e) es fs

abbrev pub after_event : Option ClaimEvent → Option ClaimInfo → Option ClaimInfo
after_event none active = active
after_event (some c) active = replay_step active c

module _ {Text : Type 0} (P : Platform Text) where
  -- What one row makes of the active claim of an intent.
  abbrev pub after_row : String → LedgerEvent Text → Option ClaimInfo → Option ClaimInfo
  after_row intent_id e active = after_event (claim_event P intent_id e) active

  replay-claim_events :
      (intent_id : String) (active : Option ClaimInfo) (es : List (LedgerEvent Text))
      (e : LedgerEvent Text)
      → replay_from active (claim_events P intent_id (es ++ e ∷ []))
        ≡ after_row intent_id e (replay_from active (claim_events P intent_id es))
  unfolding claim_events replay_from
  replay-claim_events intent_id active [] e = elim (Option-cases (claim_event P intent_id e)) [
    | inl other ↦ rw (other, claim_events) refl
    | inr (c, is_claim) ↦ rw (is_claim, claim_events) refl
  ]
  replay-claim_events intent_id active (x ∷ es) e =
      elim (Option-cases (claim_event P intent_id x)) [
        | inl other ↦ rw (other, claim_events) (replay-claim_events intent_id active es e)
        | inr (c, is_claim) ↦
            rw (is_claim, claim_events) (replay-claim_events intent_id (replay_step active c) es e)
      ]

  -- One more row in the ledger is one more step of the replay.
  pub get_claim-snoc :
      (intent_id : String) (db later : Db Text) (e : LedgerEvent Text)
      → later.events ≡ db.events ++ e ∷ []
      → get_claim P intent_id later ≡ after_row intent_id e (get_claim P intent_id db)
  unfolding get_claim replay_claim_events
  get_claim-snoc intent_id db later e grown =
      rw (grown) (replay-claim_events intent_id none db.events e)
