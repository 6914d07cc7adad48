-- ===== src/Sessions/Again.antt =====
-- A second call of `add_intent_to_session` with the same ids.
use mathlib.Core.List.{append_assoc}
use leira.Prelude.{
  ◌≡◌, refl, ◌∙◌, sym, ap, String, Bool, true, Option, none, some, List, [], ◌∷◌, ◌++◌, arith,
  is_some,
}
use leira.Value.{Fields}
use leira.Value.Normal.{value_under}
use leira.Platform.{Platform, IsStandard}
use leira.Errors.{duplicate_membership}
use leira.Ledger.{Db, LedgerEvent}
use leira.Ledger.Payload.{mentions-stored, value_under-known}
use leira.Inbox.{get_intent_status}
use leira.Inbox.Status.{is_some-get_intent_status}
use leira.Sessions.{
  session_intent_added_event, SessionResult, session_failed, membership_fields, session_exists,
  membership_exists, refusal, add_intent_to_session,
}
use leira.Sessions.Members.{
  append_rejection_rows, turned_down, raised, added, add_intent_to_session-Adds,
}

module _ {Text : Type 0} (P : Platform Text) where
  session_exists-append :
      (session_id : String) (es fs : List (LedgerEvent Text))
      → session_exists P session_id es ≡ true
      → session_exists P session_id (es ++ fs) ≡ true
  unfolding session_exists
  session_exists-append session_id [] fs found = cc
  session_exists-append session_id (e ∷ es) fs found =
      ground (arith, session_exists-append session_id es fs)

  -- A row session_intent_added that mentions both ids is found, wherever it stands.
  membership_exists-mentioned :
      (session_id intent_id : String) (es fs : List (LedgerEvent Text)) (e : LedgerEvent Text)
      → e.event_type ≡ session_intent_added_event
      → P.mentions "session_id" session_id e.payload_json ≡ true
      → P.mentions "intent_id" intent_id e.payload_json ≡ true
      → membership_exists P session_id intent_id (es ++ e ∷ fs) ≡ true
  unfolding membership_exists
  membership_exists-mentioned session_id intent_id [] fs e typed names_session names_intent =
      rw (typed, names_session, names_intent) refl
  membership_exists-mentioned session_id intent_id (d ∷ es) fs e typed names_session names_intent =
      ground (
        arith,
        membership_exists-mentioned session_id intent_id es fs e typed names_session names_intent,
      )

  refusal_again :
      (session_id intent_id : String) (db : Db Text)
      → session_exists P session_id db.events ≡ true
      → is_some (get_intent_status P intent_id db) ≡ true
      → membership_exists P session_id intent_id db.events ≡ true
      → refusal P session_id intent_id db ≡ some duplicate_membership
  unfolding refusal
  refusal_again session_id intent_id db known status held = rw (known, status, held) refl

  passed_session :
      (session_id intent_id : String) (db : Db Text)
      → refusal P session_id intent_id db ≡ none
      → (session_exists P session_id db.events ≡ true)
        × (is_some (get_intent_status P intent_id db) ≡ true)
  unfolding refusal
  passed_session session_id intent_id db passed = (ground arith, ground arith)

  -- After a call that reported success for plain ids, every later call with these ids, whatever rows
  -- were added to the ledger in between, answers DUPLICATE_MEMBERSHIP and leaves the two session
  -- tables as they are. The platform is assumed to behave as documented.
  pub add_intent_to_session_again :
      (is_plain : String → Bool) (std : IsStandard P is_plain) (session_id intent_id : String)
      (db later : Db Text) (more : List (LedgerEvent Text)) (res : SessionResult)
      → is_plain session_id ≡ true
      → is_plain intent_id ≡ true
      → (add_intent_to_session P session_id intent_id db).0 ≡ some res
      → res.success ≡ true
      → later.events ≡ (add_intent_to_session P session_id intent_id db).1.events ++ more
      → (let again = add_intent_to_session P session_id intent_id later in
          (again.0 ≡ some (session_failed session_id intent_id duplicate_membership))
          × (again.1.membership_rows ≡ later.membership_rows)
          × (again.1.session_rows ≡ later.session_rows))
  unfolding add_intent_to_session value_under
  add_intent_to_session_again is_plain std session_id intent_id db later more res plain_s plain_i
        answered ok grown =
      elim (add_intent_to_session-Adds P session_id intent_id db) [
        | turned_down x failed members rows ↦
            let no : some (session_failed session_id intent_id x) ≡ some res =
              sym failed ∙ answered in
            absurd (cc)
        | raised failed members rows ↦
            let no : ◌≡◌ {A = Option SessionResult} none (some res) = sym failed ∙ answered in
            absurd (cc)
        | added e row passed typed stored new own its at members done ↦
            let all_rows : later.events ≡ db.events ++ e ∷ more =
              grown ∙ ap (λ es. es ++ more) new ∙ append_assoc db.events (e ∷ []) more in
            let (known, status) = passed_session session_id intent_id db passed in
            let fields : Fields = membership_fields session_id intent_id none in
            let names_session : P.mentions "session_id" session_id e.payload_json ≡ true =
              mentions-stored P is_plain std fields e.payload_json stored "session_id" session_id
                refl (value_under-known P is_plain std "session_id" fields refl) plain_s in
            let names_intent : P.mentions "intent_id" intent_id e.payload_json ≡ true =
              mentions-stored P is_plain std fields e.payload_json stored "intent_id" intent_id refl
                (value_under-known P is_plain std "intent_id" fields refl) plain_i in
            let refused : refusal P session_id intent_id later ≡ some duplicate_membership =
              refusal_again session_id intent_id later
                (ap (session_exists P session_id) all_rows
                  ∙ session_exists-append session_id db.events (e ∷ more) known)
                (is_some-get_intent_status P intent_id db later (e ∷ more) status all_rows)
                (ap (membership_exists P session_id intent_id) all_rows
                  ∙ membership_exists-mentioned session_id intent_id db.events more e typed
                      names_session names_intent) in
            let (kept_members, kept_rows) =
              append_rejection_rows P session_id intent_id later duplicate_membership in
            rw (refused, add_intent_to_session) (refl, kept_members, kept_rows)
      ]
