-- ===== src/Sessions/Members.antt =====
-- What `add_intent_to_session` does to the tables and to its own later calls.
use leira.Prelude.{
  subst, ◌+◌, ◌≡◌, refl, ◌∙◌, sym, ap, String, true, ◌||◌, Option, none, some, [], ◌∷◌, ◌++◌, arith,
  ◌==◌, length, if◌then◌else◌, inl, inr, ◌⊎◌, Bool-cases, Option-cases,
}
use leira.Value.{str, dict}
use leira.Platform.{Platform}
use leira.Errors.{ErrorType, storage_failure}
use leira.Rows.{MembershipRow}
use leira.Ledger.{Db, LedgerEvent, canonicalize_payload, new_event, appended}
use leira.Ledger.Append.{wrote, kept, append_event-Appends}
use leira.Sessions.{
  sessions_worker_id, session_intent_added_event, session_intent_rejected_event, SessionResult,
  session_failed, membership_fields, list_session_intents, has_member, append_rejection,
  store_member, add_done, add_member, refusal, add_intent_to_session,
}
use leira.Sessions.Order.{IsNumbered, IsNumbered-snoc, list_session_intents-snoc}

module _ {Text : Type 0} (P : Platform Text) where
  -- How `add_intent_to_session` ended.
  pub data Adds (session_id intent_id : String) (db : Db Text) (r : Option SessionResult × Db Text)
      : Type 0 where
    turned_down :
        (x : ErrorType)
        → r.0 ≡ some (session_failed session_id intent_id x)
        → r.1.membership_rows ≡ db.membership_rows
        → r.1.session_rows ≡ db.session_rows
        → Adds session_id intent_id db r
    raised :
        r.0 ≡ none
        → r.1.membership_rows ≡ db.membership_rows
        → r.1.session_rows ≡ db.session_rows
        → Adds session_id intent_id db r
    added :
        (e : LedgerEvent Text) (row : MembershipRow)
        → refusal P session_id intent_id db ≡ none
        → e.event_type ≡ session_intent_added_event
        → canonicalize_payload P (dict (membership_fields session_id intent_id none))
          ≡ some e.payload_json
        → r.1.events ≡ db.events ++ e ∷ []
        → row.session_id ≡ session_id
        → row.intent_id ≡ intent_id
        → row.membership_order ≡ length (list_session_intents session_id db.membership_rows) + 1
        → r.1.membership_rows ≡ db.membership_rows ++ row ∷ []
        → r.0
          ≡ some (record {
            success = true;
            session_id = some session_id;
            intent_id = some intent_id;
            error_type = none;
          })
        → Adds session_id intent_id db r

  module _ (session_id intent_id : String) (db : Db Text) where
    pub append_rejection_rows :
        (x : ErrorType)
        → ((append_rejection P session_id intent_id x db).membership_rows ≡ db.membership_rows)
          × ((append_rejection P session_id intent_id x db).session_rows ≡ db.session_rows)
    unfolding append_rejection
    append_rejection_rows x =
        elim (append_event-Appends P (str session_intent_rejected_event) (str sessions_worker_id)
          (dict (membership_fields session_id intent_id (some x))) none none db) [
            | kept y n later made ↦ rw (made, append_rejection) (refl, refl)
            | wrote t w json et ew ej free made ↦ rw (made, append_rejection) (refl, refl)
          ]

    add_done-Adds :
        (e : LedgerEvent Text) (now : Db Text)
        → refusal P session_id intent_id db ≡ none
        → e.event_type ≡ session_intent_added_event
        → canonicalize_payload P (dict (membership_fields session_id intent_id none))
          ≡ some e.payload_json
        → now.events ≡ db.events ++ e ∷ []
        → now.membership_rows ≡ db.membership_rows
        → now.session_rows ≡ db.session_rows
        → Adds session_id intent_id db
            (add_done P session_id intent_id (appended e.id e.event_hash e.created_at) now)
    unfolding add_done store_member
    add_done-Adds e now passed typed stored grown same rows =
        let row : MembershipRow = record {
          session_id = session_id;
          intent_id = intent_id;
          membership_order = length (list_session_intents session_id now.membership_rows) + 1;
          created_at = e.created_at;
          last_event_id = e.id;
        } in
        elim (Bool-cases
          (P.fails now.tick || has_member session_id intent_id now.membership_rows)) [
            | inl bad ↦ rw (bad, add_done, store_member) (raised refl same rows)
            | inr fine ↦
                rw (fine, add_done, store_member)
                  (added e row passed typed stored grown refl refl
                    (ap (λ m. length (list_session_intents session_id m) + 1) same)
                    (ap (λ m. m ++ row ∷ []) same) refl)
          ]

    add_member-Adds :
        refusal P session_id intent_id db ≡ none
        → Adds session_id intent_id db (add_member P session_id intent_id db)
    unfolding add_member add_done
    add_member-Adds passed =
        elim (append_event-Appends P (str session_intent_added_event) (str sessions_worker_id)
          (dict (membership_fields session_id intent_id none)) none none db) [
            | kept x n later made ↦
                rw (made, add_member) (turned_down storage_failure refl refl refl)
            | wrote t w json et ew ej free made ↦
                let typed : t ≡ session_intent_added_event = ground arith in
                rw (made, add_member)
                  (add_done-Adds (new_event P t w json none none db) _ passed
                    (unfold new_event in typed) (unfold new_event in ej) refl refl refl)
          ]

    pub add_intent_to_session-Adds :
        Adds session_id intent_id db (add_intent_to_session P session_id intent_id db)
    unfolding add_intent_to_session
    add_intent_to_session-Adds = elim (Option-cases (refusal P session_id intent_id db)) [
      | inr (x, refused) ↦
          let (members, rows) = append_rejection_rows x in
          rw (refused, add_intent_to_session) (turned_down x refl members rows)
      | inl passed ↦ rw (passed, add_intent_to_session) (add_member-Adds passed)
    ]

    -- The lists after a call of `add_intent_to_session`, where the members of each session are
    -- numbered 1, 2, … in the table: they are numbered so again; if the call reports success, the
    -- session lists the intent behind those that it listed before and every other session lists what
    -- it did; if it reports a failure or raises, nothing that is listed changes.
    pub list_session_intents-add_intent_to_session :
        IsNumbered db.membership_rows
        → (let r = add_intent_to_session P session_id intent_id db in
            IsNumbered r.1.membership_rows
            × (((r.0
                    ≡ some (record {
                      success = true;
                      session_id = some session_id;
                      intent_id = some intent_id;
                      error_type = none;
                    }))
                  × ((k : String)
                      → list_session_intents k r.1.membership_rows ≡ (
                          if session_id == k
                          then list_session_intents k db.membership_rows ++ intent_id ∷ []
                          else list_session_intents k db.membership_rows)))
                ⊎ (((r.0 ≡ none)
                      ⊎ ((x : ErrorType) × (r.0 ≡ some (session_failed session_id intent_id x))))
                    × ((k : String)
                        → list_session_intents k r.1.membership_rows
                          ≡ list_session_intents k db.membership_rows))))
    list_session_intents-add_intent_to_session numbered = elim (add_intent_to_session-Adds) [
      | turned_down x failed members rows ↦ (
        subst IsNumbered (sym members) numbered,
        inr (inr (x, failed), λ k. ap (list_session_intents k) members),
      )
      | raised failed members rows ↦ (
        subst IsNumbered (sym members) numbered,
        inr (inl failed, λ k. ap (list_session_intents k) members),
      )
      | added e row passed typed stored grown own its at members ok ↦
          let next : row.membership_order
              ≡ length (list_session_intents row.session_id db.membership_rows) + 1 =
            at ∙ ap (λ s. length (list_session_intents s db.membership_rows) + 1) (sym own) in
          (
            subst IsNumbered (sym members) (IsNumbered-snoc db.membership_rows row numbered next),
            inl (
              ok,
              λ k.
                  ap (list_session_intents k) members
                  ∙ list_session_intents-snoc db.membership_rows row k numbered next
                  ∙ ap
                      (λ s.
                        if s == k
                        then list_session_intents k db.membership_rows ++ row.intent_id ∷ []
                        else list_session_intents k db.membership_rows)
                      own
                  ∙ ap
                      (λ i.
                        if session_id == k
                        then list_session_intents k db.membership_rows ++ i ∷ []
                        else list_session_intents k db.membership_rows)
                      its,
            ),
          )
    ]
