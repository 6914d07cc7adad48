-- ===== src/Inbox/Status.antt =====
-- How an intent's status follows the ledger.
use leira.Prelude.{
  ◌≡◌, refl, ◌∙◌, is_some, eq_iff, String, true, false, Option, none, some, List, [], ◌∷◌, ◌++◌,
  arith, keep-append, keep-snoc, if◌then◌else◌, inl, inr, Bool-cases,
}
use leira.Platform.{Platform}
use leira.Ledger.{Db, LedgerEvent}
use leira.Inbox.{
  is_terminal, has_ended, intent_status_by_event_type, status_of, is_intent_event, intent_events,
  get_intent_status,
}

module _ {Text : Type 0} where
  status_of-append :
      (status : Option String) (es fs : List (LedgerEvent Text))
      → has_ended status ≡ false
      → status_of status (es ++ fs) ≡ (
          if has_ended (status_of status es)
          then status_of status es
          else status_of (status_of status es) fs)
  unfolding status_of
  status_of-append status [] fs open_yet = rw open_yet
  status_of-append status (e ∷ es) fs open_yet =
      elim (Bool-cases (has_ended (intent_status_by_event_type e.event_type))) [
        | inl over ↦ rw over (rw over refl)
        | inr goes_on ↦
            rw goes_on (status_of-append (intent_status_by_event_type e.event_type) es fs goes_on)
      ]

  status_of_one :
      (status : Option String) (e : LedgerEvent Text)
      → status_of status (e ∷ []) ≡ intent_status_by_event_type e.event_type
  unfolding status_of
  status_of_one status e = ground arith

module _ {Text : Type 0} (P : Platform Text) where
  pub intent_events-append :
      (intent_id : String) (es fs : List (LedgerEvent Text))
      → intent_events P intent_id (es ++ fs)
        ≡ intent_events P intent_id es ++ intent_events P intent_id fs
  unfolding intent_events
  intent_events-append intent_id es fs = keep-append (is_intent_event P intent_id) es fs

  intent_events_snoc :
      (intent_id : String) (es : List (LedgerEvent Text)) (e : LedgerEvent Text)
      → intent_events P intent_id (es ++ e ∷ []) ≡ (
          if is_intent_event P intent_id e
          then intent_events P intent_id es ++ e ∷ []
          else intent_events P intent_id es)
  unfolding intent_events
  intent_events_snoc intent_id es e = keep-snoc (is_intent_event P intent_id) es e

  -- COMPLETED, FAILED and REJECTED are for good: whatever rows follow, `get_intent_status` goes on
  -- answering with the terminal status that it answered once.
  pub get_intent_status-append_terminal :
      (intent_id : String) (db later : Db Text) (more : List (LedgerEvent Text)) (s : String)
      → get_intent_status P intent_id db ≡ some s
      → is_terminal s ≡ true
      → later.events ≡ db.events ++ more
      → get_intent_status P intent_id later ≡ some s
  unfolding get_intent_status
  get_intent_status-append_terminal intent_id db later more s h over grown =
      rw (grown, intent_events-append)
        (status_of-append none (intent_events P intent_id db.events)
            (intent_events P intent_id more) refl
          ∙ rw h (rw over refl))

  -- One more row: the status changes only if the row is an intent event that names the intent and
  -- the intent has not ended, and then to the status that the row's type stands for.
  pub get_intent_status-snoc :
      (intent_id : String) (db later : Db Text) (e : LedgerEvent Text)
      → later.events ≡ db.events ++ e ∷ []
      → get_intent_status P intent_id later ≡ (
          if has_ended (get_intent_status P intent_id db)
          then get_intent_status P intent_id db
          else if is_intent_event P intent_id e
          then intent_status_by_event_type e.event_type
          else get_intent_status P intent_id db)
  unfolding get_intent_status
  get_intent_status-snoc intent_id db later e grown =
      let before = intent_events P intent_id db.events in
      rw (grown, intent_events_snoc)
        (elim (Bool-cases (is_intent_event P intent_id e)) [
          | inr other ↦ rw other (ground arith)
          | inl named ↦ rw (named, status_of-append none before (e ∷ []) refl, status_of_one) refl
        ])

  known_status :
      (intent_id : String) (e : LedgerEvent Text)
      → is_intent_event P intent_id e ≡ true
      → is_some (intent_status_by_event_type e.event_type) ≡ true
  unfolding is_intent_event intent_status_by_event_type
  known_status intent_id e ours = ground (
    arith,
    eq_iff "intent_submitted" e.event_type,
    eq_iff e.event_type "intent_submitted",
    eq_iff "intent_rejected" e.event_type,
    eq_iff e.event_type "intent_rejected",
    eq_iff "intent_claimed" e.event_type,
    eq_iff e.event_type "intent_claimed",
    eq_iff "intent_completed" e.event_type,
    eq_iff e.event_type "intent_completed",
    eq_iff "intent_failed" e.event_type,
    eq_iff e.event_type "intent_failed",
  )

  is_some-status_of :
      (intent_id : String) (status : Option String) (es : List (LedgerEvent Text))
      → is_some status ≡ true
      → is_some (status_of status (intent_events P intent_id es)) ≡ true
  unfolding status_of intent_events
  is_some-status_of intent_id status [] has = has
  is_some-status_of intent_id status (e ∷ es) has =
      elim (Bool-cases (is_intent_event P intent_id e)) [
        | inr other ↦ rw (other) (is_some-status_of intent_id status es has)
        | inl ours ↦
            let known = known_status intent_id e ours in
            rw (ours) (elim (Bool-cases (has_ended (intent_status_by_event_type e.event_type))) [
              | inl over ↦ rw (over) known
              | inr goes_on ↦
                  rw (goes_on) (
                    is_some-status_of intent_id (intent_status_by_event_type e.event_type) es known)
            ])
      ]

  -- An intent that has a status has one whatever rows follow.
  pub is_some-get_intent_status :
      (intent_id : String) (db later : Db Text) (more : List (LedgerEvent Text))
      → is_some (get_intent_status P intent_id db) ≡ true
      → later.events ≡ db.events ++ more
      → is_some (get_intent_status P intent_id later) ≡ true
  unfolding get_intent_status
  is_some-get_intent_status intent_id db later more has grown =
      let old = intent_events P intent_id db.events in
      rw (grown, intent_events-append intent_id db.events more)
        (rw (status_of-append none old (intent_events P intent_id more) refl)
          (elim (Bool-cases (has_ended (status_of none old))) [
            | inl over ↦ rw (over) has
            | inr goes_on ↦ rw (goes_on) (is_some-status_of intent_id (status_of none old) more has)
          ]))
