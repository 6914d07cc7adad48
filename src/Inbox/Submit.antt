-- ===== src/Inbox/Submit.antt =====
-- What `submit_intent` records and answers.
use leira.Prelude.{
  ◌+◌, ◌≡◌, refl, ◌∙◌, String, Bool, true, false, Option, none, some, [], ◌∷◌, ◌++◌, arith, ◌&&◌,
  ◌⊎◌, is_some, contains, if◌then◌else◌, inl, inr, Bool-cases, Option-cases,
}
use leira.Value.{Value, dict, str, as_dict, as_non_empty}
use leira.Value.Safe.{is_safe}
use leira.Value.Normal.{value_under}
use leira.Platform.{Platform, IsStandard}
use leira.Errors.{ErrorType, invalid_envelope, is_uncaught}
use leira.Ledger.{Db, LedgerEvent, canonicalize_payload, new_event, appended}
use leira.Ledger.Append.{wrote, kept, append_event-Appends}
use leira.Ledger.Payload.{append_event-unsafe, mentions-stored, value_under-known}
use leira.Inbox.{
  inbox_worker_id, SubmitIntentResult, submit_failed, submitted, submit_status, submit_event_type,
  is_intent_event, get_intent_status, validate_intent, stored_payload, stored_intent_type,
  is_non_serializable, intent_fields, store_intent, submit_done, submit_intent,
  intent_status_by_event_type, intent_ledger_event_types,
}
use leira.Inbox.Status.{get_intent_status-snoc}

-- The status that the event's type stands for is the one that is answered.
recorded_status :
    (x : Option ErrorType) (intent_id : String)
    → (if contains intent_ledger_event_types (submit_event_type x) && true
        then intent_status_by_event_type (submit_event_type x)
        else none)
      ≡ (submitted intent_id x).status
unfolding intent_status_by_event_type
recorded_status none intent_id = refl
recorded_status (some x) intent_id = refl

submit_typed :
    (x : Option ErrorType) → as_non_empty (str (submit_event_type x)) ≡ some (submit_event_type x)
submit_typed none = refl
submit_typed (some x) = refl

module _ {Text : Type 0} (P : Platform Text) where
  -- How `submit_intent` ended.
  pub data Submits (intent_type payload : Value) (db : Db Text)
      (r : Option SubmitIntentResult × Db Text) : Type 0 where
    recorded :
        (e : LedgerEvent Text)
        → e.event_type ≡ submit_event_type (validate_intent P intent_type payload)
        → canonicalize_payload P (
            dict (
              intent_fields P
                (P.uuid4 db.tick)
                intent_type
                payload
                (validate_intent P intent_type payload)))
          ≡ some e.payload_json
        → r.1.events ≡ db.events ++ e ∷ []
        → (r.0 ≡ some (submitted (P.uuid4 db.tick) (validate_intent P intent_type payload)))
          ⊎ ((r.0 ≡ some submit_failed) ⊎ (r.0 ≡ none))
        → Submits intent_type payload db r
    lost :
        r.1.events ≡ db.events
        → (r.0 ≡ some submit_failed) ⊎ (r.0 ≡ none)
        → Submits intent_type payload db r

  module _ (intent_type payload : Value) (db : Db Text) where
    abbrev error_type : Option ErrorType
    error_type = validate_intent P intent_type payload

    submit_done-Submits :
        (e : LedgerEvent Text) (now : Db Text)
        → e.event_type ≡ submit_event_type error_type
        → canonicalize_payload P
            (dict (intent_fields P (P.uuid4 db.tick) intent_type payload error_type))
          ≡ some e.payload_json
        → now.events ≡ db.events ++ e ∷ []
        → Submits intent_type payload db (
            submit_done P
              (P.uuid4 db.tick)
              intent_type
              payload
              error_type
              (appended e.id e.event_hash e.created_at)
              now)
    unfolding submit_done store_intent
    submit_done-Submits e now typed stored grown =
        elim (Option-cases (canonicalize_payload P (stored_payload P error_type payload))) [
          | inl bad ↦ rw (bad, submit_done) (recorded e typed stored grown (inr (inr refl)))
          | inr (json, good) ↦
              rw (good, submit_done)
                (recorded e typed stored (store_intent_grows json) (store_intent_answers json))
        ]
      where
        stored_now : Text → Bool × Db Text
        stored_now json =
            store_intent P (P.uuid4 db.tick) (stored_intent_type P intent_type) json
              (submit_status error_type) e.created_at e.id now

        store_intent_grows : (json : Text) → (stored_now json).1.events ≡ db.events ++ e ∷ []
        store_intent_grows json = ground arith

        store_intent_answers :
            (json : Text)
            → (some (
                  if (stored_now json).0
                  then submitted (P.uuid4 db.tick) error_type
                  else submit_failed)
                ≡ some (submitted (P.uuid4 db.tick) error_type))
              ⊎ ((some (
                      if (stored_now json).0
                      then submitted (P.uuid4 db.tick) error_type
                      else submit_failed)
                    ≡ some submit_failed)
                  ⊎ (◌≡◌ {A = Option SubmitIntentResult}
                      (some (
                        if (stored_now json).0
                        then submitted (P.uuid4 db.tick) error_type
                        else submit_failed))
                      none))
        store_intent_answers json = elim (Bool-cases (stored_now json).0) [
          | inl done ↦ inl (rw done)
          | inr failed ↦ inr (inl (rw failed))
        ]

    pub submit_intent-Submits :
        Submits intent_type payload db (submit_intent P intent_type payload db)
    unfolding submit_intent new_event
    submit_intent-Submits = elim (Bool-cases (is_uncaught error_type)) [
      | inl raised ↦ rw (raised, submit_intent) (lost refl (inr refl))
      | inr fine ↦
          rw (fine, submit_intent)
            (elim (append_event-Appends P (str (submit_event_type error_type)) (str inbox_worker_id)
              (dict (intent_fields P (P.uuid4 db.tick) intent_type payload error_type)) none none
              (record db { tick = db.tick + 1 })) [
                | kept x n later fell ↦ rw (fell) (unfold submit_done in lost refl (fell_back x))
                | wrote t w json et ew ej free made ↦ rw (made) (
                    submit_done-Submits
                      (new_event P t w json none none (record db { tick = db.tick + 1 }))
                      (record db {
                        events =
                            db.events
                            ++ new_event P t w json none none (record db { tick = db.tick + 1 })
                              ∷ [];
                        tick = db.tick + 1 + 3;
                      })
                      (ground arith) ej refl)
              ])
    ]
      where
        fell_back :
            (x : ErrorType)
            → ((if is_uncaught (some x) then none else some submit_failed) ≡ some submit_failed)
              ⊎ ((if is_uncaught (some x) then none else some submit_failed) ≡ none)
        fell_back x = elim (Bool-cases (is_uncaught (some x))) [
          | inl raised ↦ inr (rw raised)
          | inr fine ↦ inl (rw fine)
        ]

    bad_type :
        as_non_empty intent_type ≡ none
        → is_some (as_dict payload) ≡ true
        → error_type ≡ some invalid_envelope
    unfolding validate_intent
    bad_type no_type a_dict = ground arith

    unsafe_fields :
        (intent_id : String) (x : Option ErrorType)
        → x ≡ some invalid_envelope
        → is_some (as_dict payload) ≡ true
        → is_safe payload ≡ false
        → is_safe (dict (intent_fields P intent_id intent_type payload x)) ≡ true
        → ⊥
    unfolding stored_payload is_safe is_non_serializable
    unsafe_fields intent_id x is_bad a_dict unsafe safe = ground arith

    -- A malformed type together with a dict that JSON cannot say: the event itself cannot be
    -- stored, and the answer is a storage failure with no row at all, not a recorded rejection.
    pub submit_intent_unrecorded :
        as_non_empty intent_type ≡ none
        → is_some (as_dict payload) ≡ true
        → is_safe payload ≡ false
        → (let r = submit_intent P intent_type payload db in
            (r.0 ≡ some submit_failed) × (r.1.events ≡ db.events))
    unfolding submit_intent submit_done
    submit_intent_unrecorded no_type a_dict unsafe =
        let fs = intent_fields P (P.uuid4 db.tick) intent_type payload error_type in
        let invalid = bad_type no_type a_dict in
        let bad : is_safe (dict fs) ≡ false = elim (Bool-cases (is_safe (dict fs))) [
          | inr bad ↦ bad
          | inl safe ↦
              absurd (unsafe_fields (P.uuid4 db.tick) error_type invalid a_dict unsafe safe)
        ] in
        let refusal =
          append_event-unsafe P (submit_event_type error_type) inbox_worker_id fs none none
            (record db { tick = db.tick + 1 }) (submit_typed error_type) refl bad in
        let fine : is_uncaught error_type ≡ false = rw (invalid) refl in
        rw (fine, submit_intent) (rw (refusal) (refl, refl))

  module _ (is_plain : String → Bool) (std : IsStandard P is_plain) where
    intent_fields-own :
        (intent_id : String) (intent_type payload : Value) (x : Option ErrorType)
        → value_under P.nfc "intent_id" (intent_fields P intent_id intent_type payload x)
          ≡ some (str intent_id)
    unfolding value_under
    intent_fields-own intent_id intent_type payload x =
        value_under-known P is_plain std "intent_id"
          (intent_fields P intent_id intent_type payload x) refl

    -- An intent that the ledger does not know has, once `submit_intent` has answered with its id,
    -- the status of that answer: PENDING if it was accepted, REJECTED if not.
    -- The platform is assumed to behave as documented.
    pub get_intent_status-submit_intent :
        (intent_type payload : Value) (db : Db Text) (answer : SubmitIntentResult)
        → get_intent_status P (P.uuid4 db.tick) db ≡ none
        → (submit_intent P intent_type payload db).0 ≡ some answer
        → answer.intent_id ≡ some (P.uuid4 db.tick)
        → get_intent_status P (P.uuid4 db.tick) (submit_intent P intent_type payload db).1
          ≡ answer.status
    unfolding is_intent_event intent_status_by_event_type
    get_intent_status-submit_intent intent_type payload db answer new answered named =
        elim (submit_intent-Submits intent_type payload db) [
          | lost same (inl failed) ↦ ground arith
          | lost same (inr raised) ↦ cc (raised, answered)
          | recorded e typed stored grown (inr (inl failed)) ↦ ground arith
          | recorded e typed stored grown (inr (inr raised)) ↦ cc (raised, answered)
          | recorded e typed stored grown (inl done) ↦
              let found : P.mentions "intent_id" (P.uuid4 db.tick) e.payload_json ≡ true =
                mentions-stored P is_plain std
                  (intent_fields P (P.uuid4 db.tick) intent_type payload
                    (validate_intent P intent_type payload))
                  e.payload_json stored "intent_id" (P.uuid4 db.tick) refl
                  (intent_fields-own (P.uuid4 db.tick) intent_type payload
                    (validate_intent P intent_type payload))
                  (std.uuid4_plain db.tick) in
              get_intent_status-snoc P (P.uuid4 db.tick) db
                (submit_intent P intent_type payload db).1 e grown
              ∙ rw (new, found, typed)
                  (recorded_status (validate_intent P intent_type payload) (P.uuid4 db.tick)
                    ∙ ground arith)
        ]
