-- ===== src/Lifecycle/Trace.antt =====
-- The history of one run, as the ledger shows it, and its beginnings.
use leira.Prelude.{
  ℕ, ◌+◌, ◌≡◌, refl, inl, inr, String, Bool, true, false, Option, none, some, List, [], ◌∷◌, ◌++◌,
  arith, eq_iff, contains, last, Bool-cases, Option-cases, ap,
}
use leira.Value.{Fields, str, dict, put, as_non_empty}
use leira.Platform.{Platform}
use leira.Ledger.{Db, LedgerEvent, canonicalize_payload, new_event}
use leira.Ledger.Append.{wrote, kept, append_event-Appends}
use leira.Projection.{update_from_event}
use leira.Lifecycle.{
  allowed_transitions, appendable_run_events, lifecycle_worker_id, LifecycleResult, extra_fields,
  get_run_state, update_projection, append_done, append_from, append_lifecycle_event,
}

-- The beginnings of run_created, state_running, artifact_written, state_completed.
pub data IsHistory (t : List String) : Type 0 where
  unseen : t ≡ [] → IsHistory t
  created : t ≡ "run_created" ∷ [] → IsHistory t
  running : t ≡ "run_created" ∷ "state_running" ∷ [] → IsHistory t
  written : t ≡ "run_created" ∷ "state_running" ∷ "artifact_written" ∷ [] → IsHistory t
  completed :
      t ≡ "run_created" ∷ "state_running" ∷ "artifact_written" ∷ "state_completed" ∷ []
      → IsHistory t

pub one_of : (x y : String) → contains (y ∷ []) x ≡ true → x ≡ y
one_of x y h = ground (arith, eq_iff y x)

-- A transition that the table allows leads from a beginning to a longer one.
pub IsHistory-snoc :
    (t : List String) (s x : String)
    → IsHistory t
    → last t ≡ some s
    → contains (allowed_transitions s) x ≡ true
    → IsHistory (t ++ x ∷ [])
unfolding allowed_transitions
IsHistory-snoc t s x (unseen e) l a = cc (ap last e)
IsHistory-snoc t s x (created e) l a =
    let es : s ≡ "run_created" = cc (ap last e) in
    running (rw (e, one_of x "state_running" (rw es at a)) refl)
IsHistory-snoc t s x (running e) l a =
    let es : s ≡ "state_running" = cc (ap last e) in
    written (rw (e, one_of x "artifact_written" (rw es at a)) refl)
IsHistory-snoc t s x (written e) l a =
    let es : s ≡ "artifact_written" = cc (ap last e) in
    completed (rw (e, one_of x "state_completed" (rw es at a)) refl)
IsHistory-snoc t s x (completed e) l a =
    let es : s ≡ "state_completed" = cc (ap last e) in let never : false ≡ true = rw es at a in cc

pub events-update_projection :
    {Text : Type 0} (P : Platform Text) (tracks : Bool)
    (run_id event_type event_id created_at : String) (db : Db Text)
    → (update_projection P tracks run_id event_type event_id created_at db).events ≡ db.events
unfolding update_projection update_from_event
events-update_projection P tracks run_id event_type event_id created_at db = ground arith

-- How `append_lifecycle_event` ended: a row was added, and the table allowed its type after the
-- state of the run; or none was added, and the call reports failure.
pub data Advances {Text : Type 0} (P : Platform Text) (tracks : Bool) (run_id event_type : String)
    (extra : Option Fields) (db : Db Text) (r : LifecycleResult × Db Text) : Type 0 where
  advanced :
      (s : String) (e : LedgerEvent Text)
      → (get_run_state P run_id db).current_state ≡ some s
      → contains (allowed_transitions s) event_type ≡ true
      → contains appendable_run_events event_type ≡ true
      → e.event_type ≡ event_type
      → canonicalize_payload P (dict (put "run_id" (str run_id) (extra_fields extra)))
        ≡ some e.payload_json
      → r.1.events ≡ db.events ++ e ∷ []
      → r.0.success ≡ true
      → r.0.current_state ≡ some event_type
      → r.1
        ≡ update_projection P tracks run_id event_type e.id e.created_at
            (record db { events = db.events ++ e ∷ []; tick = db.tick + 3 })
      → Advances P tracks run_id event_type extra db r
  stayed :
      r.1.events ≡ db.events
      → r.0.success ≡ false
      → (n : ℕ) → r.1 ≡ record db { tick = n }
      → Advances P tracks run_id event_type extra db r

as_non_empty-str : (s t : String) → as_non_empty (str s) ≡ some t → s ≡ t
as_non_empty-str s t h = ground arith

module _ {Text : Type 0} (P : Platform Text) where
  get_run_state-failed :
      (run_id : String) (db : Db Text)
      → (get_run_state P run_id db).current_state ≡ none
      → (get_run_state P run_id db).success ≡ false
  unfolding get_run_state
  get_run_state-failed run_id db h = ground arith

  module _ (tracks : Bool) (run_id event_type : String) (extra : Option Fields) (db : Db Text) where
    append_from-Advances :
        (s : String)
        → (get_run_state P run_id db).current_state ≡ some s
        → contains appendable_run_events event_type ≡ true
        → Advances P tracks run_id event_type extra db
            (append_from P tracks run_id event_type extra s db)
    unfolding append_from append_done
    append_from-Advances s at ok = elim (Bool-cases (contains (allowed_transitions s) event_type)) [
      | inr forbidden ↦ rw (forbidden, append_from) (stayed refl refl db.tick refl)
      | inl allowed ↦
          elim (append_event-Appends P (str event_type) (str lifecycle_worker_id)
            (dict (put "run_id" (str run_id) (extra_fields extra))) none none db) [
              | kept x n later made ↦ rw (allowed, append_from) (rw made (stayed refl refl n refl))
              | wrote t w json et ew ej free made ↦
                  rw (allowed, append_from)
                    (rw made (
                      unfold new_event in
                      advanced s (new_event P t w json none none db) at allowed ok
                        (cc (as_non_empty-str event_type t et)) ej
                        (events-update_projection P tracks run_id event_type _ _ _) refl refl refl))
            ]
    ]

    pub append_lifecycle_event-Advances :
        Advances P tracks run_id event_type extra db
          (append_lifecycle_event P tracks run_id event_type extra db)
    unfolding append_lifecycle_event
    append_lifecycle_event-Advances =
        elim (Bool-cases (contains appendable_run_events event_type)) [
          | inr unsupported ↦
              rw (unsupported, append_lifecycle_event) (stayed refl refl db.tick refl)
          | inl ok ↦ elim (Option-cases (get_run_state P run_id db).current_state) [
            | inl lost ↦
                rw (ok, append_lifecycle_event)
                  (rw (lost, append_lifecycle_event)
                    (stayed refl (get_run_state-failed run_id db lost) db.tick refl))
            | inr (s, at) ↦
                rw (ok, append_lifecycle_event)
                  (rw (at, append_lifecycle_event) (append_from-Advances s at ok))
          ]
        ]
