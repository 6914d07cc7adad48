-- ===== src/Lifecycle/Sync.antt =====
-- The table that a lifecycle kernel keeps live is the one that a rebuild gives.
use leira.Prelude.{
  all, List, ap, ℕ, ◌+◌, ◌≡◌, refl, ◌∙◌, String, Bool, true, false, Option, some, [], ◌∷◌, ◌++◌,
  arith, contains,
}
use leira.Value.{Fields, dict, str, put}
use leira.Value.Normal.{value_under}
use leira.Platform.{Platform, IsStandard}
use leira.Table.{lookup, lookup-upsert}
use leira.Ledger.{Db, LedgerEvent, canonicalize_payload}
use leira.Ledger.Payload.{loads-stored}
use leira.Projection.{
  run_lifecycle_event_types, is_readable, payload_run_id, rebuild_step, rebuild_from,
  update_from_event,
}
use leira.Projection.Rebuild.{rebuild_from-snoc}
use leira.Lifecycle.{
  appendable_run_events, extra_fields, update_projection, append_lifecycle_event, create_run,
}
use leira.Lifecycle.Reach.{made, not_made, create_run-Creates, run_created_fields, create_run_own}
use leira.Lifecycle.Trace.{advanced, stayed, append_lifecycle_event-Advances}

module _ {Text : Type 0} (P : Platform Text) where
  -- A rebuild could read every row, and for every run, the live row is the one that it would give.
  abbrev pub InSync : Db Text → Type 0
  InSync db =
      (all (is_readable P) db.events ≡ true)
      × ((run_id : String)
          → lookup run_id db.run_states ≡ lookup run_id (rebuild_from P [] db.events))

  all-snoc :
      (p : LedgerEvent Text → Bool) (es : List (LedgerEvent Text)) (e : LedgerEvent Text)
      → all p es ≡ true
      → p e ≡ true
      → all p (es ++ e ∷ []) ≡ true
  all-snoc p [] e h own = rw (own) refl
  all-snoc p (x ∷ es) e h own = ground (arith, all-snoc p es e)

  appendable_is_lifecycle :
      (x : String)
      → contains appendable_run_events x ≡ true
      → contains run_lifecycle_event_types x ≡ true
  appendable_is_lifecycle x h = ground arith

  module _ (is_plain : String → Bool) (std : IsStandard P is_plain)
      (steady : (n : ℕ) → P.fails n ≡ false) where
    payload_run_id-stored :
        (fs : Fields) (run_id : String) (e : LedgerEvent Text)
        → canonicalize_payload P (dict fs) ≡ some e.payload_json
        → value_under P.nfc "run_id" fs ≡ some (str run_id)
        → is_plain run_id ≡ true
        → (payload_run_id P e ≡ some run_id) × (is_readable P e ≡ true)
    unfolding payload_run_id is_readable
    payload_run_id-stored fs run_id e stored own plain =
        let (gs, read, got) = loads-stored P is_plain std fs e.payload_json stored in
        (
          rw (read, payload_run_id)
              (got "run_id" run_id own ∙ ap some (std.nfc_plain run_id plain)),
          rw (read, is_readable) (ground arith),
        )

    -- One more row and its live update, against one more round of the rebuild.
    update_projection-InSync :
        (run_id : String) (e : LedgerEvent Text) (db : Db Text) (n : ℕ)
        → InSync db
        → contains run_lifecycle_event_types e.event_type ≡ true
        → (payload_run_id P e ≡ some run_id) × (is_readable P e ≡ true)
        → InSync (
            update_projection P true run_id e.event_type e.id e.created_at
              (record db { events = db.events ++ e ∷ []; tick = n }))
    unfolding update_projection update_from_event rebuild_step
    update_projection-InSync run_id e db n h listed (owned, readable) =
        rw (steady n, update_from_event)
          (
            all-snoc (is_readable P) db.events e h.0 readable,
            λ j.
                rw (rebuild_from-snoc P [] db.events e)
                  (rw (listed, owned, rebuild_step) (simp lookup-upsert (ground (arith, h.1 j)))),
          )

    -- With a projection and no failing write, `append_lifecycle_event` keeps the live table equal,
    -- row by row, to the one that `rebuild_projection` computes from the ledger, and keeps every row
    -- readable by it. The run id is plain, and no other key of the extra payload normalises to run_id.
    -- The platform is assumed to behave as documented.
    pub append_lifecycle_event-InSync :
        (run_id event_type : String) (extra : Option Fields) (db : Db Text)
        → is_plain run_id ≡ true
        → value_under P.nfc "run_id" (put "run_id" (str run_id) (extra_fields extra))
          ≡ some (str run_id)
        → InSync db
        → InSync (append_lifecycle_event P true run_id event_type extra db).1
    append_lifecycle_event-InSync run_id event_type extra db plain own h =
        elim (append_lifecycle_event-Advances P true run_id event_type extra db) [
          | stayed same failed n state ↦ rw state h
          | advanced s e at allowed ok typed stored grown won now state ↦
              rw (state, ← typed)
                (update_projection-InSync run_id e db (db.tick + 3) h
                  (rw typed (appendable_is_lifecycle event_type ok))
                  (payload_run_id-stored (put "run_id" (str run_id) (extra_fields extra)) run_id e
                    stored own plain))
        ]

    -- With a projection and no failing write, `create_run` keeps the live table equal, row by row, to
    -- the one that `rebuild_projection` computes from the ledger.
    -- The platform is assumed to behave as documented.
    pub create_run-InSync :
        (operation_id : String) (db : Db Text)
        → InSync db
        → InSync (create_run P true operation_id db).1
    create_run-InSync operation_id db h = elim (create_run-Creates P true operation_id db) [
      | not_made same failed n state ↦ rw state h
      | made e typed owned stored grown result state ↦
          rw (state, ← typed)
            (update_projection-InSync (P.uuid4 db.tick) e db (db.tick + 1 + 3) h (rw typed refl) (
              payload_run_id-stored (run_created_fields (P.uuid4 db.tick) operation_id)
                (P.uuid4 db.tick) e stored
                (create_run_own P is_plain std (P.uuid4 db.tick) operation_id)
                (std.uuid4_plain db.tick)))
    ]
