-- ===== src/Provenance/Kept.antt =====
-- What the captures leave behind.
use leira.Prelude.{
  ◌++◌, ◌∷◌, [], ◌+◌, ◌≡◌, refl, String, Bool, true, false, Option, none, some, arith, eq_refl,
}
use leira.Value.{ℤ, str, dict, optional, as_non_empty}
use leira.Value.Safe.{is_printable}
use leira.Platform.{Platform}
use leira.Table.{lookup-upsert_own}
use leira.Ledger.{Db, new_event}
use leira.Ledger.Append.{wrote, kept, append_event-Appends}
use leira.Ledger.Fresh.{Fresh, NeverFails, Fresh-later, append_event-Fresh}
use leira.Provenance.{
  provenance_worker_id, environment_worker_id, GitStatusResult, Surroundings, CapturedProvenance,
  CapturedEnvironment, flag, provenance_payload, environment_payload, provenance_row,
  provenance_event_type, captured,
}
use leira.Provenance.Capture.{
  get_provenance, insert_provenance, capture_done, capture_provenance, insert_environment,
  append_snapshot_done, append_snapshot, environment_draft, capture_environment,
}

optional_safe : (p : ℤ → Bool) (o : Option String) → is_printable p (optional o) ≡ true
unfolding is_printable
optional_safe p none = refl
optional_safe p (some s) = refl

flag_safe : (p : ℤ → Bool) (o : Option Bool) → is_printable p (flag o) ≡ true
unfolding is_printable
flag_safe p none = refl
flag_safe p (some b) = refl

type_named :
    (b : Bool) → as_non_empty (str (provenance_event_type b)) ≡ some (provenance_event_type b)
type_named true = refl
type_named false = refl

provenance_safe :
    (p : ℤ → Bool) (snapshot_id intent_id repo_path at : String) (r : GitStatusResult)
    → is_printable p (dict (provenance_payload (captured snapshot_id intent_id repo_path r at)))
      ≡ true
unfolding is_printable
provenance_safe p snapshot_id intent_id repo_path at r =
    rw
      (
        optional_safe p r.head_sha,
        optional_safe p r.branch,
        flag_safe p r.is_dirty,
        optional_safe p r.error_type,
      )
      refl

module _ {Text : Type 0} (P : Platform Text) (S : Surroundings Text) where
  get_provenance-insert_provenance :
      (s : CapturedProvenance) (event_id : String) (db : Db Text)
      → P.fails db.tick ≡ false
      → get_provenance s.snapshot_id (insert_provenance P S s event_id db) ≡ some s
  unfolding get_provenance insert_provenance
  get_provenance-insert_provenance s event_id db works =
      rw (works, insert_provenance)
        (rw
          (
            lookup-upsert_own s.snapshot_id s.snapshot_id (provenance_row s event_id)
                db.provenance_rows (eq_refl s.snapshot_id),
            get_provenance,
          )
          refl)

  -- A capture stores what it answers, after an append that leaves the other tables alone.
  pub capture_provenance-inserts :
      (intent_id repo_path : String) (db : Db Text)
      → NeverFails P
      → Fresh P db
      → (at event_id : String) × (later : Db Text) × (let s =
            captured (P.uuid4 db.tick) intent_id repo_path (S.inspect_repo repo_path) at in
          (capture_provenance P S intent_id repo_path db
            ≡ (s, insert_provenance P S s event_id later))
          × (later.membership_rows ≡ db.membership_rows))
  unfolding capture_provenance capture_done
  capture_provenance-inserts intent_id repo_path db works fresh =
      let r = S.inspect_repo repo_path in
      let start : Db Text = record db { tick = db.tick + 1 } in
      let (json, good, (made, later)) =
        append_event-Fresh P works (provenance_event_type r.success) provenance_worker_id
          (provenance_payload (captured (P.uuid4 db.tick) intent_id repo_path r "")) none
          (some intent_id) start (type_named r.success) refl
          (provenance_safe P.prints_int (P.uuid4 db.tick) intent_id repo_path "" r)
          (Fresh-later P db start fresh refl (omega arith)) in
      let e =
        new_event P (provenance_event_type r.success) provenance_worker_id json none
          (some intent_id) start in
      let after : Db Text = record start {
        events = start.events ++ e ∷ [];
        tick = start.tick + 3;
      } in
      (e.created_at, e.id, after, (rw (made, capture_provenance) refl, refl))

  -- What `capture_provenance` answers is what `get_provenance` reads back under its id, and it is the
  -- state that git reported, with the intent and the path, also where git reported a failure. No
  -- write fails, and no id still to be drawn is one of the ledger's or drawn again.
  pub get_provenance-capture_provenance :
      (intent_id repo_path : String) (db : Db Text)
      → NeverFails P
      → Fresh P db
      → (let (s, after) = capture_provenance P S intent_id repo_path db in
          (at : String) × (s
            ≡ captured (P.uuid4 db.tick) intent_id repo_path (S.inspect_repo repo_path) at)
          × (get_provenance (P.uuid4 db.tick) after ≡ some s))
  get_provenance-capture_provenance intent_id repo_path db works fresh =
      let (at, event_id, later, (made, same)) =
        capture_provenance-inserts intent_id repo_path db works fresh in
      rw (made) (
        at,
        refl,
        get_provenance-insert_provenance
            (captured (P.uuid4 db.tick) intent_id repo_path (S.inspect_repo repo_path) at) event_id
            later (works _),
      )

  insert_provenance_calls :
      (s : CapturedProvenance) (event_id : String) (db : Db Text)
      → (insert_provenance P S s event_id db).calls ≡ db.calls
  unfolding insert_provenance
  insert_provenance_calls s event_id db = ground arith

  insert_environment_calls :
      (s : CapturedEnvironment) (event_id : String) (db : Db Text)
      → (insert_environment P S s event_id db).calls ≡ db.calls
  unfolding insert_environment
  insert_environment_calls s event_id db = ground arith

  -- A capture does not invoke a worker, and it reports an error where git does.
  pub capture_provenance_calls :
      (intent_id repo_path : String) (db : Db Text)
      → (let (s, after) = capture_provenance P S intent_id repo_path db in
          (after.calls ≡ db.calls)
          × (s.error_type ≡ none → (S.inspect_repo repo_path).error_type ≡ none))
  unfolding capture_provenance capture_done
  capture_provenance_calls intent_id repo_path db =
      let r = S.inspect_repo repo_path in
      elim (append_event-Appends P (str (provenance_event_type r.success))
        (str provenance_worker_id)
        (dict (provenance_payload (captured (P.uuid4 db.tick) intent_id repo_path r ""))) none
        (some intent_id) (record db { tick = db.tick + 1 })) [
          | kept x n later made ↦ rw (made, capture_provenance) (refl, λ no_error. absurd (cc))
          | wrote t w json et ew ej free made ↦
              rw (made, capture_provenance) (insert_provenance_calls _ _ _, λ no_error. no_error)
        ]

  pub capture_environment_calls :
      (intent_id : String) (db : Db Text)
      → (capture_environment P S intent_id db).1.calls ≡ db.calls
  unfolding capture_environment append_snapshot append_snapshot_done
  capture_environment_calls intent_id db =
      let (event_type, draft) = environment_draft P S (P.uuid4 db.tick) intent_id in
      elim (append_event-Appends P (str event_type) (str environment_worker_id)
        (dict (environment_payload draft)) none (some draft.intent_id)
        (record db { tick = db.tick + 1 })) [
          | kept x n later made ↦ rw (made, append_snapshot) refl
          | wrote t w json et ew ej free made ↦
              rw (made, append_snapshot) (insert_environment_calls _ _ _)
        ]
