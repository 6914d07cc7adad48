-- ===== src/Sessions/Seen.antt =====
-- What is captured for an intent is seen in its sessions.
use leira.Prelude.{
  ◌≡◌, sym, String, Bool, true, false, List, [], ◌∷◌, ◌++◌, ◌==◌, inl, inr, eq_iff, eq_refl, keep,
  map, sort_by, insert_by, Bool-cases,
}
use leira.Platform.{Platform}
use leira.Table.{Table, upsert}
use leira.Ledger.{Db}
use leira.Ledger.Fresh.{Fresh, NeverFails}
use leira.Provenance.{
  Surroundings, CapturedProvenance, provenance_row, provenance_snapshot, captured,
}
use leira.Provenance.Capture.{insert_provenance, capture_provenance}
use leira.Provenance.Kept.{capture_provenance-inserts}
use leira.Sessions.{list_session_intents}
use leira.Sessions.Views.{rows_of_intent, extend_each, get_session_provenance}

-- Membership of a list.
pub data Holds {ℓ} {A : Type ℓ} (x : A) : List A → Type ℓ where
  first : {xs : List A} → Holds x (x ∷ xs)
  later : {y : A} {xs : List A} → Holds x xs → Holds x (y ∷ xs)

module _ {ℓ} {A : Type ℓ} (x : A) where
  Holds-insert_by_new : (before : A → A → Bool) (xs : List A) → Holds x (insert_by before x xs)
  unfolding insert_by
  Holds-insert_by_new before [] = first
  Holds-insert_by_new before (y ∷ ys) = elim (Bool-cases (before y x)) [
    | inl up ↦ rw (up) (later (Holds-insert_by_new before ys))
    | inr down ↦ rw (down) first
  ]

  Holds-insert_by :
      (before : A → A → Bool) (y : A) (xs : List A) → Holds x xs → Holds x (insert_by before y xs)
  unfolding insert_by
  Holds-insert_by before y [] h = elim h [ ]
  Holds-insert_by before y (_ ∷ xs) first = elim (Bool-cases (before x y)) [
    | inl up ↦ rw (up) first
    | inr down ↦ rw (down) (later first)
  ]
  Holds-insert_by before y (z ∷ xs) (later h) = elim (Bool-cases (before z y)) [
    | inl up ↦ rw (up) (later (Holds-insert_by before y xs h))
    | inr down ↦ rw (down) (later (later h))
  ]

  Holds-sort_by : (before : A → A → Bool) (xs : List A) → Holds x xs → Holds x (sort_by before xs)
  unfolding sort_by
  Holds-sort_by before [] h = elim h [ ]
  Holds-sort_by before (_ ∷ xs) first = Holds-insert_by_new before (sort_by before xs)
  Holds-sort_by before (y ∷ xs) (later h) =
      Holds-insert_by before y (sort_by before xs) (Holds-sort_by before xs h)

  pub Holds-keep : (p : A → Bool) (xs : List A) → p x ≡ true → Holds x xs → Holds x (keep p xs)
  Holds-keep p [] kept h = elim h [ ]
  Holds-keep p (_ ∷ xs) kept first = rw (kept) first
  Holds-keep p (y ∷ xs) kept (later h) = elim (Bool-cases (p y)) [
    | inl up ↦ rw (up) (later (Holds-keep p xs kept h))
    | inr down ↦ rw (down) (Holds-keep p xs kept h)
  ]

  Holds-map : {B : Type ℓ} (f : A → B) (xs : List A) → Holds x xs → Holds (f x) (map f xs)
  Holds-map f [] h = elim h [ ]
  Holds-map f (_ ∷ xs) first = first
  Holds-map f (y ∷ xs) (later h) = later (Holds-map f xs h)

  Holds-append_left : (xs ys : List A) → Holds x xs → Holds x (xs ++ ys)
  Holds-append_left [] ys h = elim h [ ]
  Holds-append_left (_ ∷ xs) ys first = first
  Holds-append_left (y ∷ xs) ys (later h) = later (Holds-append_left xs ys h)

  Holds-append_right : (xs ys : List A) → Holds x ys → Holds x (xs ++ ys)
  Holds-append_right [] ys h = h
  Holds-append_right (y ∷ xs) ys h = later (Holds-append_right xs ys h)

Holds-upsert : {R : Type 0} (k : String) (r : R) (t : Table R) → Holds (k, r) (upsert k r t)
unfolding upsert
Holds-upsert k r [] = first
Holds-upsert k r ((j, q) ∷ rest) = elim (Bool-cases (j == k)) [
  | inl same ↦ rw (same) (rw (sym ((eq_iff j k).0 same)) first)
  | inr apart ↦ rw (apart) (later (Holds-upsert k r rest))
]

Holds-extend_each :
    {A B : Type 0} (f : A → List B) (x : A) (y : B) (xs : List A)
    → Holds x xs
    → Holds y (f x)
    → Holds y (extend_each f xs)
unfolding extend_each
Holds-extend_each f x y [] h own = elim h [ ]
Holds-extend_each f x y (_ ∷ xs) first own = Holds-append_left y (f x) (extend_each f xs) own
Holds-extend_each f x y (z ∷ xs) (later h) own =
    Holds-append_right y (f z) (extend_each f xs) (Holds-extend_each f x y xs h own)

module _ {Text : Type 0} (P : Platform Text) (S : Surroundings Text) where
  Holds-insert_provenance :
      (s : CapturedProvenance) (event_id session_id : String) (db : Db Text)
      → P.fails db.tick ≡ false
      → Holds s.intent_id (list_session_intents session_id db.membership_rows)
      → Holds s (get_session_provenance session_id (insert_provenance P S s event_id db))
  unfolding get_session_provenance insert_provenance rows_of_intent
  Holds-insert_provenance s event_id session_id db works member =
      let rows = upsert s.snapshot_id (provenance_row s event_id) db.provenance_rows in
      rw (works, insert_provenance)
        (Holds-extend_each _ s.intent_id s (list_session_intents session_id db.membership_rows)
          member
          (Holds-map (s.snapshot_id, provenance_row s event_id)
            (λ row. provenance_snapshot row.0 row.1) _
            (Holds-sort_by (s.snapshot_id, provenance_row s event_id) _ _
              (Holds-keep (s.snapshot_id, provenance_row s event_id) _ rows (eq_refl s.intent_id)
                (Holds-upsert s.snapshot_id (provenance_row s event_id) db.provenance_rows)))))

  -- What `capture_provenance` answers for an intent is listed by `get_session_provenance` for each
  -- session that the intent is a member of. No write fails, and no id still to be drawn is one of
  -- the ledger's or drawn again.
  pub get_session_provenance-capture_provenance :
      (intent_id repo_path session_id : String) (db : Db Text)
      → NeverFails P
      → Fresh P db
      → Holds intent_id (list_session_intents session_id db.membership_rows)
      → (let (s, after) = capture_provenance P S intent_id repo_path db in
          Holds s (get_session_provenance session_id after))
  get_session_provenance-capture_provenance intent_id repo_path session_id db works fresh member =
      let (at, event_id, later_db, (made, same)) =
        capture_provenance-inserts P S intent_id repo_path db works fresh in
      rw (made) (
        Holds-insert_provenance
          (captured (P.uuid4 db.tick) intent_id repo_path (S.inspect_repo repo_path) at) event_id
          session_id later_db (works _) (rw (same) member))
