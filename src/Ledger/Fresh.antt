-- ===== src/Ledger/Fresh.antt =====
-- When `append_event` is sure to insert its row.
use leira.Prelude.{
  ℕ, suc, ◌+◌, ◌≤◌, ◌≡◌, refl, ◌∙◌, ap, String, true, false, Option, some, List, [], ◌∷◌, ◌++◌,
  arith, ◌==◌, inl, inr, Option-cases,
}
use leira.Value.{Fields, str, dict, as_non_empty}
use leira.Value.Safe.{is_printable}
use leira.Platform.{Platform}
use leira.Ledger.{
  Db, LedgerEvent, appended, has_id, canonicalize_payload, new_event, insert_event, append_event,
}
use leira.Ledger.Payload.{canonicalize_payload-printable}

module _ {Text : Type 0} (P : Platform Text) where
  -- No id that is still to be drawn is one of the ledger's or drawn again.
  pub record Fresh (db : Db Text) : Type 0 where
    pub unused : (n : ℕ) → db.tick ≤ n → has_id (P.uuid4 n) db.events ≡ false
    pub apart : (m n : ℕ) → db.tick ≤ m → suc m ≤ n → (P.uuid4 m == P.uuid4 n) ≡ false

  abbrev pub NeverFails : Type 0
  NeverFails = (n : ℕ) → P.fails n ≡ false

  pub Fresh-later :
      (db later : Db Text)
      → Fresh db
      → later.events ≡ db.events
      → db.tick ≤ later.tick
      → Fresh later
  Fresh-later db later fresh same grown = record {
    unused = λ n after. ap (has_id (P.uuid4 n)) same ∙ fresh.unused n (omega (arith, grown, after));
    apart = λ m n from before. fresh.apart m n (omega (arith, grown, from)) before;
  }

  has_id-snoc :
      (i : String) (es : List (LedgerEvent Text)) (e : LedgerEvent Text)
      → has_id i es ≡ false
      → (e.id == i) ≡ false
      → has_id i (es ++ e ∷ []) ≡ false
  unfolding has_id
  has_id-snoc i [] e absent apart = rw (apart) refl
  has_id-snoc i (d ∷ es) e absent apart = ground (arith, has_id-snoc i es e)

  module _ (works : NeverFails) (event_type worker_id : String) (fs : Fields)
      (artifact_hash operation_id : Option String) (db : Db Text) where
    -- On a platform where no write fails, a payload that can be stored is stored.
    pub append_event-Fresh :
        as_non_empty (str event_type) ≡ some event_type
        → as_non_empty (str worker_id) ≡ some worker_id
        → is_printable P.prints_int (dict fs) ≡ true
        → Fresh db
        → (json : Text) × (canonicalize_payload P (dict fs) ≡ some json)
          × (let e = new_event P event_type worker_id json artifact_hash operation_id db in
              let later : Db Text = record db {
                events = db.events ++ e ∷ [];
                tick = db.tick + 3;
              } in
              (append_event P
                  (str event_type)
                  (str worker_id)
                  (dict fs)
                  artifact_hash
                  operation_id
                  db
                ≡ (appended e.id e.event_hash e.created_at, later))
              × Fresh later)
    unfolding append_event insert_event new_event
    append_event-Fresh typed owned printable fresh =
        elim (Option-cases (canonicalize_payload P (dict fs))) [
          | inl bad ↦
              let (json, good) = canonicalize_payload-printable P fs printable in absurd (cc)
          | inr (json, good) ↦
              let e = new_event P event_type worker_id json artifact_hash operation_id db in
              let free : has_id (P.uuid4 (db.tick + 1)) db.events ≡ false =
                fresh.unused (db.tick + 1) (omega arith) in
              (
                json,
                good,
                (
                  rw (typed, owned, good, append_event)
                      (rw (works (db.tick + 2), free, insert_event) refl),
                  record {
                    unused = λ n after.
                        has_id-snoc (P.uuid4 n) db.events e (fresh.unused n (omega (arith, after)))
                          (fresh.apart (db.tick + 1) n (omega arith) (omega (arith, after)));
                    apart = λ m n from before. fresh.apart m n (omega (arith, from)) before;
                  },
                ),
              )
        ]
