-- ===== src/Receipts/Shape.antt =====
-- The rows of receipt_projection, written live and by a rebuild.
use leira.Prelude.{
  ◌≡◌, refl, ◌∙◌, sym, ap, String, Bool, true, false, Option, none, some, List, [], ◌∷◌, ◌==◌,
  eq_refl, eq_iff, contains, length, if◌then◌else◌, inl, inr, Bool-cases, Option-cases,
}
use leira.Platform.{Platform}
use leira.Table.{lookup, lookup-upsert_own}
use leira.Rows.{ReceiptRow}
use leira.Ledger.{Db, LedgerEvent}
use leira.Receipts.{
  ReceiptBundle, shape_of, list_receipt_events, update_receipt_projection, environments_in,
  bundle_of, get_receipt_bundle, intent_ids_from, receipt_rows_of, rebuild_receipt_projection,
}

shape_of-length :
    {Text : Type 0} (es : List (LedgerEvent Text)) (row : ReceiptRow)
    → shape_of es ≡ some row
    → row.event_count ≡ length es
unfolding shape_of
shape_of-length [] row made = absurd (cc)
shape_of-length (e ∷ es) row made =
    sym (ap (λ o. elim o [ none ↦ length (e ∷ es) | some r ↦ r.event_count ]) made)

some_same : {A : Type 0} {x y : A} → some x ≡ some y → x ≡ y
some_same h = cc

none_either : {A : Type 0} (b : Bool) → ◌≡◌ {A = Option A} (if b then none else none) none
none_either true = refl
none_either false = refl

module _ {Text : Type 0} (P : Platform Text) where
  lookup-receipt_rows_of :
      (k : String) (ids : List String) (es : List (LedgerEvent Text))
      → lookup k (receipt_rows_of P ids es)
        ≡ (if contains ids k then shape_of (list_receipt_events P k es) else none)
  unfolding receipt_rows_of lookup
  lookup-receipt_rows_of k [] es = refl
  lookup-receipt_rows_of k (i ∷ ids) es =
      let after = lookup-receipt_rows_of k ids es in
      elim (Bool-cases (i == k)) [
        | inl own ↦
            let its : i ≡ k = (eq_iff i k).0 own in
            elim (Option-cases (shape_of (list_receipt_events P k es))) [
              | inl bare ↦
                  rw (its, eq_refl k, bare, receipt_rows_of)
                    (after
                      ∙ ap (λ o. if contains ids k then o else none) bare
                      ∙ none_either (contains ids k))
              | inr (row, made) ↦ rw (its, eq_refl k, made, receipt_rows_of) (rw (own) refl)
            ]
        | inr apart ↦ elim (Option-cases (shape_of (list_receipt_events P i es))) [
          | inl bare ↦ rw (bare, apart, receipt_rows_of) after
          | inr (row, made) ↦ rw (made, apart, receipt_rows_of) after
        ]
      ]

  -- After a rebuild the table has, for each intent that an intent_submitted or intent_rejected row of
  -- the ledger names, the shape of its bundle, and no row if the bundle is empty; it has no row for
  -- other texts. It is assumed that the transaction does not fail.
  pub lookup-rebuild_receipt_projection :
      (k : String) (db : Db Text)
      → P.fails db.tick ≡ false
      → lookup k (rebuild_receipt_projection P db).receipt_rows ≡ (
          if contains (intent_ids_from P [] db.events) k
          then shape_of (list_receipt_events P k db.events)
          else none)
  unfolding rebuild_receipt_projection
  lookup-rebuild_receipt_projection k db works =
      rw (works, rebuild_receipt_projection)
        (lookup-receipt_rows_of k (intent_ids_from P [] db.events) db.events)

  -- A bundle that is returned holds the events that `list_receipt_events` finds, with their number,
  -- and the row that `get_receipt_bundle` leaves in the table is the one that a rebuild
  -- of the same ledger makes. It is assumed that the writes do not fail and that the ledger has a
  -- submission of the intent.
  get_receipt_bundle-rebuild_receipt_projection :
      (k : String) (db : Db Text) (b : ReceiptBundle Text)
      → P.fails db.tick ≡ false
      → contains (intent_ids_from P [] db.events) k ≡ true
      → (get_receipt_bundle P k db).0 ≡ some (some b)
      → (b.events ≡ list_receipt_events P k db.events)
        × (b.event_count ≡ length (list_receipt_events P k db.events))
        × (lookup k (get_receipt_bundle P k db).1.receipt_rows
            ≡ lookup k (rebuild_receipt_projection P db).receipt_rows)
  unfolding get_receipt_bundle update_receipt_projection
  get_receipt_bundle-rebuild_receipt_projection k db b works known answered =
      let events = list_receipt_events P k db.events in
      elim (Option-cases (shape_of events)) [
        | inl bare ↦
            let no : ◌≡◌ {A = Option (Option (ReceiptBundle Text))} (some none) (some (some b)) =
              rw (bare, get_receipt_bundle) at answered in
            absurd (cc)
        | inr (row, made) ↦ elim (Option-cases (environments_in P events)) [
          | inl broken ↦
              let no : ◌≡◌ {A = Option (Option (ReceiptBundle Text))} none (some (some b)) =
                rw (broken, get_receipt_bundle) at (rw (made, get_receipt_bundle) at answered) in
              absurd (cc)
          | inr (environment, read) ↦
              let its : some (some (bundle_of P k row events environment)) ≡ some (some b) =
                rw (read, get_receipt_bundle) at (rw (made, get_receipt_bundle) at answered) in
              let rebuilt : lookup k (rebuild_receipt_projection P db).receipt_rows ≡ some row =
                lookup-rebuild_receipt_projection k db works ∙ rw (known) made in
              let same : bundle_of P k row events environment ≡ b = some_same (some_same its) in
              (
                sym (ap (λ c. c.events) same),
                sym (ap (λ c. c.event_count) same) ∙ shape_of-length events row made,
                rw (made, get_receipt_bundle)
                    (rw (read, get_receipt_bundle)
                      (rw (works, update_receipt_projection)
                        (lookup-upsert_own k k row db.receipt_rows (eq_refl k) ∙ sym rebuilt))),
              )
        ]
      ]
