-- ===== src/Receipts/Contents.antt =====
-- Which events of the ledger a receipt bundle holds.
use leira.Prelude.{
  ◌≡◌, refl, ◌∙◌, sym, ap, String, Bool, true, false, ◌&&◌, ◌||◌, Option, none, some, List, [], ◌∷◌,
  ◌↔◌, ◌==◌, eq_refl, eq_iff, keep, inl, inr, ◌⊎◌, Bool-cases, Option-cases, arith,
}
use leira.Value.{get_non_empty, as_dict, ◌>>=◌}
use leira.Platform.{Platform}
use leira.Ledger.{Db, LedgerEvent}
use leira.Receipts.{
  ReceiptBundle, gather, is_run_of, minted_run, mentions_any, is_receipt_event, shape_of,
  list_receipt_events, environments_in, bundle_of, get_receipt_bundle,
}
use leira.Sessions.Seen.{Holds, first, later, Holds-keep}

module _ {ℓ} {A : Type ℓ} where
  cons_cases : (x y : A) (ys : List A) → Holds x (y ∷ ys) → (x ≡ y) ⊎ Holds x ys
  cons_cases x _ ys first = inl refl
  cons_cases x y ys (later h) = inr h

  keep-Holds :
      (p : A → Bool) (x : A) (xs : List A) → Holds x (keep p xs) → Holds x xs × (p x ≡ true)
  keep-Holds p x [] h = elim h [ ]
  keep-Holds p x (y ∷ ys) h = elim (Bool-cases (p y)) [
    | inl kept ↦ elim (cons_cases x y (keep p ys) (rw (kept) at h)) [
      | inl same ↦ rw (same) (first, kept)
      | inr rest ↦ let (within, own) = keep-Holds p x ys rest in (later within, own)
    ]
    | inr dropped ↦ let (within, own) = keep-Holds p x ys (rw (dropped) at h) in (later within, own)
  ]

module _ {A B : Type 0} (f : A → Option B) where
  gather-Holds :
      (y : B) (xs : List A) → Holds y (gather f xs) → (x : A) × Holds x xs × (f x ≡ some y)
  unfolding gather
  gather-Holds y [] h = elim h [ ]
  gather-Holds y (x ∷ xs) h = elim (Option-cases (f x)) [
    | inl bare ↦
        let (z, within, its) = gather-Holds y xs (rw (bare, gather) at h) in (z, later within, its)
    | inr (w, made) ↦ elim (cons_cases y w (gather f xs) (rw (made, gather) at h)) [
      | inl same ↦ (x, first, made ∙ ap some (sym same))
      | inr rest ↦ let (z, within, its) = gather-Holds y xs rest in (z, later within, its)
    ]
  ]

  Holds-gather : (x : A) (y : B) (xs : List A) → Holds x xs → f x ≡ some y → Holds y (gather f xs)
  unfolding gather
  Holds-gather x y [] h made = elim h [ ]
  Holds-gather x y (_ ∷ xs) first made = rw (made, gather) first
  Holds-gather x y (z ∷ xs) (later h) made = elim (Option-cases (f z)) [
    | inl bare ↦ rw (bare, gather) (Holds-gather x y xs h made)
    | inr (w, its) ↦ rw (its, gather) (later (Holds-gather x y xs h made))
  ]

or_cases : (a b : Bool) → (a || b) ≡ true → (a ≡ true) ⊎ (b ≡ true)
or_cases true b h = inl refl
or_cases false b h = inr h

or_right : (a b : Bool) → b ≡ true → (a || b) ≡ true
or_right a b h = ground arith

-- Why an event belongs to an intent: its text names the intent, or it created a run for the intent, or
-- its text names a run that a row of the ledger created for the intent.
pub data BelongsTo {Text : Type 0} (P : Platform Text) (intent_id : String)
    (es : List (LedgerEvent Text)) (e : LedgerEvent Text) : Type 0 where
  names_intent : P.mentions "intent_id" intent_id e.payload_json ≡ true → BelongsTo P intent_id es e
  creates_run :
      e.event_type ≡ "run_created" → e.operation_id ≡ some intent_id → BelongsTo P intent_id es e
  names_run :
      (c : LedgerEvent Text) (run_id : String)
      → Holds c es
      → c.event_type ≡ "run_created"
      → c.operation_id ≡ some intent_id
      → (P.loads c.payload_json >>= λ v. as_dict v >>= λ fs. get_non_empty "run_id" fs)
        ≡ some run_id
      → P.mentions "run_id" run_id e.payload_json ≡ true
      → BelongsTo P intent_id es e

module _ {Text : Type 0} (P : Platform Text) (intent_id : String) where
  is_run_of-means :
      (e : LedgerEvent Text)
      → is_run_of P intent_id e ≡ true
      → (e.event_type ≡ "run_created") × (e.operation_id ≡ some intent_id)
  unfolding is_run_of
  is_run_of-means e h = elim (Option-cases e.operation_id) [
    | inl none_given ↦
        let never : (e.event_type == "run_created" && false) ≡ true = rw (none_given) at h in
        absurd (ground arith)
    | inr (o, given) ↦
        let both : (e.event_type == "run_created" && o == intent_id) ≡ true = rw (given) at h in
        (
          ground (arith, eq_iff e.event_type "run_created"),
          given ∙ ap some (ground (arith, eq_iff o intent_id)),
        )
  ]

  is_run_of-yes :
      (e : LedgerEvent Text)
      → e.event_type ≡ "run_created"
      → e.operation_id ≡ some intent_id
      → is_run_of P intent_id e ≡ true
  unfolding is_run_of
  is_run_of-yes e typed its = rw (typed, its) (eq_refl intent_id)

  minted_run-means :
      (c : LedgerEvent Text) (run_id : String)
      → minted_run P intent_id c ≡ some run_id
      → (is_run_of P intent_id c ≡ true)
        × ((P.loads c.payload_json >>= λ v. as_dict v >>= λ fs. get_non_empty "run_id" fs)
            ≡ some run_id)
  unfolding minted_run
  minted_run-means c run_id h = elim (Bool-cases (is_run_of P intent_id c)) [
    | inl own ↦ (own, rw (own) at h)
    | inr other ↦
        let never : ◌≡◌ {A = Option String} none (some run_id) = rw (other) at h in absurd (cc)
  ]

  mentions_any-means :
      (runs : List String) (e : LedgerEvent Text)
      → mentions_any P runs e ≡ true
      → (r : String) × Holds r runs × (P.mentions "run_id" r e.payload_json ≡ true)
  unfolding mentions_any
  mentions_any-means [] e h = absurd (cc)
  mentions_any-means (r ∷ runs) e h =
      elim (or_cases (P.mentions "run_id" r e.payload_json) (mentions_any P runs e) h) [
        | inl found ↦ (r, first, found)
        | inr rest ↦
            let (s, within, found) = mentions_any-means runs e rest in (s, later within, found)
      ]

  mentions_any-yes :
      (r : String) (runs : List String) (e : LedgerEvent Text)
      → Holds r runs
      → P.mentions "run_id" r e.payload_json ≡ true
      → mentions_any P runs e ≡ true
  unfolding mentions_any
  mentions_any-yes r [] e h found = elim h [ ]
  mentions_any-yes r (_ ∷ runs) e first found = rw (found) refl
  mentions_any-yes r (s ∷ runs) e (later h) found =
      or_right (P.mentions "run_id" s e.payload_json) (mentions_any P runs e)
        (mentions_any-yes r runs e h found)

  belongs :
      (es : List (LedgerEvent Text)) (e : LedgerEvent Text)
      → is_receipt_event P intent_id (gather (minted_run P intent_id) es) e ≡ true
      → BelongsTo P intent_id es e
  unfolding is_receipt_event
  belongs es e h =
      let runs = gather (minted_run P intent_id) es in
      elim (or_cases (P.mentions "intent_id" intent_id e.payload_json) _ h) [
        | inl named ↦ names_intent named
        | inr rest ↦ elim (or_cases (is_run_of P intent_id e) (mentions_any P runs e) rest) [
          | inl own ↦ let (typed, its) = is_run_of-means e own in creates_run typed its
          | inr run ↦
              let (r, within, found) = mentions_any-means runs e run in
              let (c, listed, minted) = gather-Holds (minted_run P intent_id) r es within in
              let (own, read) = minted_run-means c r minted in
              let (typed, its) = is_run_of-means c own in names_run c r listed typed its read found
        ]
      ]

  is_listed :
      (es : List (LedgerEvent Text)) (e : LedgerEvent Text)
      → BelongsTo P intent_id es e
      → is_receipt_event P intent_id (gather (minted_run P intent_id) es) e ≡ true
  unfolding is_receipt_event minted_run
  is_listed es e (names_intent named) = rw (named) refl
  is_listed es e (creates_run typed its) =
      or_right (P.mentions "intent_id" intent_id e.payload_json) _
        (rw (is_run_of-yes e typed its) refl)
  is_listed es e (names_run c r listed typed its read found) =
      let runs = gather (minted_run P intent_id) es in
      let minted : minted_run P intent_id c ≡ some r = rw (is_run_of-yes c typed its) read in
      or_right (P.mentions "intent_id" intent_id e.payload_json) _ (
        or_right (is_run_of P intent_id e) (mentions_any P runs e) (
          mentions_any-yes r runs e (Holds-gather (minted_run P intent_id) c r es listed minted)
            found))

  -- What `get_receipt_bundle` answers holds `list_receipt_events`.
  events_of_bundle :
      (db : Db Text) (b : ReceiptBundle Text)
      → (get_receipt_bundle P intent_id db).0 ≡ some (some b)
      → b.events ≡ list_receipt_events P intent_id db.events
  unfolding get_receipt_bundle
  events_of_bundle db b answered =
      let events = list_receipt_events P intent_id db.events in
      elim (Option-cases (shape_of events)) [
        | inl bare ↦
            let no : ◌≡◌ {A = Option (Option (ReceiptBundle Text))} (some none) (some (some b)) =
              rw (bare, get_receipt_bundle) at answered in
            absurd (cc)
        | inr (row, made) ↦ elim (Option-cases (environments_in P events)) [
          | inl broken ↦
              let no : ◌≡◌ {A = Option (Option (ReceiptBundle Text))} none (some (some b)) =
                rw (broken, get_receipt_bundle) at (rw (made, get_receipt_bundle) at answered) in
              absurd (cc)
          | inr (environment, read) ↦
              let its : some (some (bundle_of P intent_id row events environment)) ≡ some (some b) =
                rw (read, get_receipt_bundle) at (rw (made, get_receipt_bundle) at answered) in
              let same : bundle_of P intent_id row events environment ≡ b = cc in
              sym (ap (λ c. c.events) same)
        ]
      ]

  -- An event is in a bundle that `get_receipt_bundle` answers exactly if it is in the ledger and its
  -- text names the intent, or it is a run_created of the intent, or its text names the run that a
  -- run_created row of the intent has under run_id.
  pub get_receipt_bundle-BelongsTo :
      (db : Db Text) (b : ReceiptBundle Text) (e : LedgerEvent Text)
      → (get_receipt_bundle P intent_id db).0 ≡ some (some b)
      → (Holds e b.events ↔ (Holds e db.events × BelongsTo P intent_id db.events e))
  unfolding list_receipt_events
  get_receipt_bundle-BelongsTo db b e answered =
      let test = is_receipt_event P intent_id (gather (minted_run P intent_id) db.events) in
      rw (events_of_bundle db b answered) (
        λ within.
            let (listed, own) = keep-Holds test e db.events within in
            (listed, belongs db.events e own),
        λ (listed, why). Holds-keep e test db.events (is_listed db.events e why) listed,
      )
