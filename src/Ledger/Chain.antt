-- ===== src/Ledger/Chain.antt =====
-- What it means for the rows to be chained, and that `validate_chain` decides it.
use leira.Prelude.{
  ◌∙◌, map, subst, ap, ℕ, ◌+◌, ◌≡◌, refl, ◌≢◌, inl, inr, String, Option, List, [], ◌∷◌, ◌++◌, arith,
  ◌==◌, eq_iff, length, Bool-cases,
}
use leira.Value.{Value}
use leira.Platform.{Platform}
use leira.Ledger.{
  Db, LedgerEvent, ValidateChainResult, valid, chain_broken, hash_mismatch, genesis_parent_hash,
  head_hash, compute_event_hash, new_event, append_event, check_from, validate_chain,
}
use leira.Ledger.Append.{wrote, kept, append_event-Appends}

module _ {Text : Type 0} (P : Platform Text) where
  -- The hash that the fields of a row give.
  abbrev pub event_hash_of : LedgerEvent Text → String
  event_hash_of e =
      compute_event_hash P e.parent_event_hash e.event_type e.worker_id e.artifact_hash
        e.payload_json e.created_at

  -- Each row names the hash of the row before it, the first one `prev`, and stores its own.
  abbrev pub IsChained : String → List (LedgerEvent Text) → Type 0
  IsChained prev [] = Unit
  IsChained prev (e ∷ es) =
      (e.parent_event_hash ≡ prev) × (event_hash_of e ≡ e.event_hash) × IsChained e.event_hash es

  -- The hash that a row after these has to name.
  abbrev pub end_hash : String → List (LedgerEvent Text) → String
  end_hash prev [] = prev
  end_hash prev (e ∷ es) = end_hash e.event_hash es

  pub IsChained-append :
      (prev : String) (es fs : List (LedgerEvent Text))
      → IsChained prev es
      → IsChained (end_hash prev es) fs
      → IsChained prev (es ++ fs)
  IsChained-append prev [] fs h k = k
  IsChained-append prev (e ∷ es) fs h k = (h.0, h.1, IsChained-append e.event_hash es fs h.2 k)

  pub check_from-valid :
      (prev : String) (n : ℕ) (es : List (LedgerEvent Text))
      → IsChained prev es
      → check_from P prev n es ≡ valid (n + length es)
  unfolding check_from
  check_from-valid prev n [] h = ground arith
  check_from-valid prev n (e ∷ es) h = ground (
    arith,
    eq_iff e.parent_event_hash prev,
    eq_iff (event_hash_of e) e.event_hash,
    check_from-valid e.event_hash (n + 1) es h.2,
  )

  -- What each result of `validate_chain` says of the rows: all are chained, or the named row is
  -- the first that is not, all before it being chained.
  abbrev pub Reports : String → ℕ → List (LedgerEvent Text) → ValidateChainResult → Type 0
  Reports prev n es (valid m) = IsChained prev es × (m ≡ n + length es)
  Reports prev n es (chain_broken i failed) =
      (before : List (LedgerEvent Text)) × (e : LedgerEvent Text) × (after : List
        (LedgerEvent Text))
      × (es ≡ before ++ e ∷ after)
      × IsChained prev before
      × (i ≡ n + length before)
      × (failed ≡ e.id)
      × (e.parent_event_hash ≢ end_hash prev before)
  Reports prev n es (hash_mismatch i failed) =
      (before : List (LedgerEvent Text)) × (e : LedgerEvent Text) × (after : List
        (LedgerEvent Text))
      × (es ≡ before ++ e ∷ after)
      × IsChained prev before
      × (i ≡ n + length before)
      × (failed ≡ e.id)
      × (e.parent_event_hash ≡ end_hash prev before)
      × (event_hash_of e ≢ e.event_hash)

  Reports-cons :
      (prev : String) (n : ℕ) (e : LedgerEvent Text) (es : List (LedgerEvent Text))
      (r : ValidateChainResult)
      → e.parent_event_hash ≡ prev
      → event_hash_of e ≡ e.event_hash
      → Reports e.event_hash (n + 1) es r
      → Reports prev n (e ∷ es) r
  Reports-cons prev n e es (valid m) p h k = ((p, h, k.0), omega arith)
  Reports-cons prev n e es (chain_broken i failed) p h
        (before, bad, after, split, c, at, named, no_link) =
      (e ∷ before, bad, after, ap (λ xs. e ∷ xs) split, (p, h, c), omega arith, named, no_link)
  Reports-cons prev n e es (hash_mismatch i failed) p h
        (before, bad, after, split, c, at, named, link, no_match) =
      (
        e ∷ before,
        bad,
        after,
        ap (λ xs. e ∷ xs) split,
        (p, h, c),
        omega arith,
        named,
        link,
        no_match,
      )

  check_from-Reports :
      (prev : String) (n : ℕ) (es : List (LedgerEvent Text))
      → Reports prev n es (check_from P prev n es)
  unfolding check_from
  check_from-Reports prev n [] = (tt, omega arith)
  check_from-Reports prev n (e ∷ es) = elim (Bool-cases (e.parent_event_hash == prev)) [
    | inl link ↦ elim (Bool-cases (event_hash_of e == e.event_hash)) [
      | inl same ↦
          rw (link, same, check_from)
            (Reports-cons prev n e es (check_from P e.event_hash (n + 1) es)
              ((eq_iff e.parent_event_hash prev).0 link)
              ((eq_iff (event_hash_of e) e.event_hash).0 same)
              (check_from-Reports e.event_hash (n + 1) es))
      | inr differs ↦
          rw (link, differs, check_from)
            (
              [],
              e,
              es,
              refl,
              tt,
              omega arith,
              refl,
              (eq_iff e.parent_event_hash prev).0 link,
              λ same. cc ((eq_iff (event_hash_of e) e.event_hash).1 same),
            )
    ]
    | inr no_link ↦
        rw (no_link, check_from)
          (
            [],
            e,
            es,
            refl,
            tt,
            omega arith,
            refl,
            λ link. cc ((eq_iff e.parent_event_hash prev).1 link),
          )
  ]

  -- `validate_chain` answers `valid` with the number of rows if all are chained from the genesis
  -- hash; else it names the first row that is not, with the number of chained rows before it: as
  -- broken if the row's parent is not the hash before it, as a mismatch if it is and the row's
  -- fields do not give the stored hash.
  pub validate_chain-Reports :
      (db : Db Text) → Reports genesis_parent_hash 0 db.events (validate_chain P db)
  unfolding validate_chain
  validate_chain-Reports db = check_from-Reports genesis_parent_hash 0 db.events

  pub head_hash-eq-end_hash :
      (es : List (LedgerEvent Text)) → head_hash es ≡ end_hash genesis_parent_hash es
  unfolding head_hash
  head_hash-eq-end_hash [] = refl
  head_hash-eq-end_hash (e ∷ []) = refl
  head_hash-eq-end_hash (e ∷ f ∷ es) = head_hash-eq-end_hash (f ∷ es)

  -- Whatever its arguments and its result, `append_event` keeps the rows chained.
  pub append_event-IsChained :
      (event_type worker_id payload : Value) (artifact_hash operation_id : Option String)
      (db : Db Text)
      → IsChained genesis_parent_hash db.events
      → IsChained genesis_parent_hash
          (append_event P event_type worker_id payload artifact_hash operation_id db).1.events
  append_event-IsChained event_type worker_id payload artifact_hash operation_id db h =
      elim (append_event-Appends P event_type worker_id payload artifact_hash operation_id db) [
        | wrote t w json et ew ej free made ↦ rw made (
            unfold new_event in
            IsChained-append genesis_parent_hash db.events
              (new_event P t w json artifact_hash operation_id db ∷ []) h
              (head_hash-eq-end_hash db.events, refl, tt))
        | kept x n later made ↦ rw made h
      ]

  -- If `validate_chain` accepts a ledger, it accepts it after any `append_event` too.
  pub validate_chain-append_event :
      (event_type worker_id payload : Value) (artifact_hash operation_id : Option String)
      (db : Db Text) (n : ℕ)
      → validate_chain P db ≡ valid n
      → (let after =
            (append_event P event_type worker_id payload artifact_hash operation_id db).1 in
          validate_chain P after ≡ valid (length after.events))
  unfolding validate_chain
  validate_chain-append_event event_type worker_id payload artifact_hash operation_id db n ok =
      check_from-valid genesis_parent_hash 0 _ (
        append_event-IsChained event_type worker_id payload artifact_hash operation_id db
          (subst (Reports genesis_parent_hash 0 db.events) ok (validate_chain-Reports db)).0)
      ∙ ap valid (omega arith)

  abbrev pub set_operation_id :
      (LedgerEvent Text → Option String) → LedgerEvent Text → LedgerEvent Text
  set_operation_id g e = record e { operation_id = g e }

  -- Overwriting the column operation_id of every row, whatever the new values, changes nothing in
  -- what `validate_chain` answers: the hash does not cover that column.
  pub validate_chain-set_operation_id :
      (g : LedgerEvent Text → Option String) (db : Db Text)
      → validate_chain P (record db { events = map (set_operation_id g) db.events })
        ≡ validate_chain P db
  unfolding validate_chain
  validate_chain-set_operation_id g db = go genesis_parent_hash 0 db.events
    where
      go :
          (prev : String) (n : ℕ) (es : List (LedgerEvent Text))
          → check_from P prev n (map (set_operation_id g) es) ≡ check_from P prev n es
      go prev n [] = refl
      go prev n (e ∷ es) = rw (go e.event_hash (n + 1) es)
