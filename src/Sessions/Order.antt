-- ===== src/Sessions/Order.antt =====
-- The order in which a session lists its intents.
use leira.Prelude.{
  ℕ, zero, suc, ◌+◌, ◌≡◌, refl, ◌∙◌, ap, String, Bool, false, List, [], ◌∷◌, ◌++◌, arith, ◌==◌,
  eq_iff, keep-snoc, map, map-snoc, length, insert_by, sort_by, if◌then◌else◌, inl, inr, Bool-cases,
}
use leira.Rows.{MembershipRow}
use leira.Sessions.{below, session_members, list_session_intents}

-- The orders of the rows are first, first + 1, and so on.
abbrev pub NumberedFrom : ℕ → List MembershipRow → Type 0
NumberedFrom first [] = Unit
NumberedFrom first (row ∷ rows) = (row.membership_order ≡ first) × NumberedFrom (suc first) rows

abbrev by_order : MembershipRow → MembershipRow → Bool
by_order a b = below a.membership_order b.membership_order

below-suc : (n : ℕ) → below (suc n) n ≡ false
below-suc zero = refl
below-suc (suc n) = below-suc n

-- Numbered rows are sorted already.
pub sort_by-NumberedFrom :
    (first : ℕ) (rows : List MembershipRow) → NumberedFrom first rows → sort_by by_order rows ≡ rows
unfolding sort_by insert_by
sort_by-NumberedFrom first [] numbered = refl
sort_by-NumberedFrom first (row ∷ []) numbered = refl
sort_by-NumberedFrom first (row ∷ row' ∷ rows) (here, (next, rest)) =
    let after : sort_by by_order (row' ∷ rows) ≡ row' ∷ rows =
      sort_by-NumberedFrom (suc first) (row' ∷ rows) (next, rest) in
    rw (after, insert_by) (rw (here, next, below-suc first) refl)

pub NumberedFrom-snoc :
    (first : ℕ) (rows : List MembershipRow) (row : MembershipRow)
    → NumberedFrom first rows
    → row.membership_order ≡ first + length rows
    → NumberedFrom first (rows ++ row ∷ [])
NumberedFrom-snoc first [] row numbered at = (omega (arith, at), tt)
NumberedFrom-snoc first (r ∷ rows) row (here, rest) at =
    (here, NumberedFrom-snoc (suc first) rows row rest (omega (arith, at)))

-- The members of each session are numbered 1, 2, … in the order of the table.
abbrev pub IsNumbered : List MembershipRow → Type 0
IsNumbered rows = (session_id : String) → NumberedFrom 1 (session_members session_id rows)

pub list_session_intents-IsNumbered :
    (session_id : String) (rows : List MembershipRow)
    → IsNumbered rows
    → list_session_intents session_id rows
      ≡ map (λ row. row.intent_id) (session_members session_id rows)
unfolding list_session_intents
list_session_intents-IsNumbered session_id rows numbered =
    ap (map (λ row. row.intent_id))
      (sort_by-NumberedFrom 1 (session_members session_id rows) (numbered session_id))

length-map : {A B : Type 0} (f : A → B) (xs : List A) → length (map f xs) ≡ length xs
length-map f [] = refl
length-map f (x ∷ xs) = omega (arith, length-map f xs)

pub session_members-snoc :
    (session_id : String) (rows : List MembershipRow) (row : MembershipRow)
    → session_members session_id (rows ++ row ∷ []) ≡ (
        if row.session_id == session_id
        then session_members session_id rows ++ row ∷ []
        else session_members session_id rows)
unfolding session_members
session_members-snoc session_id rows row = keep-snoc (λ r. r.session_id == session_id) rows row

-- A row with the next order of its session keeps the numbering.
pub IsNumbered-snoc :
    (rows : List MembershipRow) (row : MembershipRow)
    → IsNumbered rows
    → row.membership_order ≡ length (list_session_intents row.session_id rows) + 1
    → IsNumbered (rows ++ row ∷ [])
IsNumbered-snoc rows row numbered at k = elim (Bool-cases (row.session_id == k)) [
  | inr apart ↦ rw (session_members-snoc k rows row, apart) (numbered k)
  | inl own ↦
      let its : row.session_id ≡ k = (eq_iff row.session_id k).0 own in
      let counted : row.membership_order ≡ 1 + length (session_members k rows) = omega (
        arith,
        at,
        ap (λ s. length (list_session_intents s rows)) its,
        ap length (list_session_intents-IsNumbered k rows numbered),
        length-map (λ r. r.intent_id) (session_members k rows),
      ) in
      rw (session_members-snoc k rows row, own)
        (NumberedFrom-snoc 1 (session_members k rows) row (numbered k) counted)
]

-- What is listed after such a row was added.
pub list_session_intents-snoc :
    (rows : List MembershipRow) (row : MembershipRow) (k : String)
    → IsNumbered rows
    → row.membership_order ≡ length (list_session_intents row.session_id rows) + 1
    → list_session_intents k (rows ++ row ∷ []) ≡ (
        if row.session_id == k
        then list_session_intents k rows ++ row.intent_id ∷ []
        else list_session_intents k rows)
list_session_intents-snoc rows row k numbered at =
    list_session_intents-IsNumbered k (rows ++ row ∷ []) (IsNumbered-snoc rows row numbered at)
    ∙ rw (session_members-snoc k rows row, list_session_intents-IsNumbered k rows numbered)
        (elim (Bool-cases (row.session_id == k)) [
          | inl own ↦ rw (own) (map-snoc (λ r. r.intent_id) (session_members k rows) row)
          | inr apart ↦ rw (apart) refl
        ])
