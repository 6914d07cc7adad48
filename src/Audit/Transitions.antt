-- ===== src/Audit/Transitions.antt =====
-- When the auditor's replay of transitions reports nothing.
use leira.Prelude.{
  ◌≡◌, refl, ◌∙◌, sym, String, Bool, true, false, Option, none, some, List, [], ◌∷◌, ◌++◌, ◌==◌,
  eq_iff, eq_refl, not, subst, if◌then◌else◌, inl, inr, Bool-cases, Option-cases, empty-append,
}
use leira.Table.{Table, lookup, upsert, lookup-upsert_own, lookup-upsert_apart}
use leira.Ledger.{LedgerEvent}
use leira.Projection.Rebuild.{is_text}
use leira.Audit.{report_if, transitions_from}

-- Each type may follow the one before it.
abbrev pub LegalFrom : (Option String → String → Bool) → Option String → List String → Type 0
LegalFrom is_legal previous [] = Unit
LegalFrom is_legal previous (x ∷ xs) = (is_legal previous x ≡ true) × LegalFrom is_legal (some x) xs

unreported :
    (b : Bool) (code identifier : String) → report_if (not b) code identifier ≡ [] → b ≡ true
unreported true code identifier h = refl
unreported false code identifier h = absurd (cc)

module _ {Text : Type 0} (subject_of : LedgerEvent Text → Option String) where
  -- The types of the events of one subject, in the order of the ledger.
  unfoldable pub trace : String → List (LedgerEvent Text) → List String
  trace subject [] = []
  trace subject (e ∷ es) =
      let rest = trace subject es in
      if is_text (subject_of e) subject then e.event_type ∷ rest else rest

  trace_other :
      (subject : String) (e : LedgerEvent Text) (es : List (LedgerEvent Text))
      → is_text (subject_of e) subject ≡ false
      → trace subject (e ∷ es) ≡ trace subject es
  unfolding trace
  trace_other subject e es other = rw (other, trace) refl

  trace_own :
      (subject : String) (e : LedgerEvent Text) (es : List (LedgerEvent Text))
      → is_text (subject_of e) subject ≡ true
      → trace subject (e ∷ es) ≡ e.event_type ∷ trace subject es
  unfolding trace
  trace_own subject e es own = rw (own, trace) refl

module _ {Text : Type 0} (subject_of : LedgerEvent Text → Option String)
    (is_legal : Option String → String → Bool) where
  transitions_none :
      (last : Table String) (e : LedgerEvent Text) (es : List (LedgerEvent Text))
      → subject_of e ≡ none
      → transitions_from subject_of is_legal last (e ∷ es)
        ≡ transitions_from subject_of is_legal last es
  unfolding transitions_from
  transitions_none last e es unnamed = rw (unnamed, transitions_from) refl

  transitions_some :
      (last : Table String) (e : LedgerEvent Text) (es : List (LedgerEvent Text)) (subject : String)
      → subject_of e ≡ some subject
      → transitions_from subject_of is_legal last (e ∷ es)
        ≡ report_if (not (is_legal (lookup subject last) e.event_type)) "ILLEGAL_TRANSITION" e.id
          ++ transitions_from subject_of is_legal (upsert subject e.event_type last) es
  unfolding transitions_from
  transitions_some last e es subject own = rw (own, transitions_from) refl

  legal_now :
      (last : Table String) (e : LedgerEvent Text) (es : List (LedgerEvent Text)) (own : String)
      → subject_of e ≡ some own
      → transitions_from subject_of is_legal last (e ∷ es) ≡ []
      → (is_legal (lookup own last) e.event_type ≡ true)
        × (transitions_from subject_of is_legal (upsert own e.event_type last) es ≡ [])
  legal_now last e es own named h =
      let b = is_legal (lookup own last) e.event_type in
      let (now, later) =
        empty-append (report_if (not b) "ILLEGAL_TRANSITION" e.id)
          (transitions_from subject_of is_legal (upsert own e.event_type last) es)
          (sym (transitions_some last e es own named) ∙ h) in
      (unreported b "ILLEGAL_TRANSITION" e.id now, later)

  pub silent-LegalFrom :
      (subject : String) (last : Table String) (es : List (LedgerEvent Text))
      → transitions_from subject_of is_legal last es ≡ []
      → LegalFrom is_legal (lookup subject last) (trace subject_of subject es)
  unfolding trace
  silent-LegalFrom subject last [] h = tt
  silent-LegalFrom subject last (e ∷ es) h = elim (Option-cases (subject_of e)) [
    | inl unnamed ↦
        rw (trace_other subject_of subject e es (rw (unnamed) refl))
          (silent-LegalFrom subject last es (sym (transitions_none last e es unnamed) ∙ h))
    | inr (own, named) ↦
        let (now, later) = legal_now last e es own named h in
        let rest = silent-LegalFrom subject (upsert own e.event_type last) es later in
        elim (Bool-cases (own == subject)) [
          | inr apart ↦
              rw (trace_other subject_of subject e es (rw (named) apart))
                (rw (lookup-upsert_apart own subject e.event_type last apart) at rest)
          | inl same ↦ rw (trace_own subject_of subject e es (rw (named) same)) (
            rw (sym ((eq_iff own subject).0 same)) now,
            rw (lookup-upsert_own own subject e.event_type last same) at rest,
          )
        ]
  ]

  pub LegalFrom-silent :
      (last : Table String) (es : List (LedgerEvent Text))
      → ((subject : String)
          → LegalFrom is_legal (lookup subject last) (trace subject_of subject es))
      → transitions_from subject_of is_legal last es ≡ []
  unfolding transitions_from
  LegalFrom-silent last [] legal = refl
  LegalFrom-silent last (e ∷ es) legal = elim (Option-cases (subject_of e)) [
    | inl unnamed ↦
        transitions_none last e es unnamed
        ∙ LegalFrom-silent last es (λ subject.
          subst (LegalFrom is_legal (lookup subject last))
            (trace_other subject_of subject e es (rw (unnamed) refl)) (legal subject))
    | inr (own, named) ↦
        let (now, rest) =
          subst (LegalFrom is_legal (lookup own last))
            (trace_own subject_of own e es (rw (named) (eq_refl own))) (legal own) in
        let later : (subject : String)
            → LegalFrom is_legal (lookup subject (upsert own e.event_type last))
                (trace subject_of subject es) =
          λ subject. elim (Bool-cases (own == subject)) [
            | inr apart ↦ rw (lookup-upsert_apart own subject e.event_type last apart) (
                subst (LegalFrom is_legal (lookup subject last))
                  (trace_other subject_of subject e es (rw (named) apart)) (legal subject))
            | inl same ↦
                rw (lookup-upsert_own own subject e.event_type last same)
                  (rw ((eq_iff own subject).0 same) at rest)
          ] in
        transitions_some last e es own named
        ∙ rw (now) (LegalFrom-silent (upsert own e.event_type last) es later)
  ]
