-- ===== src/Evidence/Partition.antt =====
-- Present and missing evidence: each label in one of the two lists.
use leira.Prelude.{
  ap, suc, ◌+◌, ◌≡◌, refl, sym, String, Bool, true, false, not, List, [], ◌∷◌, arith, ◌==◌, eq_iff,
  contains, length, keep, map, if◌then◌else◌, inl, inr, ◌⊎◌, Bool-cases,
}
use leira.Evidence.{
  evidence_labels, EvidencePresence, labels_present, labels_missing, presence_entries, Evidence,
  presences, build_lifecycle_projection, evidence_presence_table,
}

length-labels :
    (ls : List String) (ps : List Bool)
    → length ls ≡ length ps
    → length (labels_present ls ps) + length (labels_missing ls ps) ≡ length ls
unfolding labels_present labels_missing
length-labels [] ps h = refl
length-labels (l ∷ ls) [] h = omega (arith, h)
length-labels (l ∷ ls) (true ∷ ps) h =
    let same : length ls ≡ length ps = omega (arith, h) in omega (arith, length-labels ls ps same)
length-labels (l ∷ ls) (false ∷ ps) h =
    let same : length ls ≡ length ps = omega (arith, h) in omega (arith, length-labels ls ps same)

-- Texts of a list that has none of them twice.
abbrev pub distinct : List String → Bool
distinct [] = true
distinct (l ∷ ls) = if contains ls l then false else distinct ls

labels_present-contains :
    (ls : List String) (ps : List Bool) (x : String)
    → contains (labels_present ls ps) x ≡ true
    → contains ls x ≡ true
unfolding labels_present
labels_present-contains [] ps x h = h
labels_present-contains (l ∷ ls) [] x h = absurd (cc)
labels_present-contains (l ∷ ls) (true ∷ ps) x h = ground (arith, labels_present-contains ls ps x)
labels_present-contains (l ∷ ls) (false ∷ ps) x h = ground (arith, labels_present-contains ls ps x)

labels_missing-contains :
    (ls : List String) (ps : List Bool) (x : String)
    → contains (labels_missing ls ps) x ≡ true
    → contains ls x ≡ true
unfolding labels_missing
labels_missing-contains [] ps x h = h
labels_missing-contains (l ∷ ls) [] x h = absurd (cc)
labels_missing-contains (l ∷ ls) (true ∷ ps) x h = ground (arith, labels_missing-contains ls ps x)
labels_missing-contains (l ∷ ls) (false ∷ ps) x h = ground (arith, labels_missing-contains ls ps x)

distinct-cons :
    (l : String) (ls : List String)
    → distinct (l ∷ ls) ≡ true
    → (contains ls l ≡ false) × (distinct ls ≡ true)
distinct-cons l ls d = elim (Bool-cases (contains ls l)) [
  | inl e ↦ let never : false ≡ true = rw e at d in absurd (cc)
  | inr e ↦ (e, rw e at d)
]

absent : (b c : Bool) → (b ≡ true → c ≡ true) → c ≡ false → b ≡ false
absent true c up h = let e : c ≡ true = up refl in cc
absent false c up h = refl

-- A label is not both present and missing.
never_both :
    (ls : List String) (ps : List Bool) (x : String)
    → distinct ls ≡ true
    → contains (labels_present ls ps) x ≡ true
    → contains (labels_missing ls ps) x ≡ false
unfolding labels_present labels_missing
never_both [] ps x d h = refl
never_both (l ∷ ls) [] x d h = refl
never_both (l ∷ ls) (true ∷ ps) x d h =
    let (fresh, rest) = distinct-cons l ls d in
    elim (Bool-cases (l == x)) [
      | inl e ↦
          let out : contains ls x ≡ false = rw (sym ((eq_iff l x).0 e)) fresh in
          absent (contains (labels_missing ls ps) x) (contains ls x)
            (labels_missing-contains ls ps x) out
      | inr e ↦ never_both ls ps x rest (rw e at h)
    ]
never_both (l ∷ ls) (false ∷ ps) x d h =
    let (fresh, rest) = distinct-cons l ls d in
    elim (Bool-cases (l == x)) [
      | inl e ↦
          let out : contains ls x ≡ false = rw (sym ((eq_iff l x).0 e)) fresh in
          let gone =
            absent (contains (labels_present ls ps) x) (contains ls x)
              (labels_present-contains ls ps x) out in
          absurd (cc)
      | inr e ↦ rw e (never_both ls ps x rest h)
    ]

-- A known label is one of the two.
one_of_both :
    (ls : List String) (ps : List Bool) (x : String)
    → length ls ≡ length ps
    → contains ls x ≡ true
    → contains (labels_present ls ps) x ≡ false
    → contains (labels_missing ls ps) x ≡ true
unfolding labels_present labels_missing
one_of_both [] ps x n h away = absurd (cc)
one_of_both (l ∷ ls) [] x n h away = let never : suc (length ls) ≡ 0 = n in absurd (cc)
one_of_both (l ∷ ls) (true ∷ ps) x n h away =
    let same : length ls ≡ length ps = omega (arith, n) in
    elim (Bool-cases (l == x)) [
      | inl e ↦ let never : true ≡ false = rw e at away in absurd (cc)
      | inr e ↦ one_of_both ls ps x same (rw e at h) (rw e at away)
    ]
one_of_both (l ∷ ls) (false ∷ ps) x n h away =
    let same : length ls ≡ length ps = omega (arith, n) in
    elim (Bool-cases (l == x)) [
      | inl e ↦ rw e refl
      | inr e ↦ rw e (one_of_both ls ps x same (rw e at h) away)
    ]

module _ {A : Type 0} where
  -- Each of the nine labels stands in exactly one of `completed_evidence` and `missing_evidence`,
  -- and no other label stands in either.
  pub build_lifecycle_projection-partition :
      (subject_id subject_kind : String) (e : Evidence A) (label : String)
      → (let p = build_lifecycle_projection subject_id subject_kind e in
          ((contains evidence_labels label ≡ true)
            × (contains p.missing_evidence label ≡ not (contains p.completed_evidence label)))
          ⊎ ((contains evidence_labels label ≡ false)
              × (contains p.completed_evidence label ≡ false)
              × (contains p.missing_evidence label ≡ false)))
  unfolding build_lifecycle_projection
  build_lifecycle_projection-partition subject_id subject_kind e label =
      elim (Bool-cases (contains evidence_labels label)) [
        | inr unknown ↦ inr (
          unknown,
          absent _ _ (labels_present-contains evidence_labels (presences e) label) unknown,
          absent _ _ (labels_missing-contains evidence_labels (presences e) label) unknown,
        )
        | inl known ↦ inl (
          known,
          elim (Bool-cases (contains (labels_present evidence_labels (presences e)) label)) [
            | inl present ↦ rw present (never_both evidence_labels (presences e) label refl present)
            | inr away ↦ rw away (one_of_both evidence_labels (presences e) label refl known away)
          ],
        )
      ]

  -- The two lists have nine labels together.
  pub build_lifecycle_projection-count :
      (subject_id subject_kind : String) (e : Evidence A)
      → (let p = build_lifecycle_projection subject_id subject_kind e in
          length p.completed_evidence + length p.missing_evidence ≡ 9)
  unfolding build_lifecycle_projection
  build_lifecycle_projection-count subject_id subject_kind e =
      length-labels evidence_labels (presences e) refl

abbrev pub is_present : EvidencePresence → Bool
is_present e = e.present

abbrev pub label_of : EvidencePresence → String
label_of e = e.label

entries-present :
    (ls : List String) (ps : List Bool)
    → map label_of (keep is_present (presence_entries ls ps)) ≡ labels_present ls ps
unfolding presence_entries labels_present
entries-present [] ps = refl
entries-present (l ∷ ls) [] = refl
entries-present (l ∷ ls) (true ∷ ps) = ap (λ r. l ∷ r) (entries-present ls ps)
entries-present (l ∷ ls) (false ∷ ps) = entries-present ls ps

-- The table that `evidence_presence_table` builds again from the flags of a built projection agrees
-- with its `completed_evidence`: the entries marked present have these labels, in this order.
pub evidence_presence_table-build :
    {A : Type 0} (subject_id subject_kind : String) (e : Evidence A)
    → (let p = build_lifecycle_projection subject_id subject_kind e in
        map label_of (keep is_present (evidence_presence_table p)) ≡ p.completed_evidence)
unfolding evidence_presence_table build_lifecycle_projection
evidence_presence_table-build subject_id subject_kind e =
    entries-present evidence_labels (presences e)
