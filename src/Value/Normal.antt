-- ===== src/Value/Normal.antt =====
-- What a normalised dict holds under a key.
use leira.Prelude.{
  ◌≡◌, refl, String, Option, none, some, arith, ◌==◌, eq_iff, if◌then◌else◌, inl, inr, Option-cases,
}
use leira.Value.{
  Value, Fields, name, other_key, end, field, put, get, normalize_value, normalize_fields,
}

pub get-put :
    (k j : String) (v : Value) (fs : Fields)
    → get j (put k v fs) ≡ (if k == j then some v else get j fs)
unfolding get put
get-put k j v end = refl
get-put k j v (field (name i) w fs) =
    ground (arith, eq_iff k j, eq_iff i k, eq_iff i j, get-put k j v fs)
get-put k j v (field (other_key i) w fs) = get-put k j v fs

-- The last value whose key normalises to `k`.
unfoldable pub value_under : (String → String) → String → Fields → Option Value
value_under nfc k end = none
value_under nfc k (field (other_key j) v rest) = value_under nfc k rest
value_under nfc k (field (name j) v rest) = elim (value_under nfc k rest) [
  | some w ↦ some w
  | none ↦ if nfc j == k then some v else none
]

-- Its normal form is what a normalised dict holds under `k`.
pub get-normalize_fields :
    (nfc : String → String) (k : String) (fs done gs : Fields)
    → normalize_fields nfc fs done ≡ some gs
    → get k gs
      ≡ (elim (value_under nfc k fs) [ none ↦ get k done | some v ↦ normalize_value nfc v ])
unfolding normalize_value value_under
get-normalize_fields nfc k end done gs h = cc
get-normalize_fields nfc k (field (other_key j) v rest) done gs h = cc
get-normalize_fields nfc k (field (name j) v rest) done gs h =
    elim (Option-cases (normalize_value nfc v)) [
      | inl bad ↦ ground (arith)
      | inr (w, e) ↦
          ground (
            arith,
            get-put (nfc j) k w done,
            get-normalize_fields nfc k rest (put (nfc j) w done) gs,
          )
    ]
