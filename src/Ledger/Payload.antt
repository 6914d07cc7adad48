-- ===== src/Ledger/Payload.antt =====
-- What can be found in the text of a payload that the ledger stored.
use leira.Prelude.{
  ◌≡◌, refl, ap, ◌∙◌, sym, String, Bool, true, false, ◌&&◌, contains, Option, none, some, arith,
  Option-cases, inl, inr, Bool-cases,
}
use leira.Value.{
  prints, prints_fields, as_non_empty, Fields, end, field, name, other_key, dict, str, get, get_str,
  normalize_value, normalize_fields,
}
use leira.Value.Safe.{is_safe, is_some-normalize_value, is_printable, normalize_value-printable}
use leira.Value.Normal.{value_under, get-normalize_fields}
use leira.Platform.{Platform, IsStandard, key_names}
use leira.Errors.{invalid_payload}
use leira.Ledger.{Db, refused, canonicalize_payload, payload_error, append_event}

and_left : (a b : Bool) → (a && b) ≡ true → a ≡ true
and_left a b h = ground arith

and_right : (a b : Bool) → (a && b) ≡ true → b ≡ true
and_right a b h = ground arith

-- Every key is one that the program writes.
abbrev pub has_known_keys : Fields → Bool
has_known_keys end = true
has_known_keys (field (name k) v rest) = contains key_names k && has_known_keys rest
has_known_keys (field (other_key k) v rest) = false

-- Such a dict holds after normalisation what it was given under each key.
pub value_under-known :
    {Text : Type 0} (P : Platform Text) (is_plain : String → Bool) (std : IsStandard P is_plain)
    (k : String) (fs : Fields)
    → has_known_keys fs ≡ true
    → value_under P.nfc k fs ≡ value_under (λ s. s) k fs
unfolding value_under
value_under-known P is_plain std k end h = refl
value_under-known P is_plain std k (field (other_key j) v rest) h = cc
value_under-known P is_plain std k (field (name j) v rest) h =
    let known : contains key_names j ≡ true =
      and_left (contains key_names j) (has_known_keys rest) h in
    let others : has_known_keys rest ≡ true =
      and_right (contains key_names j) (has_known_keys rest) h in
    ground (arith, std.nfc_key j known, value_under-known P is_plain std k rest others)

module _ {Text : Type 0} (P : Platform Text) where
  -- A stored payload is the text of the normal form of the dict that was given.
  pub record Stored (fs : Fields) (json : Text) : Type 0 where
    pub normal : Fields
    pub normalized : normalize_value P.nfc (dict fs) ≡ some (dict normal)
    pub printed : prints_fields P.prints_int normal ≡ true
    pub written : json ≡ P.dumps (dict normal)
    pub entry :
        (k : String)
        → get k normal
          ≡ (elim (value_under P.nfc k fs) [ none ↦ none | some v ↦ normalize_value P.nfc v ])

  payload_printed :
      (fs gs : Fields) (json : Text)
      → normalize_value P.nfc (dict fs) ≡ some (dict gs)
      → canonicalize_payload P (dict fs) ≡ some json
      → (prints_fields P.prints_int gs ≡ true) × (json ≡ P.dumps (dict gs))
  unfolding canonicalize_payload prints
  payload_printed fs gs json made h = elim (Bool-cases (prints_fields P.prints_int gs)) [
    | inl good ↦ (good, ground (arith))
    | inr bad ↦ absurd (ground (arith))
  ]

  pub canonicalize_payload-Stored :
      (fs : Fields) (json : Text) → canonicalize_payload P (dict fs) ≡ some json → Stored fs json
  unfolding canonicalize_payload normalize_value
  canonicalize_payload-Stored fs json h = elim (Option-cases (normalize_fields P.nfc fs end)) [
    | inl bad ↦ absurd (ground (arith))
    | inr (gs, e) ↦ record {
      normal = gs;
      normalized = rw (e, normalize_value) refl;
      printed = (payload_printed fs gs json (rw (e, normalize_value) refl) h).0;
      written = (payload_printed fs gs json (rw (e, normalize_value) refl) h).1;
      entry = λ k. unfold get in get-normalize_fields P.nfc k fs end gs e;
    }
  ]

  -- A printable dict can be stored.
  pub canonicalize_payload-printable :
      (fs : Fields)
      → is_printable P.prints_int (dict fs) ≡ true
      → (json : Text) × (canonicalize_payload P (dict fs) ≡ some json)
  unfolding canonicalize_payload
  canonicalize_payload-printable fs h =
      let (v, made, good) = normalize_value-printable P.prints_int P.nfc (dict fs) h in
      (P.dumps v, rw (made, good) refl)

  -- What is stored is safe.
  pub canonicalize_payload-safe :
      (fs : Fields) (json : Text)
      → canonicalize_payload P (dict fs) ≡ some json
      → is_safe (dict fs) ≡ true
  unfolding canonicalize_payload
  canonicalize_payload-safe fs json stored =
      sym (is_some-normalize_value P.nfc (dict fs))
      ∙ (elim (Option-cases (normalize_value P.nfc (dict fs))) [
        | inl bad ↦ absurd (cc (rw (bad) at stored))
        | inr (v, made) ↦ rw (made) refl
      ])

  -- A dict that is not safe is refused.
  pub append_event-unsafe :
      (t w : String) (fs : Fields) (a o : Option String) (db : Db Text)
      → as_non_empty (str t) ≡ some t
      → as_non_empty (str w) ≡ some w
      → is_safe (dict fs) ≡ false
      → append_event P (str t) (str w) (dict fs) a o db ≡ (refused invalid_payload, db)
  unfolding append_event canonicalize_payload payload_error
  append_event-unsafe t w fs a o db typed owned unsafe =
      elim (Option-cases (normalize_value P.nfc (dict fs))) [
        | inr (v, made) ↦
            let clash : false ≡ true =
              sym unsafe ∙ sym (is_some-normalize_value P.nfc (dict fs)) ∙ rw (made) refl in
            absurd (cc)
        | inl bad ↦
            rw (typed, owned, append_event) (rw (bad, append_event) (rw (bad, payload_error) refl))
      ]

  module _ (is_plain : String → Bool) (std : IsStandard P is_plain) (fs : Fields) (json : Text)
      (stored : canonicalize_payload P (dict fs) ≡ some json) (k s : String) where
    get_str-normal :
        value_under P.nfc k fs ≡ some (str s)
        → get_str k (canonicalize_payload-Stored fs json stored).normal ≡ some (P.nfc s)
    unfolding get_str normalize_value
    get_str-normal given = ground (arith, (canonicalize_payload-Stored fs json stored).entry k)

    -- A plain string of the dict under a key name is found by the query for it.
    pub mentions-stored :
        contains key_names k ≡ true
        → value_under P.nfc k fs ≡ some (str s)
        → is_plain s ≡ true
        → P.mentions k s json ≡ true
    mentions-stored known given plain =
        let st = canonicalize_payload-Stored fs json stored in
        rw st.written (
          std.mentions-dumps P.nfc (dict fs) st.normal k s st.normalized st.printed known
            (get_str-normal given ∙ ap some (std.nfc_plain s plain)) plain)

  -- The strings of the dict are read back from the text, in normal form.
  pub loads-stored :
      (is_plain : String → Bool) (std : IsStandard P is_plain) (fs : Fields) (json : Text)
      → canonicalize_payload P (dict fs) ≡ some json
      → (gs : Fields) × (P.loads json ≡ some (dict gs))
        × ((k s : String) → value_under P.nfc k fs ≡ some (str s) → get_str k gs ≡ some (P.nfc s))
  loads-stored is_plain std fs json stored =
      let st = canonicalize_payload-Stored fs json stored in
      let (gs, read, same) = std.loads-dumps P.nfc (dict fs) st.normal st.normalized st.printed in
      (
        gs,
        ap P.loads st.written ∙ read,
        λ k s given. same k ∙ get_str-normal is_plain std fs json stored k s given,
      )
