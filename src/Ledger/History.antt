-- ===== src/Ledger/History.antt =====
-- The head hash stands for the whole history: `validate_chain` accepts two different histories of
-- one length and one head only if SHA-256 collides on the hashed texts of two of their rows.
use leira.Prelude.{
  sym, ◌∙◌, ◌≡◌, refl, ◌≢◌, ◌⊎◌, inl, inr, String, Bool, true, Option, none, some, List, [], ◌∷◌,
  arith, length,
}
use leira.Value.{prints, prints_fields, Fields, dict, get_str, put, normalize_value, ◌>>=◌}
use leira.Platform.{Platform, IsStandard}
use leira.Ledger.{Db, LedgerEvent, genesis_parent_hash, head_hash, hash_input, compute_event_hash}
use leira.Ledger.Chain.{event_hash_of, IsChained, end_hash, head_hash-eq-end_hash}

-- The fields that are hashed agree, up to NFC.
pub record SameContent {Text : Type 0} (P : Platform Text) (e f : LedgerEvent Text) : Type 0 where
  pub parent_event_hash : P.nfc e.parent_event_hash ≡ P.nfc f.parent_event_hash
  pub event_type : P.nfc e.event_type ≡ P.nfc f.event_type
  pub worker_id : P.nfc e.worker_id ≡ P.nfc f.worker_id
  pub payload_json : P.text e.payload_json ≡ P.text f.payload_json
  pub created_at : P.nfc e.created_at ≡ P.nfc f.created_at
  pub artifact_hash :
      (e.artifact_hash >>= λ h. some (P.nfc h)) ≡ (f.artifact_hash >>= λ h. some (P.nfc h))

module _ {Text : Type 0} (P : Platform Text) where
  abbrev pub SameContents : List (LedgerEvent Text) → List (LedgerEvent Text) → Type 0
  SameContents [] [] = Unit
  SameContents (e ∷ es) (f ∷ fs) = SameContent P e f × SameContents es fs
  SameContents _ _ = ⊥

  abbrev input_of : LedgerEvent Text → Fields
  input_of e =
      hash_input P e.parent_event_hash e.event_type e.worker_id e.artifact_hash e.payload_json
        e.created_at

  abbrev text_of : LedgerEvent Text → Text
  text_of e = P.dumps (dict (input_of e))

  -- Two rows at one place of two ledgers whose hashed texts are different and have one digest.
  pub data Collision : List (LedgerEvent Text) → List (LedgerEvent Text) → Type 0 where
    clash :
        {e f : LedgerEvent Text} {es fs : List (LedgerEvent Text)}
        → text_of e ≢ text_of f
        → P.sha256 (text_of e) ≡ P.sha256 (text_of f)
        → Collision (e ∷ es) (f ∷ fs)
    further :
        {e f : LedgerEvent Text} {es fs : List (LedgerEvent Text)}
        → Collision es fs
        → Collision (e ∷ es) (f ∷ fs)

  event_hash_of-sha256 : (e : LedgerEvent Text) → event_hash_of P e ≡ P.sha256 (text_of e)
  unfolding compute_event_hash
  event_hash_of-sha256 e = refl

-- The dict that is hashed is as JSON can say it.
hash_input-normal :
    {Text : Type 0} (P : Platform Text) (parent_event_hash event_type worker_id : String)
    (artifact_hash : Option String) (payload_json : Text) (created_at : String)
    → (let d =
          hash_input P parent_event_hash event_type worker_id artifact_hash payload_json
            created_at in
        normalize_value (λ s. s) (dict d) ≡ some (dict d))
unfolding hash_input normalize_value put
hash_input-normal P p t w none j c = refl
hash_input-normal P p t w (some a) j c = refl

hash_input-prints :
    {Text : Type 0} (P : Platform Text) (parent_event_hash event_type worker_id : String)
    (artifact_hash : Option String) (payload_json : Text) (created_at : String)
    → prints_fields P.prints_int
        (hash_input P parent_event_hash event_type worker_id artifact_hash payload_json created_at)
      ≡ true
unfolding hash_input prints
hash_input-prints P p t w none j c = refl
hash_input-prints P p t w (some a) j c = refl

get_str-artifact_hash :
    {Text : Type 0} (P : Platform Text) (parent_event_hash event_type worker_id : String)
    (artifact_hash : Option String) (payload_json : Text) (created_at : String)
    → get_str "artifact_hash"
        (hash_input P parent_event_hash event_type worker_id artifact_hash payload_json created_at)
      ≡ (artifact_hash >>= λ h. some (P.nfc h))
unfolding hash_input get_str
get_str-artifact_hash P p t w none j c = refl
get_str-artifact_hash P p t w (some a) j c = refl

artifact_hash_of :
    {Text : Type 0} (P : Platform Text) (e : LedgerEvent Text)
    → get_str "artifact_hash" (input_of P e) ≡ (e.artifact_hash >>= λ h. some (P.nfc h))
artifact_hash_of P e =
    get_str-artifact_hash P e.parent_event_hash e.event_type e.worker_id e.artifact_hash
      e.payload_json e.created_at

-- Rows with one hashed text have the same content.
module _ {Text : Type 0} (P : Platform Text) (is_plain : String → Bool)
    (std : IsStandard P is_plain) where
  same_entries :
      (e f : LedgerEvent Text)
      → text_of P e ≡ text_of P f
      → (k : String) → get_str k (input_of P e) ≡ get_str k (input_of P f)
  same_entries e f same k =
      let (gs, read_e, keep_e) =
        std.loads-dumps (λ s. s) (dict (input_of P e)) (input_of P e)
          (hash_input-normal P _ _ _ _ _ _) (hash_input-prints P _ _ _ _ _ _) in
      let (hs, read_f, keep_f) =
        std.loads-dumps (λ s. s) (dict (input_of P f)) (input_of P f)
          (hash_input-normal P _ _ _ _ _ _) (hash_input-prints P _ _ _ _ _ _) in
      let one : dict gs ≡ dict hs = cc (read_e, read_f) in sym (keep_e k) ∙ cc (one) ∙ keep_f k

  SameContent-text_of : (e f : LedgerEvent Text) → text_of P e ≡ text_of P f → SameContent P e f
  unfolding get_str hash_input
  SameContent-text_of e f same = record {
    parent_event_hash = cc (same_entries e f same "parent_event_hash");
    event_type = cc (same_entries e f same "event_type");
    worker_id = cc (same_entries e f same "worker_id");
    payload_json = cc (same_entries e f same "payload_json");
    created_at = cc (same_entries e f same "created_at");
    artifact_hash =
        sym (artifact_hash_of P e) ∙ same_entries e f same "artifact_hash" ∙ artifact_hash_of P f;
  }

  module _ (text_discrete : Discrete Text) where
    -- Stated from any two parents in normal form, so that it can be proved from the end.
    agree_from :
        (p q : String) (es fs : List (LedgerEvent Text))
        → P.nfc p ≡ p
        → P.nfc q ≡ q
        → IsChained P p es
        → IsChained P q fs
        → length es ≡ length fs
        → end_hash P p es ≡ end_hash P q fs
        → ((p ≡ q) × SameContents P es fs) ⊎ Collision P es fs
    agree_from p q [] [] np nq ce cf len same = inl (same, tt)
    agree_from p q [] (f ∷ fs) np nq ce cf len same = absurd (omega arith)
    agree_from p q (e ∷ es) [] np nq ce cf len same = absurd (omega arith)
    agree_from p q (e ∷ es) (f ∷ fs) np nq ce cf len same =
        elim (agree_from e.event_hash f.event_hash es fs (stored e ce.1) (stored f cf.1) ce.2 cf.2
          (omega arith) same) [
            | inr found ↦ inr (further found)
            | inl (hashes, rest) ↦ elim (text_discrete (text_of P e) (text_of P f)) [
              | no differ ↦
                  inr (clash differ (cc (event_hash_of-sha256 P e, event_hash_of-sha256 P f)))
              | yes text ↦
                  let content = SameContent-text_of e f text in
                  inl (cc (content.parent_event_hash), (content, rest))
            ]
          ]
      where
        stored :
            (g : LedgerEvent Text)
            → event_hash_of P g ≡ g.event_hash
            → P.nfc g.event_hash ≡ g.event_hash
        stored g made =
            rw (← made, event_hash_of-sha256 P g)
              (std.nfc_plain (P.sha256 (text_of P g)) (std.sha256_plain (text_of P g)))

    -- Two ledgers that `validate_chain` can accept, with as many rows and one head hash, agree in
    -- every hashed field of every row, up to NFC, or two rows at one
    -- place in them have different hashed texts with one SHA-256 digest. It is assumed that the platform behaves as documented and that the genesis hash
    -- is in normal form.
    pub head_hash-determines :
        (a b : Db Text)
        → P.nfc genesis_parent_hash ≡ genesis_parent_hash
        → IsChained P genesis_parent_hash a.events
        → IsChained P genesis_parent_hash b.events
        → length a.events ≡ length b.events
        → head_hash a.events ≡ head_hash b.events
        → SameContents P a.events b.events ⊎ Collision P a.events b.events
    head_hash-determines a b normal ca cb len same =
        elim (agree_from genesis_parent_hash genesis_parent_hash a.events b.events normal normal ca
          cb len (cc (head_hash-eq-end_hash P a.events, head_hash-eq-end_hash P b.events))) [
            | inl (_, contents) ↦ inl contents
            | inr found ↦ inr found
          ]
