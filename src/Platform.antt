-- ===== src/Platform.antt =====
-- What the program takes from Python and from SQLite, and does not implement itself: the argument
-- of every model that reads or writes the ledger.
--
-- `Text` is the type of JSON texts, the values of the column `payload_json`. A `String` is a sequence of
-- Unicode scalar values, so each has a UTF-8 form: Python strings with lone surrogates are no texts here.
use leira.Prelude.{ℕ, ◌≡◌, ◌≢◌, String, Bool, true, Option, some, List, [], ◌∷◌, contains}
use leira.Value.{ℤ, Value, Fields, dict, get_str, normalize_value, prints_fields}

pub record Platform (Text : Type 0) : Type 0 where
  -- unicodedata.normalize("NFC", ·)
  pub nfc : String → String
  -- Whether `str(n)` returns: the interpreter raises a ValueError for an integer of more digits than its
  -- limit, 4300 unless it is set otherwise.
  pub prints_int : ℤ → Bool
  -- json.dumps(·, sort_keys=True, separators=(",", ":"), ensure_ascii=False, allow_nan=False), of a value
  -- whose integers print
  pub dumps : Value → Text
  -- json.loads, with `none` for a ValueError
  pub loads : Text → Option Value
  -- a JSON text as the Python string that it is
  pub text : Text → String
  -- hashlib.sha256(·.encode("utf-8")).hexdigest()
  pub sha256 : Text → String
  -- `mentions k v t` is SQLite's answer to: t LIKE '%"k":"v"%'
  pub mentions : String → String → Text → Bool
  -- str.lower()
  pub lower : String → String
  -- repr of a value, as it is recorded in the place of one that cannot be stored
  pub repr : Value → String
  -- str(uuid.uuid4()), datetime.now(timezone.utc).isoformat(), and whether a write to the database
  -- raises sqlite3.Error, each at the n-th draw from outside
  pub uuid4 : ℕ → String
  pub now : ℕ → String
  pub fails : ℕ → Bool

-- The keys of the payloads that the program itself writes; all are ASCII.
abbrev pub key_names : List String
key_names =
    "run_id" ∷ "operation_id" ∷ "intent_id" ∷ "intent_type" ∷ "payload" ∷ "status" ∷ "worker_name"
    ∷ "error_type" ∷ "error_message" ∷ "claim_id" ∷ "owner_id" ∷ "artifact" ∷ "session_id" ∷ []

-- Documented behaviour that some theorems rely on. It is stated for the dicts that a normalisation
-- gives, whose keys are distinct strings and whose values JSON can say, where their integers print, and
-- for names and ids that JSON writes as they are and `LIKE` compares as they are (`is_plain`).
--
-- A real platform has it with `is_plain` true of the non-empty texts of at most 100 ASCII letters,
-- digits and hyphens.
pub record IsStandard {Text : Type 0} (P : Platform Text) (is_plain : String → Bool) : Type 0 where
  -- Reading a written dict back gives its strings.
  pub loads-dumps :
      (f : String → String) (v : Value) (fs : Fields)
      → normalize_value f v ≡ some (dict fs)
      → prints_fields P.prints_int fs ≡ true
      → (gs : Fields) × (P.loads (P.dumps (dict fs)) ≡ some (dict gs))
        × ((k : String) → get_str k gs ≡ get_str k fs)
  -- The text of a dict shows its plain string entries under the key names of the program.
  pub mentions-dumps :
      (f : String → String) (v : Value) (fs : Fields) (k s : String)
      → normalize_value f v ≡ some (dict fs)
      → prints_fields P.prints_int fs ≡ true
      → contains key_names k ≡ true
      → get_str k fs ≡ some s
      → is_plain s ≡ true
      → P.mentions k s (P.dumps (dict fs)) ≡ true
  -- Plain texts are in normal form.
  pub nfc_plain : (s : String) → is_plain s ≡ true → P.nfc s ≡ s
  -- So are the key names.
  pub nfc_key : (k : String) → contains key_names k ≡ true → P.nfc k ≡ k
  -- What `uuid4` returns is plain and not empty.
  pub uuid4_plain : (n : ℕ) → is_plain (P.uuid4 n) ≡ true
  pub uuid4_ne_empty : (n : ℕ) → P.uuid4 n ≢ ""
  -- A hexadecimal digest is plain.
  pub sha256_plain : (t : Text) → is_plain (P.sha256 t) ≡ true
