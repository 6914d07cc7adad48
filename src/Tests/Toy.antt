-- ===== src/Tests/Toy.antt =====
-- A platform to run the models on: a JSON text is the value itself, a digest is the strings of the
-- value joined, NFC composes one text, and the ids are "u", "uu", "uuu" and so on.
use Prim.Native.Nat.{ℕ, zero, suc}
use Prim.Native.Char.{Char, code}
use Prim.Native.String
use text.Mathlib.TextLemmas.{nil≢cons, tail-eq_of_cons-eq, head-eq_of_cons-eq}
use leira.Prelude.{
  ◌≤◌, ◌≡◌, refl, ap, sym, ◌∙◌, ◌≢◌, String, Bool, true, false, not, ◌&&◌, ◌||◌, some, arith, ◌==◌,
  eq_iff, eq_refl, contains, if◌then◌else◌, Bool-cases, inl, inr,
}
use leira.Value.{
  Value, Items, Fields, str, list, tuple, dict, nil, cons, end, field, name, other_key, get_str,
}
use leira.Platform.{Platform, IsStandard, key_names}

-- "é" as e and a combining accent, which NFC composes.
abbrev pub decomposed : String
decomposed = "é"

abbrev pub composed : String
composed = "é"

abbrev pub is_plain : String → Bool
is_plain s = not (s == decomposed)

unfoldable mutual
  pub flat : Value → String
  flat (str s) = s
  flat (dict fs) = flat_fields fs
  flat (list xs) = flat_items xs
  flat (tuple xs) = flat_items xs
  flat _ = "-"

  pub flat_items : Items → String
  flat_items nil = ""
  flat_items (cons x xs) = String.◌++◌ (flat x) (flat_items xs)

  pub flat_fields : Fields → String
  flat_fields end = ""
  flat_fields (field k v rest) = String.◌++◌ (flat v) (flat_fields rest)

abbrev is_entry : String → String → String → Value → Bool
is_entry k s j (str t) = j == k && t == s
is_entry k s j _ = false

unfoldable mutual
  pub shows : String → String → Value → Bool
  shows k s (dict fs) = shows_fields k s fs
  shows k s (list xs) = shows_items k s xs
  shows k s _ = false

  pub shows_items : String → String → Items → Bool
  shows_items k s nil = false
  shows_items k s (cons x xs) = shows k s x || shows_items k s xs

  pub shows_fields : String → String → Fields → Bool
  shows_fields k s end = false
  shows_fields k s (field (name j) v rest) =
      is_entry k s j v || (shows k s v || shows_fields k s rest)
  shows_fields k s (field (other_key j) v rest) = shows k s v || shows_fields k s rest

abbrev letter : Char
letter = "u"

unfoldable pub uuid : ℕ → String
uuid zero = String.◌∷◌ letter String.[]
uuid (suc n) = String.◌∷◌ letter (uuid n)

unfoldable pub digest : Value → String
unfolding flat
digest v = if flat v == decomposed then "0" else flat v

abbrev pub toy : (ℕ → Bool) → Platform Value
toy fails = record {
  nfc = λ s. if s == decomposed then composed else s;
  prints_int = λ n. true;
  dumps = λ v. v;
  loads = λ v. some v;
  text = flat;
  sha256 = digest;
  mentions = shows;
  lower = λ s. s;
  repr = λ v. "repr";
  uuid4 = uuid;
  now = λ n. "now";
  fails = fails;
}

or_right : (a b c : Bool) → c ≡ true → (a || (b || c)) ≡ true
or_right a b c h = ground arith

shows-get_str : (k s : String) (fs : Fields) → get_str k fs ≡ some s → shows_fields k s fs ≡ true
unfolding shows get_str
shows-get_str k s end h = cc
shows-get_str k s (field (other_key j) v rest) h = ground (arith, shows-get_str k s rest h)
shows-get_str k s (field (name j) (str t) rest) h =
    ground (arith, shows-get_str k s rest, eq_refl s)
shows-get_str k s (field (name j) v rest) h =
    or_right (is_entry k s j v) (shows k s v) (shows_fields k s rest)
      (shows-get_str k s rest (ground arith))

uuid_first : (n : ℕ) → (rest : String) × (uuid n ≡ String.◌∷◌ letter rest)
unfolding uuid
uuid_first zero = (String.[], refl)
uuid_first (suc n) = (uuid n, refl)

uuid_ne : (n : ℕ) (c : Char) (s : String) → code letter ≢ code c → uuid n ≢ String.◌∷◌ c s
uuid_ne n c s differ same =
    let (rest, first) = uuid_first n in differ (ap code (head-eq_of_cons-eq (sym first ∙ same)))

uuid_not_empty : (n : ℕ) → uuid n ≢ String.[]
uuid_not_empty n h = let (rest, first) = uuid_first n in nil≢cons (sym h ∙ first)

uuid-injective : (m n : ℕ) → uuid m ≡ uuid n → m ≡ n
unfolding uuid
uuid-injective zero zero h = refl
uuid-injective zero (suc n) h = absurd (uuid_not_empty n (sym (tail-eq_of_cons-eq h)))
uuid-injective (suc m) zero h = absurd (uuid_not_empty m (tail-eq_of_cons-eq h))
uuid-injective (suc m) (suc n) h = ap suc (uuid-injective m n (tail-eq_of_cons-eq h))

pub uuid_apart : (m n : ℕ) → suc m ≤ n → (uuid m == uuid n) ≡ false
uuid_apart m n before = elim (Bool-cases (uuid m == uuid n)) [
  | inr apart ↦ apart
  | inl same ↦
      let again : m ≡ n = uuid-injective m n ((eq_iff (uuid m) (uuid n)).0 same) in
      absurd (omega (arith, again, before))
]

uuid_plain : (n : ℕ) → is_plain (uuid n) ≡ true
uuid_plain n = elim (Bool-cases (uuid n == decomposed)) [
  | inr other ↦ rw other
  | inl same ↦
      let e : Char = "e" in
      absurd (uuid_ne n e "́" (omega arith) ((eq_iff (uuid n) decomposed).0 same))
]

digest_plain : (v : Value) → is_plain (digest v) ≡ true
unfolding digest
digest_plain v = elim (Bool-cases (flat v == decomposed)) [
  | inl same ↦ rw (same, digest) refl
  | inr other ↦ rw (other, digest) (rw other refl)
]

nfc_of_key :
    (k : String) → contains key_names k ≡ true → (if k == decomposed then composed else k) ≡ k
nfc_of_key k known = elim (Bool-cases (k == decomposed)) [
  | inr other ↦ rw other
  | inl same ↦
      let not_known : false ≡ true = rw ((eq_iff k decomposed).0 same) at known in absurd (cc)
]

-- The toy platform behaves as the theorems assume.
pub toy-IsStandard : (fails : ℕ → Bool) → IsStandard (toy fails) is_plain
toy-IsStandard fails = record {
  loads-dumps = λ f v fs normal printed. (fs, refl, λ k. refl);
  mentions-dumps =
      λ f v fs k s normal printed known given plain. unfold shows in shows-get_str k s fs given;
  nfc_plain = λ s plain. ground arith;
  nfc_key = nfc_of_key;
  uuid4_plain = uuid_plain;
  uuid4_ne_empty = uuid_not_empty;
  sha256_plain = digest_plain;
}
