-- ===== src/Value.antt =====
-- The Python values that may stand in a payload, and their normalisation: `_normalize_value` of
-- leira/dispatcher/kernel.py. `unicodedata.normalize("NFC", ·)` is an argument.
pub mod Safe
pub mod Normal
use leira.Prelude.{
  ℕ, String, Bool, true, ◌&&◌, Option, none, some, List, [], ◌∷◌, ◌==◌, if◌then◌else◌,
}

pub data ℤ : Type 0 where
  pos negsuc : ℕ → ℤ

-- A dict key: a string, or a value of another type, given by that type's name.
pub data Key : Type 0 where
  name : String → Key
  other_key : String → Key

-- `float` holds the number as it is written, and `object` the type name of any other value.
mutual
  pub data Value : Type 0 where
    null : Value
    bool : Bool → Value
    int : ℤ → Value
    float : String → Value
    str : String → Value
    list : Items → Value
    tuple : Items → Value
    dict : Fields → Value
    object : String → Value

  pub data Items : Type 0 where
    nil : Items
    cons : Value → Items → Items

  -- in insertion order
  pub data Fields : Type 0 where
    end : Fields
    field : Key → Value → Fields → Fields

infixl 5 ◌>>=◌
abbrev pub ◌>>=◌ {ℓ κ} : {A : Type ℓ} {B : Type κ} → Option A → (A → Option B) → Option B
none >>= f = none
some a >>= f = f a

-- `d[k] = v`: an old key keeps its place, a new one goes to the end.
unfoldable pub put : String → Value → Fields → Fields
put k v end = field (name k) v end
put k v (field (name j) w rest) =
    if j == k then field (name j) v rest else field (name j) w (put k v rest)
put k v (field (other_key j) w rest) = field (other_key j) w (put k v rest)

-- `d.get(k)`
unfoldable pub get : String → Fields → Option Value
get k end = none
get k (field (name j) v rest) = if j == k then some v else get k rest
get k (field (other_key j) v rest) = get k rest

-- `normalize_fields fs done` is the loop of the dict branch, with `done` the new dict so far;
-- `none` is a raised `PayloadValidationError`.
unfoldable mutual
  pub normalize_value : (String → String) → Value → Option Value
  normalize_value nfc (str s) = some (str (nfc s))
  normalize_value nfc (bool b) = some (bool b)
  normalize_value nfc null = some null
  normalize_value nfc (int n) = some (int n)
  normalize_value nfc (float s) = none
  normalize_value nfc (dict fs) = normalize_fields nfc fs end >>= λ d. some (dict d)
  normalize_value nfc (list xs) = normalize_items nfc xs >>= λ ys. some (list ys)
  normalize_value nfc (tuple xs) = normalize_items nfc xs >>= λ ys. some (list ys)
  normalize_value nfc (object s) = none

  pub normalize_items : (String → String) → Items → Option Items
  normalize_items nfc nil = some nil
  normalize_items nfc (cons x xs) =
      normalize_value nfc x >>= λ y. normalize_items nfc xs >>= λ ys. some (cons y ys)

  pub normalize_fields : (String → String) → Fields → Fields → Option Fields
  normalize_fields nfc end done = some done
  normalize_fields nfc (field (other_key j) v rest) done = none
  normalize_fields nfc (field (name j) v rest) done =
      normalize_value nfc v >>= λ w. normalize_fields nfc rest (put (nfc j) w done)

-- Whether `json.dumps` can write each integer of the value.
unfoldable mutual
  pub prints : (ℤ → Bool) → Value → Bool
  prints p (int n) = p n
  prints p (dict fs) = prints_fields p fs
  prints p (list xs) = prints_items p xs
  prints p (tuple xs) = prints_items p xs
  prints p (str s) = true
  prints p (bool b) = true
  prints p null = true
  prints p (float s) = true
  prints p (object s) = true

  pub prints_items : (ℤ → Bool) → Items → Bool
  prints_items p nil = true
  prints_items p (cons x xs) = prints p x && prints_items p xs

  pub prints_fields : (ℤ → Bool) → Fields → Bool
  prints_fields p end = true
  prints_fields p (field k v rest) = prints p v && prints_fields p rest

-- `isinstance(v, str)` and the text
abbrev pub as_str : Value → Option String
as_str (str s) = some s
as_str _ = none

-- `isinstance(v, str)` and not empty
abbrev pub as_non_empty : Value → Option String
as_non_empty (str s) = if s == "" then none else some s
as_non_empty _ = none

-- `isinstance(v, dict)` and the fields
abbrev pub as_dict : Value → Option Fields
as_dict (dict fs) = some fs
as_dict _ = none

-- `d.get(k)` held to a type
unfoldable pub get_str : String → Fields → Option String
unfolding get
get_str k fs = get k fs >>= as_str

unfoldable pub get_non_empty : String → Fields → Option String
unfolding get
get_non_empty k fs = get k fs >>= as_non_empty

-- A dict display with string keys.
abbrev pub entries : List (String × Value) → Fields
entries [] = end
entries ((k, v) ∷ rest) = field (name k) v (entries rest)

abbrev pub optional : Option String → Value
optional none = null
optional (some s) = str s
