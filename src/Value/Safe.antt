-- ===== src/Value/Safe.antt =====
-- Which values normalise: exactly those with no float, no foreign object and no other key.
use leira.Prelude.{
  ◌≡◌, refl, ◌∙◌, String, Bool, true, false, Option, none, some, ◌&&◌, is_some, ap, arith,
}
use leira.Value.{
  ℤ, prints, prints_items, prints_fields, Value, Items, Fields, null, bool, int, float, str, list,
  tuple, dict, object, nil, cons, end, field, name, other_key, put, normalize_value,
  normalize_items, normalize_fields, ◌>>=◌,
}

-- What JSON can say, read off the value alone.
unfoldable mutual
  pub is_safe : Value → Bool
  is_safe (float s) = false
  is_safe (object s) = false
  is_safe (dict fs) = is_safe_fields fs
  is_safe (list xs) = is_safe_items xs
  is_safe (tuple xs) = is_safe_items xs
  is_safe (str s) = true
  is_safe (bool b) = true
  is_safe (int n) = true
  is_safe null = true

  pub is_safe_items : Items → Bool
  is_safe_items nil = true
  is_safe_items (cons x xs) = is_safe x && is_safe_items xs

  pub is_safe_fields : Fields → Bool
  is_safe_fields end = true
  is_safe_fields (field (other_key j) v rest) = false
  is_safe_fields (field (name j) v rest) = is_safe v && is_safe_fields rest

is_some-bind :
    {A B : Type 0} (o : Option A) (f : A → Option B) (b : Bool)
    → ((a : A) → is_some (f a) ≡ b)
    → is_some (o >>= f) ≡ (is_some o && b)
is_some-bind none f b h = refl
is_some-bind (some a) f b h = h a

is_some-bind_some :
    {A B : Type 0} (o : Option A) (f : A → B) → is_some (o >>= λ a. some (f a)) ≡ is_some o
is_some-bind_some none f = refl
is_some-bind_some (some a) f = refl

mutual
  unfolding is_safe normalize_value

  safe_value : (nfc : String → String) (v : Value) → is_some (normalize_value nfc v) ≡ is_safe v
  safe_value nfc (str s) = refl
  safe_value nfc (bool b) = refl
  safe_value nfc null = refl
  safe_value nfc (int n) = refl
  safe_value nfc (float s) = refl
  safe_value nfc (dict fs) =
      is_some-bind_some (normalize_fields nfc fs end) dict ∙ safe_fields nfc fs end
  safe_value nfc (list xs) = is_some-bind_some (normalize_items nfc xs) list ∙ safe_items nfc xs
  safe_value nfc (tuple xs) = is_some-bind_some (normalize_items nfc xs) list ∙ safe_items nfc xs
  safe_value nfc (object s) = refl

  safe_items :
      (nfc : String → String) (xs : Items) → is_some (normalize_items nfc xs) ≡ is_safe_items xs
  safe_items nfc nil = refl
  safe_items nfc (cons x xs) =
      is_some-bind (normalize_value nfc x) _ (is_safe_items xs)
        (λ y. is_some-bind_some (normalize_items nfc xs) (cons y) ∙ safe_items nfc xs)
      ∙ ap (λ b. b && is_safe_items xs) (safe_value nfc x)

  safe_fields :
      (nfc : String → String) (fs done : Fields)
      → is_some (normalize_fields nfc fs done) ≡ is_safe_fields fs
  safe_fields nfc end done = refl
  safe_fields nfc (field (other_key j) v rest) done = refl
  safe_fields nfc (field (name j) v rest) done =
      is_some-bind (normalize_value nfc v) _ (is_safe_fields rest)
        (λ w. safe_fields nfc rest (put (nfc j) w done))
      ∙ ap (λ b. b && is_safe_fields rest) (safe_value nfc v)

-- `_normalize_value` accepts exactly the values that are built from null, booleans, integers, texts,
-- lists, tuples and dicts with string keys: no float and no other object, at any depth.
pub is_some-normalize_value :
    (nfc : String → String) (v : Value) → is_some (normalize_value nfc v) ≡ is_safe v
is_some-normalize_value nfc v = safe_value nfc v

-- What JSON can say and the interpreter can print.
unfoldable mutual
  pub is_printable : (ℤ → Bool) → Value → Bool
  is_printable p (float s) = false
  is_printable p (object s) = false
  is_printable p (dict fs) = is_printable_fields p fs
  is_printable p (list xs) = is_printable_items p xs
  is_printable p (tuple xs) = is_printable_items p xs
  is_printable p (str s) = true
  is_printable p (bool b) = true
  is_printable p (int n) = p n
  is_printable p null = true

  pub is_printable_items : (ℤ → Bool) → Items → Bool
  is_printable_items p nil = true
  is_printable_items p (cons x xs) = is_printable p x && is_printable_items p xs

  pub is_printable_fields : (ℤ → Bool) → Fields → Bool
  is_printable_fields p end = true
  is_printable_fields p (field (other_key j) v rest) = false
  is_printable_fields p (field (name j) v rest) = is_printable p v && is_printable_fields p rest

prints-put :
    (p : ℤ → Bool) (k : String) (v : Value) (fs : Fields)
    → prints p v ≡ true
    → prints_fields p fs ≡ true
    → prints_fields p (put k v fs) ≡ true
unfolding put prints
prints-put p k v end own others = ground arith
prints-put p k v (field (name j) w rest) own others = ground (arith, prints-put p k v rest own)
prints-put p k v (field (other_key j) w rest) own others = ground (arith, prints-put p k v rest own)

-- A printable value has a normal form, which prints.
abbrev pub Prints : {A : Type 0} → (A → Bool) → Option A → Type 0
Prints {A} q o = (a : A) × (o ≡ some a) × (q a ≡ true)

and_both : (a b : Bool) → (a && b) ≡ true → (a ≡ true) × (b ≡ true)
and_both a b h = ground arith

mutual
  unfolding is_printable normalize_value prints

  print_value :
      (p : ℤ → Bool) (nfc : String → String) (v : Value)
      → is_printable p v ≡ true
      → Prints (prints p) (normalize_value nfc v)
  print_value p nfc (str s) h = (str (nfc s), refl, refl)
  print_value p nfc (bool b) h = (bool b, refl, refl)
  print_value p nfc null h = (null, refl, refl)
  print_value p nfc (int n) h = (int n, refl, h)
  print_value p nfc (float s) h = absurd (cc)
  print_value p nfc (object s) h = absurd (cc)
  print_value p nfc (dict fs) h =
      let (gs, made, good) = print_fields p nfc fs end h refl in (dict gs, rw (made) refl, good)
  print_value p nfc (list xs) h =
      let (ys, made, good) = print_items p nfc xs h in (list ys, rw (made) refl, good)
  print_value p nfc (tuple xs) h =
      let (ys, made, good) = print_items p nfc xs h in (list ys, rw (made) refl, good)

  print_items :
      (p : ℤ → Bool) (nfc : String → String) (xs : Items)
      → is_printable_items p xs ≡ true
      → Prints (prints_items p) (normalize_items nfc xs)
  print_items p nfc nil h = (nil, refl, refl)
  print_items p nfc (cons x xs) h =
      let (hx, hxs) = and_both (is_printable p x) (is_printable_items p xs) h in
      let (y, made, good) = print_value p nfc x hx in
      let (ys, others, rest) = print_items p nfc xs hxs in
      (cons y ys, rw (made, others) refl, rw (good) rest)

  print_fields :
      (p : ℤ → Bool) (nfc : String → String) (fs done : Fields)
      → is_printable_fields p fs ≡ true
      → prints_fields p done ≡ true
      → Prints (prints_fields p) (normalize_fields nfc fs done)
  print_fields p nfc end done h good = (done, refl, good)
  print_fields p nfc (field (other_key j) v rest) done h good = absurd (cc)
  print_fields p nfc (field (name j) v rest) done h good =
      let (hv, hrest) = and_both (is_printable p v) (is_printable_fields p rest) h in
      let (w, made, own) = print_value p nfc v hv in
      let (gs, others, all) =
        print_fields p nfc rest (put (nfc j) w done) hrest (prints-put p (nfc j) w done own good) in
      (gs, rw (made) others, all)

pub normalize_value-printable :
    (p : ℤ → Bool) (nfc : String → String) (v : Value)
    → is_printable p v ≡ true
    → Prints (prints p) (normalize_value nfc v)
normalize_value-printable p nfc v h = print_value p nfc v h
