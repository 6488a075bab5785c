-- ===== src/Value.antt =====
-- The Python values that the scripts take from JSON, with the tests that the code makes on them.
-- A `dict` is its items in order, keys as written; two equal dicts may list them differently.
use hosted_replay_harness.Prelude.{
  ℕ, suc, ◌-◌, ◌*◌, ◌^◌, String, Bool, true, false, not, ◌&&◌, Option, none, some, List, [], ◌∷◌,
  str_eq, ◌==◌, any, if◌then◌else◌,
}

-- `negsuc n` is -(n + 1).
pub data ℤ : Type 0 where
  pos : ℕ → ℤ
  negsuc : ℕ → ℤ

-- Every finite float is `n / 2 ^ k`.
pub data Float : Type 0 where
  finite : ℤ → ℕ → Float
  infinite : Bool → Float
  nan : Float

-- `constant` is a float that the text spells `NaN`, `Infinity` or `-Infinity`.
mutual
  pub data Value : Type 0 where
    null : Value
    boolean : Bool → Value
    int : ℤ → Value
    float : Float → Value
    constant : Float → Value
    text : String → Value
    list : Items → Value
    dict : Fields → Value

  pub data Items : Type 0 where
    nil : Items
    cons : Value → Items → Items

  pub data Fields : Type 0 where
    end : Fields
    field : String → Value → Fields → Fields

-- A number of JSON text that is small and not negative.
abbrev pub num : ℕ → Value
num n = int (pos n)

abbrev pub scale : ℤ → ℕ → ℤ
scale (pos n) k = pos (n * 2 ^ k)
scale (negsuc n) k = negsuc (suc n * 2 ^ k - 1)

abbrev pub int_eq : ℤ → ℤ → Bool
int_eq (pos m) (pos n) = m == n
int_eq (negsuc m) (negsuc n) = m == n
int_eq _ _ = false

abbrev pub float_eq : Float → Float → Bool
float_eq (finite m j) (finite n k) = int_eq (scale m k) (scale n j)
float_eq (infinite a) (infinite b) = if a then b else not b
float_eq _ _ = false

-- `True` and `False` are the numbers 1 and 0.
abbrev pub as_number : Value → Option Float
as_number (boolean true) = some (finite (pos 1) 0)
as_number (boolean false) = some (finite (pos 0) 0)
as_number (int z) = some (finite z 0)
as_number (float f) = some f
as_number (constant f) = some f
as_number _ = none

abbrev pub number_eq : Option Float → Value → Bool
number_eq none w = false
number_eq (some f) w = elim (as_number w) [ none ↦ false | some g ↦ float_eq f g ]

abbrev pub as_text : Value → Option String
as_text (text s) = some s
as_text _ = none

abbrev pub as_list : Value → Option Items
as_list (list xs) = some xs
as_list _ = none

-- `value if isinstance(value, dict)`
abbrev pub as_dict : Value → Option Fields
as_dict (dict fs) = some fs
as_dict _ = none

abbrev pub is_null : Value → Bool
is_null null = true
is_null _ = false

abbrev pub is_text : Value → Bool
is_text (text s) = true
is_text _ = false

abbrev pub is_dict : Value → Bool
is_dict (dict fs) = true
is_dict _ = false

abbrev pub is_text_of : String → Value → Bool
is_text_of s (text t) = str_eq s t
is_text_of s _ = false

abbrev pub get? : String → Fields → Option Value
get? k end = none
get? k (field j v fs) = if str_eq j k then some v else get? k fs

-- `d.get(k)`
abbrev pub get : String → Fields → Value
get k fs = elim (get? k fs) [ none ↦ null | some v ↦ v ]

-- `k in d`
abbrev pub has : String → Fields → Bool
has k fs = elim (get? k fs) [ none ↦ false | some _ ↦ true ]

abbrev pub size : Fields → ℕ
size end = 0
size (field _ _ fs) = suc (size fs)

abbrev pub keys : Fields → List String
keys end = []
keys (field k _ fs) = k ∷ keys fs

abbrev pub items : Items → List Value
items nil = []
items (cons v xs) = v ∷ items xs

-- `k in {…}` over texts
abbrev pub among : String → List String → Bool
among k ks = any (str_eq k) ks

-- `a == b`
unfoldable mutual
  pub eq : Value → Value → Bool
  eq null w = is_null w
  eq (text s) w = is_text_of s w
  eq (list xs) w = elim (as_list w) [ none ↦ false | some ys ↦ eq_items xs ys ]
  eq (dict fs) w = elim (as_dict w) [
    | none ↦ false
    | some gs ↦ (size fs == size gs) && eq_fields fs gs
  ]
  eq v w = number_eq (as_number v) w

  eq_items : Items → Items → Bool
  eq_items nil nil = true
  eq_items (cons v xs) (cons w ys) = eq v w && eq_items xs ys
  eq_items _ _ = false

  eq_fields : Fields → Fields → Bool
  eq_fields end gs = true
  eq_fields (field k v fs) gs =
      elim (get? k gs) [ none ↦ false | some w ↦ eq v w ] && eq_fields fs gs

-- `d[k] = v`: an old key keeps its place.
abbrev pub put : String → Value → Fields → Fields
put k v end = field k v end
put k v (field j w fs) = if str_eq j k then field j v fs else field j w (put k v fs)

-- `bool(v)`
abbrev pub is_truthy : Value → Bool
is_truthy null = false
is_truthy (text s) = not (str_eq s "")
is_truthy (list nil) = false
is_truthy (list (cons _ _)) = true
is_truthy (dict end) = false
is_truthy (dict (field _ _ _)) = true
is_truthy v = not (number_eq (as_number v) (num 0))

-- `{key: value for key, value in fs.items() if key != k}`
abbrev pub without : String → Fields → Fields
without k end = end
without k (field j v fs) = if str_eq j k then without k fs else field j v (without k fs)

-- `d.update(e)` for an `e` with new keys only
abbrev pub append : Fields → Fields → Fields
append end gs = gs
append (field k v fs) gs = field k v (append fs gs)

abbrev pub is_text_in : List String → Value → Bool
is_text_in ss v = any (λ s. is_text_of s v) ss
