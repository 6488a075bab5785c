-- ===== src/TextOrder.antt =====
-- The order of texts, by their code points, and `sorted` on texts.
pub mod Groups
use mathlib.Core.Path.{ap₂}
use Prim.Native.Char.{code}
use text.Mathlib.TextEquality.{Char-path}
use hosted_replay_harness.Prelude.{
  Bool, Bytes, String, [], arith, codes, false, less, refl, true, ◌∷◌, ◌≡◌, List, ap, if◌then◌else◌,
  ℕ, eq_iff, str_eq, sym, ◌∙◌,
}

abbrev pub is_before : String → String → Bool
is_before s t = less (codes s) (codes t)

irreflexive : (s : Bytes) → less s s ≡ false
irreflexive [] = refl
irreflexive (c ∷ s) = ground (arith, irreflexive s)

transitive : (s t u : Bytes) → less s t ≡ true → less t u ≡ true → less s u ≡ true
transitive [] [] u h g = cc
transitive [] (c ∷ t) [] h g = cc
transitive [] (c ∷ t) (d ∷ u) h g = refl
transitive (b ∷ s) [] u h g = cc
transitive (b ∷ s) (c ∷ t) [] h g = cc
transitive (b ∷ s) (c ∷ t) (d ∷ u) h g = ground (arith, transitive s t u)

total : (s t : Bytes) → less s t ≡ false → less t s ≡ false → s ≡ t
total [] [] h g = refl
total [] (c ∷ t) h g = cc
total (b ∷ s) [] h g = cc
total (b ∷ s) (c ∷ t) h g = ground (arith, total s t)

codes_same : (s t : String) → codes s ≡ codes t → s ≡ t
codes_same String.[] String.[] h = refl
codes_same String.[] (String.◌∷◌ c t) h = cc
codes_same (String.◌∷◌ b s) String.[] h = cc
codes_same (String.◌∷◌ b s) (String.◌∷◌ c t) h =
    let same : (code b ≡ code c) × (codes s ≡ codes t) = (ap head h, ap tail h) in
    ap₂ String.◌∷◌ (Char-path b c same.0) (codes_same s t same.1)
  where
    head : Bytes → ℕ
    head [] = code b
    head (n ∷ ns) = n

    tail : Bytes → Bytes
    tail [] = []
    tail (n ∷ ns) = ns

pub is_before-irreflexive : (s : String) → is_before s s ≡ false
is_before-irreflexive s = irreflexive (codes s)

pub is_before-transitive :
    (s t u : String) → is_before s t ≡ true → is_before t u ≡ true → is_before s u ≡ true
is_before-transitive s t u = transitive (codes s) (codes t) (codes u)

pub is_before-total : (s t : String) → is_before s t ≡ false → is_before t s ≡ false → s ≡ t
is_before-total s t h g = codes_same s t (total (codes s) (codes t) h g)

pub is_before-asymmetric : (s t : String) → is_before s t ≡ true → is_before t s ≡ false
is_before-asymmetric s t h = by_cases (is_before t s) refl
  where
    by_cases : (b : Bool) → is_before t s ≡ b → is_before t s ≡ false
    by_cases false e = e
    by_cases true e = cc (is_before-transitive s t s h e, is_before-irreflexive s)

-- One text put into its place among sorted ones.
unfoldable pub place : String → List String → List String
place s [] = s ∷ []
place s (t ∷ ts) = let rest = place s ts in if is_before t s then t ∷ rest else s ∷ (t ∷ ts)

-- `sorted(texts)`
unfoldable pub sorted : List String → List String
unfolding place
sorted [] = []
sorted (s ∷ ss) = place s (sorted ss)

pub str_eq_self : (s : String) → str_eq s s ≡ true
str_eq_self s = (eq_iff s s).1 refl

-- `s` comes before `t`.
pub record Below (s t : String) : Type 0 where
  pub lt : is_before s t ≡ true
  pub not_gt : is_before t s ≡ false
  pub not_same : str_eq s t ≡ false
  pub not_same_back : str_eq t s ≡ false

apart : (s t : String) → is_before s t ≡ true → str_eq s t ≡ false
apart s t h = by_cases (str_eq s t) refl
  where
    by_cases : (b : Bool) → str_eq s t ≡ b → str_eq s t ≡ false
    by_cases false e = e
    by_cases true e =
        cc (sym h ∙ ap (is_before s) (sym ((eq_iff s t).0 e)) ∙ is_before-irreflexive s)

apart_back : (s t : String) → is_before s t ≡ true → str_eq t s ≡ false
apart_back s t h = by_cases (str_eq t s) refl
  where
    by_cases : (b : Bool) → str_eq t s ≡ b → str_eq t s ≡ false
    by_cases false e = e
    by_cases true e = cc (sym h ∙ ap (is_before s) ((eq_iff t s).0 e) ∙ is_before-irreflexive s)

pub is_before-Below : (s t : String) → is_before s t ≡ true → Below s t
is_before-Below s t h = record {
  lt = h;
  not_gt = is_before-asymmetric s t h;
  not_same = apart s t h;
  not_same_back = apart_back s t h;
}

pub data Compared (s t : String) : Type 0 where
  below : Below s t → Compared s t
  same : s ≡ t → Compared s t
  above : Below t s → Compared s t

pub compared : (s t : String) → Compared s t
compared s t = by_cases (is_before s t) (is_before t s) refl refl
  where
    by_cases : (x y : Bool) → is_before s t ≡ x → is_before t s ≡ y → Compared s t
    by_cases true y e f = below (is_before-Below s t e)
    by_cases false true e f = above (is_before-Below t s f)
    by_cases false false e f = same (is_before-total s t e f)
