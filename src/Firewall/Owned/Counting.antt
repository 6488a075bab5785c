-- ===== src/Firewall/Owned/Counting.antt =====
-- How often names occur in a list that has as many entries as there are expected names.
use hosted_replay_harness.Prelude.{
  Bool, List, String, [], all, any, ap, arith, eq_iff, false, length, not, refl, str_eq, true, ℕ,
  ◌&&◌, ◌+◌, ◌||◌, ◌∙◌, ◌∷◌, ◌≡◌, ◌≤◌, ◌==◌,
}
use hosted_replay_harness.Value.{
  Value, among, boolean, constant, dict, float, int, is_text_in, is_text_of, list, null, text,
}
use hosted_replay_harness.Firewall.Owned.{are_named}
use mathlib.Core.Path.{subst}

abbrev pub bit : Bool → ℕ
bit true = 1
bit false = 0

abbrev pub occurrences : String → List Value → ℕ
occurrences s [] = 0
occurrences s (v ∷ vs) = bit (is_text_of s v) + occurrences s vs

abbrev hits : List String → Value → ℕ
hits [] v = 0
hits (s ∷ ss) v = bit (is_text_of s v) + hits ss v

abbrev sum_of : List String → List Value → ℕ
sum_of [] vs = 0
sum_of (s ∷ ss) vs = occurrences s vs + sum_of ss vs

abbrev pub are_distinct : List String → Bool
are_distinct [] = true
are_distinct (s ∷ ss) = not (among s ss) && are_distinct ss

sum_of-step :
    (ss : List String) (v : Value) (vs : List Value) → sum_of ss (v ∷ vs) ≡ hits ss v + sum_of ss vs
sum_of-step [] v vs = refl
sum_of-step (s ∷ ss) v vs = omega (arith, sum_of-step ss v vs)

sum_of-nil : (ss : List String) → sum_of ss [] ≡ 0
sum_of-nil [] = refl
sum_of-nil (s ∷ ss) = omega (arith, sum_of-nil ss)

hits-zero : (ss : List String) (t : String) → among t ss ≡ false → hits ss (text t) ≡ 0
hits-zero [] t h = refl
hits-zero (s ∷ ss) t h = ground (arith, hits-zero ss t, eq_iff s t, eq_iff t s)

hits-one :
    (ss : List String) (t : String)
    → are_distinct ss ≡ true
    → is_text_in ss (text t) ≡ true
    → hits ss (text t) ≡ 1
hits-one [] t d h = cc
hits-one (s ∷ ss) t d h = ground (arith, hits-one ss t, hits-zero ss t, eq_iff s t)

no_text_in :
    (ss : List String) (v : Value)
    → ((s : String) → is_text_of s v ≡ false)
    → is_text_in ss v ≡ false
no_text_in [] v f = refl
no_text_in (s ∷ ss) v f = rw (f s) (no_text_in ss v f)

hits-value :
    (ss : List String) (v : Value) → are_distinct ss ≡ true → is_text_in ss v ≡ true → hits ss v ≡ 1
hits-value ss (text t) d h = hits-one ss t d h
hits-value ss null d h = cc (no_text_in ss null (λ s. refl))
hits-value ss (boolean b) d h = cc (no_text_in ss (boolean b) (λ s. refl))
hits-value ss (int z) d h = cc (no_text_in ss (int z) (λ s. refl))
hits-value ss (float f) d h = cc (no_text_in ss (float f) (λ s. refl))
hits-value ss (constant f) d h = cc (no_text_in ss (constant f) (λ s. refl))
hits-value ss (list xs) d h = cc (no_text_in ss (list xs) (λ s. refl))
hits-value ss (dict fs) d h = cc (no_text_in ss (dict fs) (λ s. refl))

sum_of-length :
    (ss : List String) (vs : List Value)
    → are_distinct ss ≡ true
    → all (is_text_in ss) vs ≡ true
    → sum_of ss vs ≡ length vs
sum_of-length ss [] d h = sum_of-nil ss
sum_of-length ss (v ∷ vs) d h =
    let (first, rest) = both (is_text_in ss v) (all (is_text_in ss) vs) h in
    omega (arith, sum_of-step ss v vs, hits-value ss v d first, sum_of-length ss vs d rest)
  where
    both : (a b : Bool) → (a && b) ≡ true → (a ≡ true) × (b ≡ true)
    both a b h = ground arith

present : (s : String) (vs : List Value) → any (is_text_of s) vs ≡ true → 1 ≤ occurrences s vs
present s [] h = cc
present s (v ∷ vs) h = ground (arith, present s vs)

sum_of-least :
    (ss : List String) (vs : List Value)
    → all (λ s. any (is_text_of s) vs) ss ≡ true
    → length ss ≤ sum_of ss vs
sum_of-least [] vs h = omega arith
sum_of-least (s ∷ ss) vs h = ground (arith, present s vs, sum_of-least ss vs)

all_once :
    (ss : List String) (vs : List Value)
    → all (λ s. any (is_text_of s) vs) ss ≡ true
    → sum_of ss vs ≡ length ss
    → (s : String) → among s ss ≡ true
    → occurrences s vs ≡ 1
all_once [] vs h e s m = cc
all_once (t ∷ ss) vs h e s m =
    let (first, rest) = both (any (is_text_of t) vs) (all (λ s. any (is_text_of s) vs) ss) h in
    let one : occurrences t vs ≡ 1 =
      omega (arith, e, present t vs first, sum_of-least ss vs rest) in
    let others : sum_of ss vs ≡ length ss = omega (arith, e, one) in
    by_name (str_eq s t) refl one (all_once ss vs rest others s) m
  where
    both : (a b : Bool) → (a && b) ≡ true → (a ≡ true) × (b ≡ true)
    both a b h = ground arith

    by_name :
        (b : Bool)
        → str_eq s t ≡ b
        → occurrences t vs ≡ 1
        → (among s ss ≡ true → occurrences s vs ≡ 1)
        → (str_eq s t || among s ss) ≡ true
        → occurrences s vs ≡ 1
    by_name true e one f m = ap (λ s. occurrences s vs) ((eq_iff s t).0 e) ∙ one
    by_name false e one f m = f (subst (λ b. (b || among s ss) ≡ true) e m)

equal_numbers : (m n : ℕ) → (m == n) ≡ true → m ≡ n
equal_numbers m n h = ground arith

-- Where there are as many names as are expected, distinct ones, each is expected, and each expected
-- one is there, each occurs once.
pub are_named-once :
    (expected : List String) (names : List Value)
    → are_distinct expected ≡ true
    → are_named expected names ≡ true
    → (s : String) → among s expected ≡ true
    → occurrences s names ≡ 1
are_named-once expected names d h s m =
    let (same_length, sound, complete) = parts _ _ _ h in
    all_once expected names complete
      (omega (arith, sum_of-length expected names d sound, equal_numbers _ _ same_length)) s m
  where
    parts : (a b c : Bool) → (a && (b && c)) ≡ true → (a ≡ true) × (b ≡ true) × (c ≡ true)
    parts a b c h = ground arith
