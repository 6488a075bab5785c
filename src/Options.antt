-- ===== src/Options.antt =====
-- A chain of steps each of which may raise: `none` is the exception.
use hosted_replay_harness.Prelude.{Option, none, some, ◌≡◌, refl, Bool, false, if◌then◌else◌, true}

infixl 5 ◌>>=◌
abbrev pub ◌>>=◌ {ℓ κ} : {A : Type ℓ} {B : Type κ} → Option A → (A → Option B) → Option B
none >>= f = none
some a >>= f = f a

pub >>=-eq-some {ℓ κ} :
    {A : Type ℓ} {B : Type κ} (m : Option A) (f : A → Option B) {b : B}
    → (m >>= f) ≡ some b
    → (a : A) × (m ≡ some a) × (f a ≡ some b)
>>=-eq-some none f h = cc
>>=-eq-some (some a) f h = (a, refl, h)

-- `if not test: raise …`, and what follows.
infixl 5 ◌>>◌
abbrev pub ◌>>◌ {ℓ} : {B : Type ℓ} → Option (Unit {0}) → Option B → Option B
none >> rest = none
some _ >> rest = rest

pub >>-eq-some {ℓ} :
    {B : Type ℓ} (m : Option (Unit {0})) (rest : Option B) {b : B}
    → (m >> rest) ≡ some b
    → rest ≡ some b
>>-eq-some none rest h = cc
>>-eq-some (some u) rest h = h

abbrev pub only_if {ℓ} : {A : Type ℓ} → Bool → Option A → Option A
only_if t o = if t then o else none

pub only_if-eq-some {ℓ} :
    {A : Type ℓ} (t : Bool) (o : Option A) {a : A}
    → only_if t o ≡ some a
    → (t ≡ true) × (o ≡ some a)
only_if-eq-some true o h = (refl, h)
only_if-eq-some false o h = cc
