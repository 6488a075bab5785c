-- ===== src/Firewall/Checked.antt =====
-- What a check returns: a value, the code of a `BoundaryError`, or another exception.
use hosted_replay_harness.Prelude.{String, Bool, if◌then◌else◌, ◌≡◌, refl, true, false}

pub data Checked {ℓ} (A : Type ℓ) : Type ℓ where
  passed : A → Checked A
  rejected : String → Checked A
  type_error : Checked A

infixl 5 ◌>>=◌
abbrev pub ◌>>=◌ {ℓ κ} : {A : Type ℓ} {B : Type κ} → Checked A → (A → Checked B) → Checked B
passed a >>= f = f a
rejected code >>= f = rejected code
type_error >>= f = type_error

pub >>=-eq-passed {ℓ κ} :
    {A : Type ℓ} {B : Type κ} (m : Checked A) (f : A → Checked B) {b : B}
    → (m >>= f) ≡ passed b
    → (a : A) × (m ≡ passed a) × (f a ≡ passed b)
>>=-eq-passed (passed a) f h = (a, refl, h)
>>=-eq-passed (rejected code) f h = cc
>>=-eq-passed type_error f h = cc

-- `if not test: raise BoundaryError(code)`, and what follows.
unfoldable pub require {ℓ} : {A : Type ℓ} → Bool → String → Checked A → Checked A
require t code rest = if t then rest else rejected code

pub require-eq-passed {ℓ} :
    {A : Type ℓ} (t : Bool) (code : String) (rest : Checked A) {a : A}
    → require t code rest ≡ passed a
    → (t ≡ true) × (rest ≡ passed a)
unfolding require
require-eq-passed true code rest h = (refl, h)
require-eq-passed false code rest h = cc

-- A test of a set for membership, at a value that is hashable or not, and what follows.
unfoldable pub hashed {ℓ} : {A : Type ℓ} → Bool → Checked A → Checked A
hashed t rest = if t then rest else type_error

pub hashed-eq-passed {ℓ} :
    {A : Type ℓ} (t : Bool) (rest : Checked A) {a : A} → hashed t rest ≡ passed a → rest ≡ passed a
unfolding hashed
hashed-eq-passed true rest h = h
hashed-eq-passed false rest h = cc
