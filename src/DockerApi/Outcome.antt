-- ===== src/DockerApi/Outcome.antt =====
-- How a check of the policy ends: `PolicyViolation`, `DBStartPolicy.fail`, other exceptions.
use hosted_replay_harness.Prelude.{◌≡◌, refl, Bool, true, false}

-- POLICY_FAILURE_CODES without "NONE", which `PolicyViolation` does not carry.
pub data FailureCode : Type 0 where
  descriptor_invalid ledger_lost concurrent_request api_version_rejected : FailureCode
  operation_rejected order_rejected query_rejected media_type_rejected : FailureCode
  framing_rejected body_oversized body_rejected identity_rejected : FailureCode
  status_rejected response_rejected stream_rejected : FailureCode

pub data Failure : Type 0 where
  violation : FailureCode → Failure
  value_error attribute_error type_error : Failure

-- `fail c` is `self.fail(c)`, which marks the policy before it raises; `raised` only raises.
pub data Outcome {ℓ} (A : Type ℓ) : Type ℓ where
  ok : A → Outcome A
  fail : FailureCode → Outcome A
  raised : Failure → Outcome A

infixl 5 ◌>>=◌
infixl 5 ◌>>◌
-- An exception passes over the rest of the method.
abbrev pub ◌>>=◌ {ℓ κ} : {A : Type ℓ} {B : Type κ} → Outcome A → (A → Outcome B) → Outcome B
raised exception >>= rest = raised exception
fail code >>= rest = fail code
ok value >>= rest = rest value

-- The statements behind a check.
abbrev pub ◌>>◌ {ℓ} : {B : Type ℓ} → Outcome (Unit {0}) → Outcome B → Outcome B
checked >> rest = checked >>= λ _. rest

abbrev pub fail_if : Bool → FailureCode → Outcome (Unit {0})
fail_if true c = fail c
fail_if false c = ok tt

-- `raise PolicyViolation(c)`
abbrev pub raise_if : Bool → FailureCode → Outcome (Unit {0})
raise_if true c = raised (violation c)
raise_if false c = ok tt

-- Inversion of a successful bind, and of a check that let the code go on.
pub >>=-eq-ok {ℓ κ} :
    {A : Type ℓ} {B : Type κ} (m : Outcome A) (rest : A → Outcome B) {b : B}
    → (m >>= rest) ≡ ok b
    → (a : A) × (m ≡ ok a) × (rest a ≡ ok b)
>>=-eq-ok (fail code) rest h = cc
>>=-eq-ok (raised exception) rest h = cc
>>=-eq-ok (ok value) rest h = (value, refl, h)

module _ {ℓ} {B : Type ℓ} (t : Bool) (c : FailureCode) (k : Outcome B) {b : B} where
  pub fail_if-passed : (fail_if t c >> k) ≡ ok b → (t ≡ false) × (k ≡ ok b)
  fail_if-passed = passed t
    where
      passed : (t : Bool) → (fail_if t c >> k) ≡ ok b → (t ≡ false) × (k ≡ ok b)
      passed true h = cc
      passed false h = (refl, h)

  pub raise_if-passed : (raise_if t c >> k) ≡ ok b → (t ≡ false) × (k ≡ ok b)
  raise_if-passed = passed t
    where
      passed : (t : Bool) → (raise_if t c >> k) ≡ ok b → (t ≡ false) × (k ≡ ok b)
      passed true h = cc
      passed false h = (refl, h)
