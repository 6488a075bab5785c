-- ===== src/StartLog/Verdicts.antt =====
-- What the scan of a log keeps.
use hosted_replay_harness.StartLog.{
  Action, action, dropped, is_control, kept, passed_over, scan, scanned, sequence, sgr_length,
}
use hosted_replay_harness.Prelude.{
  Bool, Bytes, Option, [], all, ap, arith, false, if◌then◌else◌, none, not, refl, some, suc, true,
  zero, ℕ, ◌&&◌, ◌==◌, ◌∙◌, ◌∷◌, ◌≡◌,
}

is_clean : ℕ → Bool
is_clean b = not (is_control b)

-- Bytes without an escape and without a control byte are kept.
abbrev pub is_plain : ℕ → Bool
is_plain b = not (b == 27) && not (is_control b)

pub and_true : (a b : Bool) → (a && b) ≡ true → (a ≡ true) × (b ≡ true)
and_true a b h = ground arith

if-false {ℓ} : {A : Type ℓ} (a b : A) (t : Bool) → not t ≡ true → (if t then a else b) ≡ b
if-false a b true h = cc
if-false a b false h = refl

plain-action : (b : ℕ) (raw : Bytes) → is_plain b ≡ true → action b raw ≡ kept
plain-action b raw h =
    let (not_escape, not_control) = and_true _ _ h in
    if-false _ _ (b == 27) not_escape ∙ if-false _ _ (is_control b) not_control

scan-plain :
    (raw : Bytes)
    → all is_plain raw ≡ true
    → scan 0 raw ≡ record { output = raw; sgr_count = 0; rejected_count = 0 }
unfolding scan
scan-plain [] h = refl
scan-plain (b ∷ raw) h =
    let (first, rest) = and_true _ _ h in
    rw (plain-action b raw first) (ap (scanned kept b) (scan-plain raw rest))

action-kept : (b : ℕ) (raw : Bytes) → action b raw ≡ kept → is_plain b ≡ true
action-kept b raw h = by_tests (b == 27) (is_control b) (sgr_length raw) h
  where
    by_tests :
        (escape control : Bool) (m : Option ℕ)
        → (if escape
            then elim m as (λ _. Action) [ none ↦ dropped | some n ↦ sequence n ]
            else if control
            then dropped
            else kept)
          ≡ kept
        → (not escape && not control) ≡ true
    by_tests true control none h = cc
    by_tests true control (some n) h = cc
    by_tests false true m h = cc
    by_tests false false m h = refl

-- Whatever comes, what is kept is plain.
scan-all-plain : (n : ℕ) (raw : Bytes) → all is_plain (scan n raw).output ≡ true
unfolding scan
scan-all-plain n [] = refl
scan-all-plain (suc n) (b ∷ raw) = scan-all-plain n raw
scan-all-plain zero (b ∷ raw) =
    by_action (action b raw) refl (scan-all-plain (passed_over (action b raw)) raw)
  where
    by_action :
        (a : Action)
        → action b raw ≡ a
        → all is_plain (scan (passed_over (action b raw)) raw).output ≡ true
        → all is_plain (scanned a b (scan (passed_over (action b raw)) raw)).output ≡ true
    by_action (sequence n) e h = h
    by_action dropped e h = h
    by_action kept e h = rw (action-kept b raw e) h

-- What the scan of a log keeps holds no escape and no control byte but tabs and line ends, and a
-- second scan keeps all of it and counts nothing.
pub scan-idempotent :
    (raw : Bytes)
    → (all is_plain (scan 0 raw).output ≡ true)
      × (scan 0 (scan 0 raw).output
          ≡ record { output = (scan 0 raw).output; sgr_count = 0; rejected_count = 0 })
scan-idempotent raw = (scan-all-plain 0 raw, scan-plain (scan 0 raw).output (scan-all-plain 0 raw))
