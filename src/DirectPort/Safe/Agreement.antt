-- ===== src/DirectPort/Safe/Agreement.antt =====
-- When `inspection_state_lines` accepts what `diagnostic_envelope` makes.
use hosted_replay_harness.DirectPort.Safe.{
  Library, Completed, Parsed, diagnostic_envelope, exit_class, line_count,
}
use hosted_replay_harness.Options.{only_if}
use hosted_replay_harness.Prelude.{
  Bool, Bytes, List, String, codes, eq_iff, is_hex_word, length, refl, some, str_eq, suc, true,
  zero, ℕ, ◌&&◌, ◌≡◌, arith, leb,
}
use hosted_replay_harness.Value.{Fields, negsuc, pos, ℤ}
use hosted_replay_harness.DirectPort.Safe.StateLines.{
  has_known_classes, inspection_state_lines, terminal_agrees, utf8_agrees, is_consistent,
  has_digests, has_stream_counts, has_group_count,
}

pub record AreHex (lib : Library) : Type 0 where
  pub at : (raw : Bytes) → is_hex_word 64 (codes (lib.sha256 raw)) ≡ true

-- A diagnostic that is printed, in as many lines as it has fields.
abbrev pub IsPrinted : Library → Fields → Type 0
IsPrinted lib fs =
    (lines : List Bytes) × (inspection_state_lines lib fs ≡ some lines) × (length lines ≡ 15)

str_eq_self : (s : String) → str_eq s s ≡ true
str_eq_self s = (eq_iff s s).1 refl

abbrev pub fits : Fields → Bool
fits fs = has_known_classes fs && (has_group_count fs && (utf8_agrees fs && terminal_agrees fs))

exit_class_self : (z : ℤ) → str_eq (exit_class z) (exit_class z) ≡ true
exit_class_self (pos zero) = refl
exit_class_self (pos (suc n)) = refl
exit_class_self (negsuc n) = refl

and_true : (a b : Bool) → (a && b) ≡ true → (a ≡ true) × (b ≡ true)
and_true a b h = ground arith

pub and_both : (a b : Bool) → a ≡ true → b ≡ true → (a && b) ≡ true
and_both a b h g = ground arith

leb_zero : (n : ℕ) → leb 0 n ≡ true
leb_zero n = ground arith

passes :
    (known consistent : Bool) (lines : List Bytes)
    → known ≡ true
    → consistent ≡ true
    → only_if known (only_if consistent (some lines)) ≡ some lines
passes known consistent lines h g = rw h (rw g refl)

module _ (lib : Library) (process : Completed) (attempt_index : ℕ) (terminal_class : String)
    (parsed : Parsed) (group : String) (count : ℕ) (hex : AreHex lib)
    (first : leb 1 attempt_index ≡ true) where
  abbrev envelope : Fields
  envelope = diagnostic_envelope lib process attempt_index terminal_class parsed group count

  stream_counts : has_stream_counts envelope ≡ true
  unfolding diagnostic_envelope
  stream_counts = and_both _ _ (leb_zero (length process.stdout)) (
      and_both _ _ (leb_zero (line_count process.stdout)) (
        and_both _ _ (leb_zero (length process.stderr))
          (and_both _ _ (leb_zero (line_count process.stderr)) refl)))

  digests : has_digests envelope ≡ true
  unfolding diagnostic_envelope
  digests = and_both _ _ (hex.at _) (and_both _ _ (hex.at _) (and_both _ _ (hex.at _) refl))

  fits-is_consistent : fits envelope ≡ true → is_consistent lib envelope ≡ true
  unfolding diagnostic_envelope
  fits-is_consistent h =
      let after_classes = (and_true _ _ h).1 in
      let (counts, after_counts) = and_true _ _ after_classes in
      let (utf8, terminal) = and_true _ _ after_counts in
      and_both _ _ (and_both _ _ first counts) (
        and_both _ _ (exit_class_self process.returncode) (
          and_both _ _ utf8 (
            and_both _ _ terminal
              (and_both _ _ stream_counts (and_both _ _ digests (str_eq_self _))))))

  pub fits-IsPrinted : fits envelope ≡ true → IsPrinted lib envelope
  unfolding diagnostic_envelope inspection_state_lines
  fits-IsPrinted h =
      let known = (and_true _ _ h).0 in (_, passes _ _ _ known (fits-is_consistent h), refl)
