-- ===== src/DirectPort/Safe/Sites.antt =====
-- The diagnostics of an inspection whose command failed.
use hosted_replay_harness.DirectPort.Safe.{
  Library, Completed, Parsed, diagnostic_envelope, exit_class, group_name, group_terminal, is_zero,
}
use hosted_replay_harness.DirectPort.Safe.Agreement.{AreHex, IsPrinted, and_both, fits-IsPrinted}
use hosted_replay_harness.Value.{Fields, negsuc, pos, text, ℤ, is_text_in}
use hosted_replay_harness.DirectPort.Groups.{
  Group, group_index, hostconfig_security, identity_config, network_runtime, publication_group,
  state_health,
}
use hosted_replay_harness.Prelude.{
  Option, String, false, leb, none, refl, some, str_eq, suc, true, zero, ℕ, ◌≡◌,
}
use hosted_replay_harness.DirectPort.Safe.StateLines.{
  exit_classes, group_names, has_group_count, parse_classes, terminal_agrees, terminal_classes,
  utf8_agrees, utf8_statuses,
}

-- The five classes of a parse.
pub data ParseCase : Type 0 where
  is_object : Fields → ParseCase
  is_not_utf8 is_not_json has_duplicate is_other : ParseCase

abbrev pub parsed_of : ParseCase → Parsed
parsed_of (is_object fs) = record {
  utf8_status = "VALID";
  parse_class = "VALID_OBJECT";
  payload = some fs;
}
parsed_of is_not_utf8 = record {
  utf8_status = "INVALID";
  parse_class = "INVALID_UTF8";
  payload = none;
}
parsed_of is_not_json = record {
  utf8_status = "VALID";
  parse_class = "JSON_SYNTAX";
  payload = none;
}
parsed_of has_duplicate = record {
  utf8_status = "VALID";
  parse_class = "DUPLICATE_KEY";
  payload = none;
}
parsed_of is_other = record { utf8_status = "VALID"; parse_class = "TOPLEVEL_TYPE"; payload = none }

-- The places where an inspection fails behind a command that failed.
pub data Site : Type 0 where
  unavailable unlike : Site
  at_group : Group → Site
  contract : Option Group → Site

abbrev pub terminal_at : Site → String
terminal_at unavailable = "DIRECT_INSPECT_OBJECT_UNAVAILABLE"
terminal_at unlike = "DIRECT_INSPECT_COMPOSITION_FAILED"
terminal_at (at_group g) = group_terminal g
terminal_at (contract g) = "DIRECT_INSPECT_COMPOSITION_FAILED"

abbrev pub group_at : Site → String
group_at unavailable = "IDENTITY_CONFIG"
group_at unlike = "IDENTITY_CONFIG"
group_at (at_group g) = group_name g
group_at (contract none) = "NONE"
group_at (contract (some g)) = group_name g

abbrev pub count_at : Site → ℕ
count_at unavailable = 0
count_at unlike = 0
count_at (at_group g) = group_index g
count_at (contract g) = 5

module _ (lib : Library) (process : Completed) (attempt_index : ℕ) where
  abbrev pub site_envelope : Site → Parsed → Fields
  site_envelope s q =
      diagnostic_envelope lib process attempt_index (terminal_at s) q (group_at s) (count_at s)

  site-terminal_agrees :
      (s : Site) (q : Parsed)
      → str_eq "ZERO" (exit_class process.returncode) ≡ false
      → terminal_agrees (site_envelope s q) ≡ true
  unfolding diagnostic_envelope
  site-terminal_agrees unavailable q h = rw h refl
  site-terminal_agrees unlike q h = rw h refl
  site-terminal_agrees (at_group identity_config) q h = rw h refl
  site-terminal_agrees (at_group hostconfig_security) q h = rw h refl
  site-terminal_agrees (at_group publication_group) q h = rw h refl
  site-terminal_agrees (at_group network_runtime) q h = rw h refl
  site-terminal_agrees (at_group state_health) q h = rw h refl
  site-terminal_agrees (contract none) q h = rw h refl
  site-terminal_agrees (contract (some identity_config)) q h = rw h refl
  site-terminal_agrees (contract (some hostconfig_security)) q h = rw h refl
  site-terminal_agrees (contract (some publication_group)) q h = rw h refl
  site-terminal_agrees (contract (some network_runtime)) q h = rw h refl
  site-terminal_agrees (contract (some state_health)) q h = rw h refl

  exit_class-failed :
      (z : ℤ)
      → is_zero z ≡ false
      → (str_eq "ZERO" (exit_class z) ≡ false)
        × (is_text_in exit_classes (text (exit_class z)) ≡ true)
  exit_class-failed (pos zero) h = cc
  exit_class-failed (pos (suc n)) h = (refl, refl)
  exit_class-failed (negsuc n) h = (refl, refl)

  parse-known :
      (c : ParseCase)
      → (is_text_in utf8_statuses (text (parsed_of c).utf8_status) ≡ true)
        × (is_text_in parse_classes (text (parsed_of c).parse_class) ≡ true)
  parse-known (is_object fs) = (refl, refl)
  parse-known is_not_utf8 = (refl, refl)
  parse-known is_not_json = (refl, refl)
  parse-known has_duplicate = (refl, refl)
  parse-known is_other = (refl, refl)

  parse-agrees : (s : Site) (c : ParseCase) → utf8_agrees (site_envelope s (parsed_of c)) ≡ true
  unfolding diagnostic_envelope
  parse-agrees s (is_object fs) = refl
  parse-agrees s is_not_utf8 = refl
  parse-agrees s is_not_json = refl
  parse-agrees s has_duplicate = refl
  parse-agrees s is_other = refl

  site-known :
      (s : Site)
      → (is_text_in terminal_classes (text (terminal_at s)) ≡ true)
        × (is_text_in group_names (text (group_at s)) ≡ true)
  site-known unavailable = (refl, refl)
  site-known unlike = (refl, refl)
  site-known (at_group identity_config) = (refl, refl)
  site-known (at_group hostconfig_security) = (refl, refl)
  site-known (at_group publication_group) = (refl, refl)
  site-known (at_group network_runtime) = (refl, refl)
  site-known (at_group state_health) = (refl, refl)
  site-known (contract none) = (refl, refl)
  site-known (contract (some identity_config)) = (refl, refl)
  site-known (contract (some hostconfig_security)) = (refl, refl)
  site-known (contract (some publication_group)) = (refl, refl)
  site-known (contract (some network_runtime)) = (refl, refl)
  site-known (contract (some state_health)) = (refl, refl)

  site-has_group_count : (s : Site) (q : Parsed) → has_group_count (site_envelope s q) ≡ true
  unfolding diagnostic_envelope
  site-has_group_count unavailable q = refl
  site-has_group_count unlike q = refl
  site-has_group_count (at_group identity_config) q = refl
  site-has_group_count (at_group hostconfig_security) q = refl
  site-has_group_count (at_group publication_group) q = refl
  site-has_group_count (at_group network_runtime) q = refl
  site-has_group_count (at_group state_health) q = refl
  site-has_group_count (contract g) q = refl

  module _ (hex : AreHex lib) (first : leb 1 attempt_index ≡ true) where
    pub site-IsPrinted :
        (s : Site) (c : ParseCase)
        → is_zero process.returncode ≡ false
        → IsPrinted lib (site_envelope s (parsed_of c))
    unfolding diagnostic_envelope
    site-IsPrinted s c h =
        let (unlike_zero, exit) = exit_class-failed process.returncode h in
        let (utf8, class) = parse-known c in
        let (terminal, group) = site-known s in
        fits-IsPrinted lib process attempt_index (terminal_at s) (parsed_of c) (group_at s)
          (count_at s) hex first
          (and_both _ _
            (and_both _ _ terminal
              (and_both _ _ exit (and_both _ _ utf8 (and_both _ _ class group))))
            (and_both _ _ (site-has_group_count s (parsed_of c))
              (and_both _ _ (parse-agrees s c) (site-terminal_agrees s (parsed_of c) unlike_zero))))
