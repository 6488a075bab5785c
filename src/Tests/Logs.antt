-- ===== src/Tests/Logs.antt =====
-- Runs of the theorems on a coloured log of one line.
use hosted_replay_harness.StartLog.{Library, scan}
use hosted_replay_harness.Prelude.{Bytes, [], all, codes, false, some, str_eq, true, ◌++◌, ◌∷◌, ◌≡◌}
use hosted_replay_harness.StartLog.Verdicts.{is_plain, scan-idempotent}

-- A stand-in for Python, in which the pattern of an unparsable config matches every line.
abbrev log_library : Library
log_library = record {
  utf8_decode = λ raw. some raw;
  utf8_decode_ignore = λ raw. raw;
  lower = λ s. s;
  splitlines = λ s. s ∷ [];
  line_count = λ raw. 1;
  search = λ p s. str_eq p "^failed to parse config:";
  search_ignore_case = λ p s. false;
  sha256 = λ raw. "";
}

abbrev red_line : Bytes
red_line = 27 ∷ (codes "[31m" ++ codes "failed to parse config: x")

scan-idempotent_example :
    (all is_plain (scan 0 red_line).output ≡ true)
    × (scan 0 (scan 0 red_line).output
        ≡ record { output = (scan 0 red_line).output; sgr_count = 0; rejected_count = 0 })
scan-idempotent_example = scan-idempotent red_line
