-- ===== src/StartLog/Recognized.antt =====
-- What the class of a log says of its lines.
use hosted_replay_harness.StartLog.{
  unknown, Library, Category, Diagnosis, one_family, normalize, head?, rules, Classified, matches,
  sensitive_patterns,
}
use hosted_replay_harness.Prelude.{
  Bool, Bytes, [], all, false, not, some, true, ℕ, ◌∷◌, ◌≡◌, ◌≤◌, List, String, ◌+◌, length, any,
  ◌++◌,
}

abbrev pub is_known : Category → Bool
is_known unknown = false
is_known _ = true

-- Whether no line of a text matches a pattern for sensitive shapes.
abbrev pub is_insensitive : Library → Bytes → Bool
is_insensitive lib t =
    all (λ line. not (any (λ p. lib.search_ignore_case p line) sensitive_patterns))
      (lib.splitlines t)

-- Whether a family of rules matches no line.
abbrev pub is_quiet : Library → List Bytes → Category × List String → Bool
is_quiet lib lines (c, patterns) = all (λ line. not (matches lib patterns line)) lines

-- What is known of a log whose class is no `unknown`: the rules of its class are the only ones that
-- match, and the line that is named is the first that they match.
pub record IsRecognized (lib : Library) (raw : Bytes) (d : Diagnosis) : Type 0 where
  pub insensitive : is_insensitive lib (lib.lower (lib.utf8_decode_ignore raw)) ≡ true
  pub no_sensitive_shape : d.sensitive_shape_count ≡ 0
  pub nothing_rejected : d.rejected_control_count ≡ 0
  pub one_family_only : d.matched_family_count ≡ 1
  pub some_line : 1 ≤ d.match_count
  pub patterns : List String
  pub rules_before : List (Category × List String)
  pub rules_after : List (Category × List String)
  pub is_rule : rules ≡ rules_before ++ ((d.category, patterns) ∷ rules_after)
  pub quiet_before :
      all (is_quiet lib (lib.splitlines (normalize lib raw).line_text)) rules_before ≡ true
  pub quiet_after :
      all (is_quiet lib (lib.splitlines (normalize lib raw).line_text)) rules_after ≡ true
  pub lines_before : List Bytes
  pub line : Bytes
  pub lines_after : List Bytes
  pub is_line : lib.splitlines (normalize lib raw).line_text ≡ lines_before ++ (line ∷ lines_after)
  pub no_earlier : is_quiet lib lines_before (d.category, patterns) ≡ true
  pub is_match : matches lib patterns line ≡ true
  pub first_line : d.first_match_line ≡ some (length lines_before + 1)

-- A line that matches, behind `lines_before` that do not.
record FirstMatch (lib : Library) (patterns : List String) (lines : List Bytes) (n : ℕ)
    (ns : List ℕ) : Type 0 where
  lines_before : List Bytes
  line : Bytes
  lines_after : List Bytes
  is_line : lines ≡ lines_before ++ (line ∷ lines_after)
  no_earlier : all (λ line. not (matches lib patterns line)) lines_before ≡ true
  is_match : matches lib patterns line ≡ true
  first_line : head? ns ≡ some (length lines_before + n)
  some_line : 1 ≤ length ns

-- A result of `one_family` that names a class, over the rules `rs`.
record OneOf (lib : Library) (rs : List (Category × List String)) (lines : List Bytes)
    (found : Classified) : Type 0 where
  patterns : List String
  rules_before : List (Category × List String)
  rules_after : List (Category × List String)
  is_rule : rs ≡ rules_before ++ ((found.category, patterns) ∷ rules_after)
  quiet_before : all (is_quiet lib lines) rules_before ≡ true
  quiet_after : all (is_quiet lib lines) rules_after ≡ true
  one : found.matched_family_count ≡ 1
  first : FirstMatch lib patterns lines 1 found.matching_lines

module _ (lib : Library) where
  -- What is known of the rules from the families that match.
  abbrev Described : List (Category × List String) → List Bytes → List (Category × List ℕ) → Type 0
  Described rs lines [] = all (is_quiet lib lines) rs ≡ true
  Described rs lines (c ∷ []) = OneOf lib rs lines (one_family (c ∷ []))
  Described rs lines (c ∷ (d ∷ more)) = Unit
