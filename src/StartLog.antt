-- ===== src/StartLog.antt =====
-- scripts/classify_db_start_log.py: the class of a log of a failed database start.
pub mod Verdicts
pub mod Recognized
use hosted_replay_harness.Prelude.{
  Bool, Bytes, List, Option, String, [], any, between, false, if◌then◌else◌, leb, length, lower,
  ltb, none, not, some, str_eq, suc, true, zero, ℕ, ◌&&◌, ◌+◌, ◌==◌, ◌||◌, ◌∷◌,
}
use hosted_replay_harness.Value.{ℤ}

-- What the script takes from Python: codecs, `re`, `str` and `hashlib`.
pub record Library : Type 0 where
  -- `none` is `UnicodeDecodeError`.
  pub utf8_decode : Bytes → Option Bytes
  -- `raw.decode("utf-8", errors="ignore")`
  pub utf8_decode_ignore : Bytes → Bytes
  pub lower : Bytes → Bytes
  -- `str.splitlines`
  pub splitlines : Bytes → List Bytes
  -- `len(raw.splitlines())` of bytes
  pub line_count : Bytes → ℕ
  -- `re.search(pattern, line) is not None`, without and with `re.IGNORECASE`
  pub search : String → Bytes → Bool
  pub search_ignore_case : String → Bytes → Bool
  -- `hashlib.sha256(raw).hexdigest()`
  pub sha256 : Bytes → String

pub data Category : Type 0 where
  cli_usage_error config_failed docker_client_failed unknown : Category

pub data Status : Type 0 where
  plain sgr_stripped rejected_control invalid_utf8 : Status

abbrev sensitive_patterns : List String
sensitive_patterns =
    "\\b(?:postgres(?:ql)?|https?)://[^\\s/:]+:[^\\s/@]+@"
    ∷ "\\beyj[a-z0-9_-]{12,}\\.[a-z0-9_-]{12,}(?:\\.[a-z0-9_-]{8,})?\\b"
    ∷ "\\bauthorization\\s*:\\s*bearer\\s+\\S+"
    ∷ "\\b(?:password|passwd|secret|token|api[_-]?key|jwt)(?:[_-][a-z0-9]+)*\\s*[=:]\\s*\\S+"
    ∷ "-----begin (?:rsa |ec |openssh )?private key-----" ∷ []

abbrev usage_patterns : List String
usage_patterns =
    "^unknown command \"[^\"]+\" for \"[^\"]+\"(?:.*)?$" ∷ "^unknown flag: --[a-z0-9][a-z0-9_-]*$"
    ∷ "^unknown shorthand flag: '.+' in -[a-z0-9]+$"
    ∷ "^requires at least \\d+ arg\\(s\\), only received \\d+$"
    ∷ "^accepts at most \\d+ arg\\(s\\), received \\d+$"
    ∷ "^accepts \\d+ arg\\(s\\), received \\d+$"
    ∷ "^accepts between \\d+ and \\d+ arg\\(s\\), received \\d+$"
    ∷ "^flag needs an argument: (?:--[a-z0-9][a-z0-9_-]*|'.+' in -[a-z0-9]+)$"
    ∷ "^flag \"[^\"]+\" does not exist$" ∷ "^no such flag -[a-z0-9]+$" ∷ []

abbrev config_patterns : List String
config_patterns =
    "^failed to get repo directory:" ∷ "^failed to change directory:"
    ∷ "^failed to parse environment file:" ∷ "^failed to restore directory:"
    ∷ "^failed to get working directory:" ∷ "^failed to initialise config:"
    ∷ "^failed to merge default values:" ∷ "^failed to read file config:"
    ∷ "^failed to merge file config:" ∷ "^failed to merge remote config:"
    ∷ "^failed to parse config:" ∷ "^missing required field in config:" ∷ "^invalid config for "
    ∷ "^failed reading config: invalid " ∷ "^duplicate project_id for \\[remotes\\." ∷ []

abbrev docker_patterns : List String
docker_patterns = "^failed to create docker client:" ∷ "^failed to initialize docker client:" ∷ []

-- `RULES`
abbrev pub rules : List (Category × List String)
rules =
    (cli_usage_error, usage_patterns)
    ∷ (config_failed, config_patterns)
    ∷ (docker_client_failed, docker_patterns)
    ∷ []

-- How many of the bytes the parameters and the end of an SGR sequence take.
abbrev sgr_tail : Bytes → Option ℕ
sgr_tail [] = none
sgr_tail (b ∷ raw) =
    let rest = sgr_tail raw in
    if b == b'm'
    then some 1
    else if (leb b'0' b && leb b b';')
    then elim rest [ none ↦ none | some n ↦ some (suc n) ]
    else none

-- `SGR_PATTERN.match` behind the escape.
abbrev sgr_length : Bytes → Option ℕ
sgr_length [] = none
sgr_length (b ∷ raw) =
    if b == b'[' then elim (sgr_tail raw) [ none ↦ none | some n ↦ some (suc n) ] else none

pub record Scanned : Type 0 where
  pub output : Bytes
  pub sgr_count : ℕ
  pub rejected_count : ℕ

pub data Action : Type 0 where
  sequence : ℕ → Action
  dropped kept : Action

abbrev pub is_control : ℕ → Bool
is_control b = (ltb b 32 && not ((b == 9) || ((b == 10) || (b == 13)))) || (b == 127)

abbrev action : ℕ → Bytes → Action
action b raw =
    if b == 27
    then elim (sgr_length raw) [ none ↦ dropped | some n ↦ sequence n ]
    else if is_control b
    then dropped
    else kept

abbrev passed_over : Action → ℕ
passed_over (sequence n) = n
passed_over _ = 0

abbrev scanned : Action → ℕ → Scanned → Scanned
scanned (sequence n) b s = record s { sgr_count = suc s.sgr_count }
scanned dropped b s = record s { rejected_count = suc s.rejected_count }
scanned kept b s = record s { output = b ∷ s.output }

-- The loop of `normalize`; the number is how many bytes are left of a sequence.
unfoldable pub scan : ℕ → Bytes → Scanned
scan n [] = record { output = []; sgr_count = 0; rejected_count = 0 }
scan (suc n) (b ∷ raw) = scan n raw
scan zero (b ∷ raw) = let a = action b raw in scanned a b (scan (passed_over a) raw)

-- `text.replace("\r\n", "\n").replace("\r", "\n")`
abbrev newlines_from : Bool → Bytes → Bytes
newlines_from after_return [] = []
newlines_from after_return (c ∷ s) =
    let rest = newlines_from (c == 13) s in
    if c == 13 then 10 ∷ rest else if (c == 10) && after_return then rest else c ∷ rest

abbrev c1_count : Bytes → ℕ
c1_count [] = 0
c1_count (c ∷ s) = let rest = c1_count s in if leb 128 c && leb c 159 then suc rest else rest

pub record Normalized : Type 0 where
  pub line_text : Bytes
  pub status : Status
  pub sgr_count : ℕ
  pub rejected_control_count : ℕ

abbrev normalized : Bytes → Status → ℕ → ℕ → Normalized
normalized t status sgr rejected_count = record {
  line_text = t;
  status = status;
  sgr_count = sgr;
  rejected_control_count = rejected_count;
}

abbrev is_zero : ℕ → Bool
is_zero n = n == 0

pub record Classified : Type 0 where
  pub category : Category
  pub matching_lines : List ℕ
  pub matched_family_count : ℕ

abbrev one_family : List (Category × List ℕ) → Classified
one_family ((category, ns) ∷ []) = record {
  category = category;
  matching_lines = ns;
  matched_family_count = 1;
}
one_family found = record {
  category = unknown;
  matching_lines = [];
  matched_family_count = length found;
}

abbrev known_digest : String
known_digest = "d3a19bac055dc3fad0bca48c92d3cbe3d1d59ec9ac43d90829b5dd0c41545d31"

abbrev is_known_fingerprint : ℕ → ℕ → String → Bool
is_known_fingerprint bytes lines digest =
    (bytes == 1078) && ((lines == 23) && str_eq digest known_digest)

pub record Diagnosis : Type 0 where
  pub category : Category
  pub exit_code : ℤ
  pub match_count : ℕ
  pub raw_byte_count : ℕ
  pub raw_line_count : ℕ
  pub raw_sha256 : String
  pub debug_enabled : Bool
  pub sensitive_shape_detected : Bool
  pub sensitive_shape_count : ℕ
  pub normalization_status : Status
  pub sgr_count : ℕ
  pub rejected_control_count : ℕ
  pub matched_family_count : ℕ
  pub known_fingerprint : Bool
  pub first_match_line : Option ℕ

abbrev is_readable : Status → Bool
is_readable plain = true
is_readable sgr_stripped = true
is_readable _ = false

abbrev nothing_found : Classified
nothing_found = record { category = unknown; matching_lines = []; matched_family_count = 0 }

abbrev head? : List ℕ → Option ℕ
head? [] = none
head? (n ∷ ns) = some n

module _ (lib : Library) where
  abbrev normalized_text : ℕ → ℕ → Bytes → Normalized
  normalized_text sgr rejected_count t =
      if not (is_zero rejected_count)
      then normalized [] rejected_control sgr rejected_count
      else normalized (lib.lower (newlines_from false t))
          (if is_zero sgr then plain else sgr_stripped) sgr 0

  unfoldable pub normalize : Bytes → Normalized
  unfolding scan
  normalize raw =
      let s = scan 0 raw in
      elim (lib.utf8_decode s.output) [
        | none ↦
            normalized [] invalid_utf8 s.sgr_count
              (if is_zero s.rejected_count then 1 else s.rejected_count)
        | some t ↦ normalized_text s.sgr_count (s.rejected_count + c1_count t) t
      ]

  abbrev pub matches : List String → Bytes → Bool
  matches patterns line = any (λ p. lib.search p line) patterns

  -- The numbers of the lines that match, the first line being `n`.
  abbrev matching_from : ℕ → List String → List Bytes → List ℕ
  matching_from n patterns [] = []
  matching_from n patterns (line ∷ lines) =
      let rest = matching_from (suc n) patterns lines in
      if matches patterns line then n ∷ rest else rest

  -- `family_matches`, in the order of the rules
  abbrev families : List (Category × List String) → List Bytes → List (Category × List ℕ)
  families [] lines = []
  families ((category, patterns) ∷ rest) lines =
      let more = families rest lines in
      elim (matching_from 1 patterns lines) [ [] ↦ more | n ∷ ns ↦ (category, n ∷ ns) ∷ more ]

  unfoldable pub classify_normalized : Bytes → Classified
  classify_normalized t = one_family (families rules (lib.splitlines t))

  abbrev sensitive_in : List Bytes → ℕ
  sensitive_in [] = 0
  sensitive_in (line ∷ lines) =
      let rest = sensitive_in lines in
      if any (λ p. lib.search_ignore_case p line) sensitive_patterns then suc rest else rest

  unfoldable pub count_sensitive_shapes : Bytes → ℕ
  count_sensitive_shapes t = sensitive_in (lib.splitlines t)

  unfoldable pub classify : Bytes → ℤ → Bool → Diagnosis
  unfolding normalize classify_normalized count_sensitive_shapes
  classify raw exit_code debug_enabled =
      let n = normalize raw in
      let shapes = count_sensitive_shapes (lib.lower (lib.utf8_decode_ignore raw)) in
      let found =
        if is_readable n.status && is_zero shapes
        then classify_normalized n.line_text
        else nothing_found in
      record {
        category = found.category;
        exit_code = exit_code;
        match_count = length found.matching_lines;
        raw_byte_count = length raw;
        raw_line_count = lib.line_count raw;
        raw_sha256 = lib.sha256 raw;
        debug_enabled = debug_enabled;
        sensitive_shape_detected = not (is_zero shapes);
        sensitive_shape_count = shapes;
        normalization_status = n.status;
        sgr_count = n.sgr_count;
        rejected_control_count = n.rejected_control_count;
        matched_family_count = found.matched_family_count;
        known_fingerprint = is_known_fingerprint (length raw) (lib.line_count raw) (lib.sha256 raw);
        first_match_line = head? found.matching_lines;
      }
