-- ===== src/DirectPort/Safe/StateLines.antt =====
-- `state_line` and `inspection_state_lines`: a diagnostic, checked and printed.
use hosted_replay_harness.DirectPort.Safe.{
  Library, digest_of, exit_class, group_name, group_terminal, parse_terminals,
}
use hosted_replay_harness.Options.{◌>>=◌, only_if}
use hosted_replay_harness.Prelude.{
  Bool, Bytes, List, Option, String, [], all, any, codes, false, if◌then◌else◌, is_hex_word, leb,
  ltb, none, not, some, suc, true, zero, ℕ, ◌%◌, ◌&&◌, ◌++◌, ◌+◌, ◌/◌, ◌==◌, ◌||◌, ◌∷◌,
}
use hosted_replay_harness.Value.{
  Fields, Value, get, int, is_text_of, negsuc, pos, text, without, ℤ, is_text_in,
}
use hosted_replay_harness.DirectPort.Groups.{Group, group_index, groups}
use hosted_replay_harness.DockerApi.Json.{has_exactly}

-- A value that the lines print.
pub data Scalar : Type 0 where
  of_text : Bytes → Scalar
  of_int : ℤ → Scalar
  of_bool : Bool → Scalar

pub data Kind : Type 0 where
  str_kind int_kind : Kind

abbrev kind_name : Kind → String
kind_name str_kind = "str"
kind_name int_kind = "int"

-- The decimal digits of a number, on fuel; a number has fewer digits than one more than itself.
abbrev digits_onto : ℕ → ℕ → Bytes → Bytes
digits_onto zero n digits = digits
digits_onto (suc fuel) n digits =
    let more = digits_onto fuel (n / 10) ((48 + n % 10) ∷ digits) in
    if ltb n 10 then (48 + n) ∷ digits else more

abbrev decimal : ℕ → Bytes
decimal n = digits_onto (suc n) n []

abbrev rendered : Scalar → Bytes
rendered (of_text s) = s
rendered (of_int (pos n)) = decimal n
rendered (of_int (negsuc n)) = 45 ∷ decimal (suc n)
rendered (of_bool true) = codes "true"
rendered (of_bool false) = codes "false"

abbrev without_control : Bytes → Bytes
without_control [] = []
without_control (c ∷ s) =
    (if (c == 9) || ((c == 13) || (c == 10)) then 32 else c) ∷ without_control s

unfoldable pub state_line : Bytes → Kind → Scalar → Bytes
state_line key kind value =
    key ++ (9 ∷ (codes (kind_name kind) ++ (9 ∷ without_control (rendered value))))

abbrev pub allowed : List (String × Kind)
allowed =
    ("terminal_class", str_kind)
    ∷ ("attempt_index", int_kind)
    ∷ ("command_exit_class", str_kind)
    ∷ ("command_exit_code", int_kind)
    ∷ ("stdout_byte_count", int_kind)
    ∷ ("stdout_line_count", int_kind)
    ∷ ("stdout_sha256", str_kind)
    ∷ ("stderr_byte_count", int_kind)
    ∷ ("stderr_line_count", int_kind)
    ∷ ("stderr_sha256", str_kind)
    ∷ ("utf8_status", str_kind)
    ∷ ("parse_class", str_kind)
    ∷ ("first_failed_group", str_kind)
    ∷ ("successful_group_count", int_kind)
    ∷ ("digest", str_kind)
    ∷ []

abbrev pub names_of : List (String × Kind) → List String
names_of [] = []
names_of ((k, _) ∷ rest) = k ∷ names_of rest

abbrev pub terminal_classes : List String
terminal_classes =
    "DIRECT_INSPECT_OBJECT_UNAVAILABLE" ∷ "DIRECT_INSPECT_TEMPLATE_IDENTITY_FAILED"
    ∷ "DIRECT_INSPECT_TEMPLATE_HOSTCONFIG_FAILED" ∷ "DIRECT_INSPECT_TEMPLATE_PUBLICATION_FAILED"
    ∷ "DIRECT_INSPECT_TEMPLATE_NETWORK_FAILED" ∷ "DIRECT_INSPECT_TEMPLATE_STATE_HEALTH_FAILED"
    ∷ "DIRECT_INSPECT_INVALID_UTF8" ∷ "DIRECT_INSPECT_JSON_REJECTED"
    ∷ "DIRECT_INSPECT_DUPLICATE_KEY_REJECTED" ∷ "DIRECT_INSPECT_TOPLEVEL_REJECTED"
    ∷ "DIRECT_INSPECT_COMPOSITION_FAILED" ∷ []

abbrev pub exit_classes : List String
exit_classes = "ZERO" ∷ "NONZERO" ∷ "SIGNAL" ∷ []

abbrev pub utf8_statuses : List String
utf8_statuses = "VALID" ∷ "INVALID" ∷ []

abbrev pub parse_classes : List String
parse_classes =
    "VALID_OBJECT" ∷ "INVALID_UTF8" ∷ "JSON_SYNTAX" ∷ "DUPLICATE_KEY" ∷ "TOPLEVEL_TYPE" ∷ []

abbrev pub group_names : List String
group_names =
    "NONE" ∷ "IDENTITY_CONFIG" ∷ "HOSTCONFIG_SECURITY_TMPFS" ∷ "PUBLICATION"
    ∷ "NETWORK_RUNTIME_MOUNTS" ∷ "STATE_HEALTH" ∷ []

-- The checks of `inspection_state_lines`, in its order; those behind the types read the dict.
abbrev pub has_known_classes : Fields → Bool
has_known_classes fs =
    is_text_in terminal_classes (get "terminal_class" fs)
    && (is_text_in exit_classes (get "command_exit_class" fs)
        && (is_text_in utf8_statuses (get "utf8_status" fs)
            && (is_text_in parse_classes (get "parse_class" fs)
                && is_text_in group_names (get "first_failed_group" fs))))

abbrev typed : Kind → Value → Option Scalar
typed str_kind (text s) = some (of_text (codes s))
typed int_kind (int z) = some (of_int z)
typed _ _ = none

abbrev pub typed_lines : List (String × Kind) → Fields → Option (List Bytes)
typed_lines [] fs = some []
typed_lines ((k, kind) ∷ rest) fs = typed kind (get k fs) >>= λ value.
    typed_lines rest fs >>= λ lines.
    some (state_line (codes "diagnostic.inspection." ++ codes k) kind value ∷ lines)

abbrev is_from : ℕ → Value → Bool
is_from m (int (pos n)) = leb m n
is_from m _ = false

abbrev is_num : ℕ → Value → Bool
is_num m (int (pos n)) = m == n
is_num m _ = false

abbrev pub has_group_count : Fields → Bool
has_group_count fs =
    any (λ n. is_num n (get "successful_group_count" fs)) (0 ∷ 1 ∷ 2 ∷ 3 ∷ 4 ∷ 5 ∷ [])

abbrev has_counts : Fields → Bool
has_counts fs = is_from 1 (get "attempt_index" fs) && has_group_count fs

abbrev exit_class_at : Value → String
exit_class_at (int z) = exit_class z
exit_class_at _ = ""

abbrev same : Bool → Bool → Bool
same a b = if a then b else not b

abbrev pub exit_agrees : Fields → Bool
exit_agrees fs =
    is_text_of (exit_class_at (get "command_exit_code" fs)) (get "command_exit_class" fs)

abbrev pub utf8_agrees : Fields → Bool
utf8_agrees fs =
    same (is_text_of "INVALID" (get "utf8_status" fs))
      (is_text_of "INVALID_UTF8" (get "parse_class" fs))

-- The parse class of a terminal class.
abbrev parse_class_of : Value → List (String × String) → Option String
parse_class_of v [] = none
parse_class_of v ((parse_class, terminal) ∷ rest) =
    if is_text_of terminal v then some parse_class else parse_class_of v rest

abbrev group_of : Value → List Group → Option Group
group_of v [] = none
group_of v (g ∷ gs) = if is_text_of (group_terminal g) v then some g else group_of v gs

module _ (fs : Fields) where
  abbrev is_success : Bool
  is_success = is_text_of "ZERO" (get "command_exit_class" fs)

  abbrev failed_at : String → ℕ → Bool
  failed_at group count =
      is_text_of group (get "first_failed_group" fs)
      && is_num count (get "successful_group_count" fs)

  abbrev pub terminal_agrees : Bool
  terminal_agrees =
      let terminal_class = get "terminal_class" fs in
      elim (parse_class_of terminal_class parse_terminals) [
        | some parse_class ↦
            is_success && (is_text_of parse_class (get "parse_class" fs) && failed_at "NONE" 0)
        | none ↦
            if is_text_of "DIRECT_INSPECT_OBJECT_UNAVAILABLE" terminal_class
            then not is_success && failed_at "IDENTITY_CONFIG" 0
            else if is_text_of "DIRECT_INSPECT_COMPOSITION_FAILED" terminal_class
            then not is_success
              && (failed_at "IDENTITY_CONFIG" 0
                  || (is_num 5 (get "successful_group_count" fs)
                      && is_text_in group_names (get "first_failed_group" fs)))
            else elim (group_of terminal_class groups) [
              | none ↦ false
              | some g ↦ not is_success && failed_at (group_name g) (group_index g)
            ]
      ]

abbrev pub has_stream_counts : Fields → Bool
has_stream_counts fs =
    all (λ k. is_from 0 (get k fs))
      ("stdout_byte_count" ∷ "stdout_line_count" ∷ "stderr_byte_count" ∷ "stderr_line_count" ∷ [])

abbrev is_digest : Value → Bool
is_digest (text s) = is_hex_word 64 (codes s)
is_digest _ = false

abbrev pub has_digests : Fields → Bool
has_digests fs = all (λ k. is_digest (get k fs)) ("stdout_sha256" ∷ "stderr_sha256" ∷ "digest" ∷ [])

abbrev pub digest_matches : Library → Fields → Bool
digest_matches lib fs = is_text_of (digest_of lib (without "digest" fs)) (get "digest" fs)

abbrev pub is_consistent : Library → Fields → Bool
is_consistent lib fs =
    has_counts fs
    && (exit_agrees fs
        && (utf8_agrees fs
            && (terminal_agrees fs
                && (has_stream_counts fs && (has_digests fs && digest_matches lib fs)))))

-- `none` is an exception.
unfoldable pub inspection_state_lines : Library → Fields → Option (List Bytes)
inspection_state_lines lib fs = only_if (has_exactly (names_of allowed) fs) (
    only_if (has_known_classes fs)
      (typed_lines allowed fs >>= λ lines. only_if (is_consistent lib fs) (some lines)))
