-- ===== src/DirectPort/Safe.antt =====
-- `safe_inspect`: an inspection by one template, and by the five groups where that fails.
pub mod StateLines
pub mod Agreement
pub mod Sites
pub mod Diagnosed
use hosted_replay_harness.Options.{◌>>=◌, only_if}
use hosted_replay_harness.DirectPort.Groups.{
  value_error, Composed, Group, Payloads, compose_payloads, composed, contract_error, groups,
  hostconfig_security, identity_config, is_exact_id, network_runtime, publication_group,
  state_health, validate_group,
}
use hosted_replay_harness.Prelude.{
  Bool, Bytes, List, Option, String, [], false, if◌then◌else◌, length, none, not, some, str_eq, suc,
  true, zero, ℕ, ◌&&◌, ◌++◌, ◌+◌, ◌==◌, ◌||◌, ◌∷◌,
}
use hosted_replay_harness.Value.{
  Fields, Value, dict, end, eq, field, get, has, int, is_text_of, negsuc, num, pos, put, text, ℤ,
}
use hosted_replay_harness.DockerApi.Json.{has_exactly}

-- What the code takes from `codecs`, `json` and `hashlib`, and what Docker answers.
pub data Loaded : Type 0 where
  loaded : Value → Loaded
  -- `JSONDecodeError` or `TypeError`
  decode_error : Loaded
  -- what `object_pairs_hook` raises
  hook_error : Loaded
  -- any other exception, such as `ValueError` on an integer of too many digits
  load_raised : Loaded

pub record Completed : Type 0 where
  pub returncode : ℤ
  pub stdout : Bytes
  pub stderr : Bytes

pub data Template : Type 0 where
  whole availability : Template
  of_group : Group → Template

pub record Library : Type 0 where
  -- `none` is `UnicodeDecodeError`.
  pub utf8_decode : Bytes → Option Bytes
  -- The hook gets the pairs of an object.
  pub json_loads : (Fields → Option Fields) → Bytes → Loaded
  -- `json.dumps(value, sort_keys=True, separators=(",", ":")).encode("utf-8")`
  pub json_dumps : Value → Bytes
  -- `hashlib.sha256(raw).hexdigest()`
  pub sha256 : Bytes → String
  -- `docker inspect --format template container_id`; `none` is `OSError`.
  pub docker : Template → Option Completed

-- `_strict_object`
abbrev strict_onto : Fields → Fields → Option Fields
strict_onto result end = some result
strict_onto result (field k v pairs) =
    only_if (not (has k result)) (strict_onto (put k v result) pairs)

abbrev pub strict_object : Fields → Option Fields
strict_object pairs = strict_onto end pairs

-- The lines that byte `b` ends, behind a carriage return or not.
abbrev ends_line : Bool → ℕ → ℕ
ends_line after_return b = if b == 13 then 1 else if (b == 10) && not after_return then 1 else 0

abbrev count_lines : Bool → Bool → Bytes → ℕ
count_lines started after_return [] = if started then 1 else 0
count_lines started after_return (b ∷ raw) =
    ends_line after_return b + count_lines (not ((b == 10) || (b == 13))) (b == 13) raw

-- `len(raw.splitlines())`
abbrev pub line_count : Bytes → ℕ
line_count raw = count_lines false false raw

abbrev pub exit_class : ℤ → String
exit_class (pos zero) = "ZERO"
exit_class (pos (suc n)) = "NONZERO"
exit_class (negsuc n) = "SIGNAL"

abbrev pub is_zero : ℤ → Bool
is_zero (pos zero) = true
is_zero _ = false

abbrev pub group_name : Group → String
group_name identity_config = "IDENTITY_CONFIG"
group_name hostconfig_security = "HOSTCONFIG_SECURITY_TMPFS"
group_name publication_group = "PUBLICATION"
group_name network_runtime = "NETWORK_RUNTIME_MOUNTS"
group_name state_health = "STATE_HEALTH"

abbrev pub group_terminal : Group → String
group_terminal identity_config = "DIRECT_INSPECT_TEMPLATE_IDENTITY_FAILED"
group_terminal hostconfig_security = "DIRECT_INSPECT_TEMPLATE_HOSTCONFIG_FAILED"
group_terminal publication_group = "DIRECT_INSPECT_TEMPLATE_PUBLICATION_FAILED"
group_terminal network_runtime = "DIRECT_INSPECT_TEMPLATE_NETWORK_FAILED"
group_terminal state_health = "DIRECT_INSPECT_TEMPLATE_STATE_HEALTH_FAILED"

-- `parse_terminal`, class first
abbrev pub parse_terminals : List (String × String)
parse_terminals =
    ("INVALID_UTF8", "DIRECT_INSPECT_INVALID_UTF8")
    ∷ ("JSON_SYNTAX", "DIRECT_INSPECT_JSON_REJECTED")
    ∷ ("DUPLICATE_KEY", "DIRECT_INSPECT_DUPLICATE_KEY_REJECTED")
    ∷ ("TOPLEVEL_TYPE", "DIRECT_INSPECT_TOPLEVEL_REJECTED")
    ∷ []

abbrev pub assigned : String → List (String × String) → Option String
assigned k [] = none
assigned k ((j, v) ∷ rest) = if str_eq j k then some v else assigned k rest

pub record Parsed : Type 0 where
  pub utf8_status : String
  pub parse_class : String
  pub payload : Option Fields

-- An answer of `safe_inspect`: its first or its second component, or an exception.
pub data Inspected : Type 0 where
  observed : Fields → Inspected
  diagnosed : Fields → Inspected
  raised : Inspected

module _ (lib : Library) where
  abbrev loaded_class : Loaded → Option Parsed
  loaded_class (loaded (dict fs)) =
      some (record { utf8_status = "VALID"; parse_class = "VALID_OBJECT"; payload = some fs })
  loaded_class (loaded v) =
      some (record { utf8_status = "VALID"; parse_class = "TOPLEVEL_TYPE"; payload = none })
  loaded_class decode_error =
      some (record { utf8_status = "VALID"; parse_class = "JSON_SYNTAX"; payload = none })
  loaded_class hook_error =
      some (record { utf8_status = "VALID"; parse_class = "DUPLICATE_KEY"; payload = none })
  loaded_class load_raised = none

  abbrev decoded_class : Option Bytes → Option Parsed
  decoded_class none =
      some (record { utf8_status = "INVALID"; parse_class = "INVALID_UTF8"; payload = none })
  decoded_class (some decoded) = loaded_class (lib.json_loads strict_object decoded)

  -- `none` is an exception.
  pub parse_inspect_output : Bytes → Option Parsed
  parse_inspect_output raw = decoded_class (lib.utf8_decode raw)

  abbrev pub run_inspect : Template → Completed
  run_inspect template = elim (lib.docker template) [
    | none ↦ record { returncode = pos 127; stdout = []; stderr = [] }
    | some process ↦ process
  ]

  abbrev summarized : Completed → (Fields → Fields)
  summarized process rest = field "stdout_byte_count" (num (length process.stdout)) (
      field "stdout_line_count" (num (line_count process.stdout)) (
        field "stdout_sha256" (text (lib.sha256 process.stdout)) (
          field "stderr_byte_count" (num (length process.stderr)) (
            field "stderr_line_count" (num (line_count process.stderr))
              (field "stderr_sha256" (text (lib.sha256 process.stderr)) rest)))))

  abbrev undigested : Completed → ℕ → String → Parsed → String → ℕ → Fields → Fields
  undigested process attempt_index terminal_class parsed first_failed_group count rest =
      field "terminal_class" (text terminal_class) (
        field "attempt_index" (num attempt_index) (
          field "command_exit_class" (text (exit_class process.returncode)) (
            field "command_exit_code" (int process.returncode) (
              summarized process (
                field "utf8_status" (text parsed.utf8_status) (
                  field "parse_class" (text parsed.parse_class) (
                    field "first_failed_group" (text first_failed_group)
                      (field "successful_group_count" (num count) rest))))))))

  abbrev pub digest_of : Fields → String
  digest_of fs = lib.sha256 (lib.json_dumps (dict fs))

  pub diagnostic_envelope : Completed → ℕ → String → Parsed → String → ℕ → Fields
  diagnostic_envelope process attempt_index terminal_class parsed first_failed_group count =
      undigested process attempt_index terminal_class parsed first_failed_group count (
        field "digest"
          (text (
            digest_of (
              undigested process attempt_index terminal_class parsed first_failed_group count end)))
          end)

  -- The payload of `_inspect_group_payload`; the outer `none` is an exception.
  inspect_group_payload : Template → Option (Option Fields)
  unfolding parse_inspect_output
  inspect_group_payload template =
      let process = run_inspect template in
      parse_inspect_output process.stdout >>= λ parsed.
      some (if is_zero process.returncode then parsed.payload else none)

  -- `attempt_index`, and what the first command gave
  module _ (container_id : String) (attempt_index : ℕ) (process : Completed) (parsed : Parsed) where
    abbrev pub failed : String → String → ℕ → Inspected
    failed terminal_class first_failed_group count =
        diagnosed
          (diagnostic_envelope process attempt_index terminal_class parsed first_failed_group count)

    abbrev failed_group : Option Group → String
    failed_group none = "NONE"
    failed_group (some g) = group_name g

    composed_or_failed : ℕ → Composed → Inspected
    unfolding diagnostic_envelope
    composed_or_failed count (composed fs) = observed fs
    composed_or_failed count (contract_error g) =
        failed "DIRECT_INSPECT_COMPOSITION_FAILED" (failed_group g) count
    composed_or_failed count value_error = raised

    -- The loop over the groups that are left; `count` of them were read.
    try_groups : List Group → ℕ → Payloads → Inspected
    unfolding inspect_group_payload composed_or_failed validate_group compose_payloads
    try_groups [] count payloads = composed_or_failed count (compose_payloads container_id payloads)
    try_groups (g ∷ gs) count payloads = elim (inspect_group_payload (of_group g)) [
      | none ↦ raised
      | some none ↦ failed (group_terminal g) (group_name g) count
      | some (some fs) ↦ elim (validate_group g fs) [
        | false ↦ failed (group_terminal g) (group_name g) count
        | true ↦ try_groups gs (suc count) (payloads ++ ((g, fs) ∷ []))
      ]
    ]

    abbrev is_available : Fields → Bool
    is_available fs =
        has_exactly ("schema_version" ∷ "id" ∷ []) fs
        && (eq (get "schema_version" fs) (num 1)
            && (is_exact_id container_id && is_text_of container_id (get "id" fs)))

    after_failure : Inspected
    unfolding try_groups
    after_failure = elim (inspect_group_payload availability) [
      | none ↦ raised
      | some none ↦ failed "DIRECT_INSPECT_OBJECT_UNAVAILABLE" "IDENTITY_CONFIG" 0
      | some (some fs) ↦
          if not (is_available fs)
          then failed "DIRECT_INSPECT_COMPOSITION_FAILED" "IDENTITY_CONFIG" 0
          else try_groups groups 0 []
    ]

    -- `parse_terminal[parse_class]` raises where the class is no key of it.
    after_inspect : Inspected
    unfolding after_failure
    after_inspect =
        if is_zero process.returncode
        then elim parsed.payload [
          | some fs ↦ observed fs
          | none ↦ elim (assigned parsed.parse_class parse_terminals) [
            | none ↦ raised
            | some terminal_class ↦ failed terminal_class "NONE" 0
          ]
        ]
        else after_failure

  unfoldable pub safe_inspect : String → ℕ → Inspected
  unfolding after_inspect
  safe_inspect container_id attempt_index =
      let process = run_inspect whole in
      elim (parse_inspect_output process.stdout) [
        | none ↦ raised
        | some parsed ↦ after_inspect container_id attempt_index process parsed
      ]
