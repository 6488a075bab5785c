-- ===== src/DockerApi/Receipt/Sanitized.antt =====
-- `Receipt.sanitized` and `validate_result`: the receipt as a closed JSON object.

-- The texts of the enumerations.
pub mod Valid
use hosted_replay_harness.DockerApi.Path.{Phase}
use hosted_replay_harness.Prelude.{
  Bool, List, Option, String, [], all, codes, false, if◌then◌else◌, is_hex_word, none, refl, some,
  str_eq, suc, true, zero, ℕ, ◌&&◌, ◌++◌, ◌+◌, ◌∷◌, ◌≡◌,
}
use hosted_replay_harness.DockerApi.Receipt.{
  Classification, Counter, PolicyMode, Receipt, classification, db_start_v1,
  error_response_observed, forwarding_failed, no_request_observed, phase_index, policy_done,
  policy_incomplete, policy_violated, read_only, requests_observed, response_incomplete,
  write_attempt_observed,
}
use hosted_replay_harness.DockerApi.Outcome.{
  FailureCode, api_version_rejected, body_oversized, body_rejected, concurrent_request,
  descriptor_invalid, framing_rejected, identity_rejected, ledger_lost, media_type_rejected,
  operation_rejected, order_rejected, query_rejected, response_rejected, status_rejected,
  stream_rejected,
}
use hosted_replay_harness.Value.{
  Fields, Value, among, as_dict, as_text, dict, end, field, get, int, is_text_of, num, pos, put,
  text, without,
}
use hosted_replay_harness.DockerApi.Library.{Library}
use hosted_replay_harness.DockerApi.Json.{has_exactly}

abbrev pub phase_names : List String
phase_names =
    "API_NEGOTIATION" ∷ "IMAGE_INSPECT" ∷ "IMAGE_PULL" ∷ "NETWORK_INSPECT_REUSE" ∷ "VOLUME_INSPECT"
    ∷ "VOLUME_CREATE" ∷ "CONTAINER_INSPECT" ∷ "CONTAINER_LIST" ∷ "CONTAINER_CREATE"
    ∷ "CONTAINER_START" ∷ "CONTAINER_LOGS" ∷ "CONTAINER_REMOVE" ∷ "CLEANUP_API_PHASE"
    ∷ "UNKNOWN_API_PHASE" ∷ []

abbrev nth : ℕ → List String → String
nth n [] = "NONE"
nth zero (s ∷ ss) = s
nth (suc n) (s ∷ ss) = nth n ss

abbrev phase_or_none : Option Phase → String
phase_or_none none = "NONE"
phase_or_none (some p) = nth (phase_index p) phase_names

abbrev classification_name : Classification → String
classification_name no_request_observed = "NO_DOCKER_API_REQUEST_OBSERVED"
classification_name requests_observed = "DOCKER_API_REQUESTS_OBSERVED"
classification_name error_response_observed = "DOCKER_API_ERROR_RESPONSE_OBSERVED"
classification_name response_incomplete = "DOCKER_API_RESPONSE_INCOMPLETE"
classification_name write_attempt_observed = "DOCKER_API_WRITE_ATTEMPT_OBSERVED"
classification_name forwarding_failed = "OBSERVER_FORWARDING_FAILED"
classification_name policy_done = "DB_START_POLICY_COMPLETE"
classification_name policy_incomplete = "DB_START_POLICY_INCOMPLETE"
classification_name policy_violated = "DB_START_POLICY_VIOLATION"

abbrev pub classification_names : List String
classification_names =
    "NO_DOCKER_API_REQUEST_OBSERVED" ∷ "DOCKER_API_REQUESTS_OBSERVED"
    ∷ "DOCKER_API_ERROR_RESPONSE_OBSERVED" ∷ "DOCKER_API_RESPONSE_INCOMPLETE"
    ∷ "DOCKER_API_WRITE_ATTEMPT_OBSERVED" ∷ "OBSERVER_FORWARDING_FAILED"
    ∷ "DB_START_POLICY_COMPLETE" ∷ "DB_START_POLICY_INCOMPLETE" ∷ "DB_START_POLICY_VIOLATION" ∷ []

abbrev mode_name : PolicyMode → String
mode_name read_only = "READ_ONLY"
mode_name db_start_v1 = "DB_START_V1"

abbrev failure_name : Option FailureCode → String
failure_name none = "NONE"
failure_name (some descriptor_invalid) = "POLICY_DESCRIPTOR_INVALID"
failure_name (some ledger_lost) = "POLICY_LEDGER_LOST"
failure_name (some concurrent_request) = "POLICY_CONCURRENT_REQUEST"
failure_name (some api_version_rejected) = "POLICY_API_VERSION_REJECTED"
failure_name (some operation_rejected) = "POLICY_OPERATION_REJECTED"
failure_name (some order_rejected) = "POLICY_ORDER_REJECTED"
failure_name (some query_rejected) = "POLICY_QUERY_REJECTED"
failure_name (some media_type_rejected) = "POLICY_MEDIA_TYPE_REJECTED"
failure_name (some framing_rejected) = "POLICY_FRAMING_REJECTED"
failure_name (some body_oversized) = "POLICY_BODY_OVERSIZED"
failure_name (some body_rejected) = "POLICY_BODY_REJECTED"
failure_name (some identity_rejected) = "POLICY_IDENTITY_REJECTED"
failure_name (some status_rejected) = "POLICY_STATUS_REJECTED"
failure_name (some response_rejected) = "POLICY_RESPONSE_REJECTED"
failure_name (some stream_rejected) = "POLICY_STREAM_REJECTED"

abbrev pub failure_names : List String
failure_names =
    "NONE" ∷ "POLICY_DESCRIPTOR_INVALID" ∷ "POLICY_LEDGER_LOST" ∷ "POLICY_CONCURRENT_REQUEST"
    ∷ "POLICY_API_VERSION_REJECTED" ∷ "POLICY_OPERATION_REJECTED" ∷ "POLICY_ORDER_REJECTED"
    ∷ "POLICY_QUERY_REJECTED" ∷ "POLICY_MEDIA_TYPE_REJECTED" ∷ "POLICY_FRAMING_REJECTED"
    ∷ "POLICY_BODY_OVERSIZED" ∷ "POLICY_BODY_REJECTED" ∷ "POLICY_IDENTITY_REJECTED"
    ∷ "POLICY_STATUS_REJECTED" ∷ "POLICY_RESPONSE_REJECTED" ∷ "POLICY_STREAM_REJECTED" ∷ []

abbrev method_names : List String
method_names = "READ" ∷ "WRITE" ∷ "DELETE" ∷ "OTHER" ∷ []

abbrev class_names : List String
class_names = "1XX" ∷ "2XX" ∷ "3XX" ∷ "4XX" ∷ "5XX" ∷ "OTHER" ∷ []

abbrev code_names : List (String × ℕ)
code_names =
    ("CODE_200", 200)
    ∷ ("CODE_201", 201)
    ∷ ("CODE_204", 204)
    ∷ ("CODE_304", 304)
    ∷ ("CODE_400", 400)
    ∷ ("CODE_401", 401)
    ∷ ("CODE_403", 403)
    ∷ ("CODE_404", 404)
    ∷ ("CODE_405", 405)
    ∷ ("CODE_409", 409)
    ∷ ("CODE_422", 422)
    ∷ ("CODE_429", 429)
    ∷ ("CODE_500", 500)
    ∷ ("CODE_502", 502)
    ∷ ("CODE_503", 503)
    ∷ ("CODE_OTHER", 0)
    ∷ []

abbrev numbered : ℕ → List String → List (String × ℕ)
numbered n [] = []
numbered n (s ∷ ss) = (s, n) ∷ numbered (n + 1) ss

abbrev firsts : List (String × ℕ) → List String
firsts [] = []
firsts ((s, n) ∷ rest) = s ∷ firsts rest

abbrev count_map : List (String × ℕ) → Counter → Fields
count_map [] c = end
count_map ((s, n) ∷ rest) c = field s (num (c n)) (count_map rest c)

abbrev truth : Bool → ℕ
truth true = 1
truth false = 0

abbrev schema : String
schema = "fawxzzy.hosted-replay-harness.docker-api-boundary.v2"

abbrev closed : List (String × Value) → Fields
closed [] = end
closed ((k, v) ∷ rest) = field k v (closed rest)

-- the result before its digest
pub result_fields : Receipt → Fields
result_fields r = closed (
    ("schema", text schema)
    ∷ ("classification", text (classification_name (classification r)))
    ∷ ("connection_count", num r.connection_count)
    ∷ ("request_count", num r.request_count)
    ∷ ("response_count", num r.response_count)
    ∷ ("error_response_count", num r.error_response_count)
    ∷ ("write_attempt_count", num r.write_attempt_count)
    ∷ ("forwarding_error_count", num r.forwarding_error_count)
    ∷ ("parser_error_count", num r.parser_error_count)
    ∷ ("first_phase", text (phase_or_none r.first_phase))
    ∷ ("last_phase", text (phase_or_none r.last_phase))
    ∷ ("first_error_phase", text (phase_or_none r.first_error_phase))
    ∷ ("first_error_status_code", num r.first_error_status_code)
    ∷ ("policy_mode", text (mode_name r.policy_mode))
    ∷ ("policy_matrix_sha256", text r.policy_matrix_sha256)
    ∷ ("policy_digest", text r.policy_digest)
    ∷ ("policy_descriptor_consumed", num r.policy_descriptor_consumed)
    ∷ ("policy_complete", num (truth r.policy_complete))
    ∷ ("policy_violation_count", num r.policy_violation_count)
    ∷ ("policy_failure_code", text (failure_name r.policy_failure_code))
    ∷ ("policy_step_index", num r.policy_step_index)
    ∷ ("policy_health_probe_count", num r.policy_health_probe_count)
    ∷ ("policy_request_body_bytes", num r.policy_request_body_bytes)
    ∷ ("policy_response_body_bytes", num r.policy_response_body_bytes)
    ∷ ("db_container_id_sha256", text r.db_container_id_sha256)
    ∷ ("gotrue_container_id_sha256", text r.gotrue_container_id_sha256)
    ∷ ("phase_counts", dict (count_map (numbered 0 phase_names) r.phase_counts))
    ∷ ("method_class_counts", dict (count_map (numbered 0 method_names) r.method_counts))
    ∷ ("status_class_counts", dict (count_map (numbered 0 class_names) r.status_class_counts))
    ∷ ("status_code_counts", dict (count_map code_names r.status_code_counts))
    ∷ [])

abbrev hash_keys : List String
hash_keys =
    "policy_matrix_sha256" ∷ "policy_digest" ∷ "db_container_id_sha256"
    ∷ "gotrue_container_id_sha256" ∷ []

abbrev phase_keys : List String
phase_keys = "first_phase" ∷ "last_phase" ∷ "first_error_phase" ∷ []

abbrev count_keys : List String
count_keys =
    "connection_count" ∷ "request_count" ∷ "response_count" ∷ "error_response_count"
    ∷ "write_attempt_count" ∷ "forwarding_error_count" ∷ "parser_error_count"
    ∷ "first_error_status_code" ∷ "policy_descriptor_consumed" ∷ "policy_complete"
    ∷ "policy_violation_count" ∷ "policy_step_index" ∷ "policy_health_probe_count"
    ∷ "policy_request_body_bytes" ∷ "policy_response_body_bytes" ∷ []

abbrev map_keys : List (String × List String)
map_keys =
    ("phase_counts", phase_names)
    ∷ ("method_class_counts", method_names)
    ∷ ("status_class_counts", class_names)
    ∷ ("status_code_counts", firsts code_names)
    ∷ []

abbrev result_keys : List String
result_keys =
    "schema"
    ∷ "classification"
    ∷ "policy_mode"
    ∷ "policy_failure_code"
    ∷ "canonical_sha256"
    ∷ "phase_counts"
    ∷ "method_class_counts"
    ∷ "status_class_counts"
    ∷ "status_code_counts"
    ∷ (phase_keys ++ (count_keys ++ hash_keys))

abbrev is_one_of : List String → Value → Bool
is_one_of names v = elim (as_text v) [ none ↦ false | some s ↦ among s names ]

-- `type(value) is int and value >= 0`
abbrev is_count : Value → Bool
is_count (int (pos n)) = true
is_count _ = false

abbrev all_counts : Fields → Bool
all_counts end = true
all_counts (field k v fs) = is_count v && all_counts fs

abbrev is_count_map : List String → Value → Bool
is_count_map names v = elim (as_dict v) [
  | none ↦ false
  | some fs ↦ has_exactly names fs && all_counts fs
]

abbrev is_hash : Value → Bool
is_hash v = elim (as_text v) [ none ↦ false | some s ↦ is_hex_word 64 (codes s) ]

-- `true` where the code returns, `false` where it raises `ValueError`.
abbrev enums_valid : Fields → Bool
enums_valid fs =
    (is_text_of schema (get "schema" fs)
      && is_one_of classification_names (get "classification" fs))
    && (is_one_of ("READ_ONLY" ∷ "DB_START_V1" ∷ []) (get "policy_mode" fs)
        && is_one_of failure_names (get "policy_failure_code" fs))

abbrev digest_of : Library → Fields → String
digest_of lib fs = lib.sha256 (lib.json_dumps (dict fs))

abbrev digest_valid : Library → Fields → Bool
digest_valid lib fs =
    is_hash (get "canonical_sha256" fs)
    && is_text_of (digest_of lib (without "canonical_sha256" fs)) (get "canonical_sha256" fs)

pub validate_result : Library → Fields → Bool
validate_result lib fs =
    has_exactly result_keys fs
    && (enums_valid fs
        && (all (λ k. is_count (get k fs)) count_keys
            && (all (λ k. is_one_of (phase_names ++ ("NONE" ∷ [])) (get k fs)) phase_keys
                && (all (λ (k, names). is_count_map names (get k fs)) map_keys
                    && (digest_valid lib fs && all (λ k. is_hash (get k fs)) hash_keys)))))

pub sanitized : Library → Receipt → Option Fields
unfolding result_fields validate_result
sanitized lib r =
    let fs = result_fields r in
    let result = put "canonical_sha256" (text (digest_of lib fs)) fs in
    if validate_result lib result then some result else none

-- The hashes of a receipt are 64 hexadecimal digits.
pub record HasHashes (r : Receipt) : Type 0 where
  pub matrix : is_hex_word 64 (codes r.policy_matrix_sha256) ≡ true
  pub policy : is_hex_word 64 (codes r.policy_digest) ≡ true
  pub database : is_hex_word 64 (codes r.db_container_id_sha256) ≡ true
  pub migration : is_hex_word 64 (codes r.gotrue_container_id_sha256) ≡ true
