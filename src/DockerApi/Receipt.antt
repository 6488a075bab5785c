-- ===== src/DockerApi/Receipt.antt =====
-- `Receipt`: what the boundary counts, and how it classifies a run.
pub mod Counts
pub mod Sanitized
use hosted_replay_harness.DockerApi.Path.{
  volume_inspect, volume_create, MethodClass, Phase, api_negotiation, cleanup_api_phase,
  container_create, container_inspect, container_list, container_logs, container_remove,
  container_start, delete, image_inspect, image_pull, network_inspect_reuse, other, read,
  unknown_api_phase, write,
}
use hosted_replay_harness.Prelude.{
  Bool, List, Option, String, [], any, codes, false, if◌then◌else◌, leb, ltb, none, not, some,
  str_eq, ℕ, ◌&&◌, ◌+◌, ◌/◌, ◌==◌, ◌||◌, ◌∷◌, true,
}
use hosted_replay_harness.DockerApi.Outcome.{FailureCode}
use hosted_replay_harness.DockerApi.Library.{Library}
use hosted_replay_harness.DockerApi.Policy.State.{Policy}
use hosted_replay_harness.DockerApi.Policy.Descriptor.{policy_matrix_sha256}

pub data StatusClass : Type 0 where
  status_1xx status_2xx status_3xx status_4xx status_5xx status_other : StatusClass

pub data Classification : Type 0 where
  no_request_observed requests_observed error_response_observed response_incomplete : Classification
  write_attempt_observed forwarding_failed policy_done policy_incomplete : Classification
  policy_violated : Classification

pub data PolicyMode : Type 0 where
  read_only db_start_v1 : PolicyMode

abbrev pub phase_index : Phase → ℕ
phase_index api_negotiation = 0
phase_index image_inspect = 1
phase_index image_pull = 2
phase_index network_inspect_reuse = 3
phase_index volume_inspect = 4
phase_index volume_create = 5
phase_index container_inspect = 6
phase_index container_list = 7
phase_index container_create = 8
phase_index container_start = 9
phase_index container_logs = 10
phase_index container_remove = 11
phase_index cleanup_api_phase = 12
phase_index unknown_api_phase = 13

abbrev pub method_index : MethodClass → ℕ
method_index read = 0
method_index write = 1
method_index delete = 2
method_index other = 3

abbrev pub class_index : StatusClass → ℕ
class_index status_1xx = 0
class_index status_2xx = 1
class_index status_3xx = 2
class_index status_4xx = 3
class_index status_5xx = 4
class_index status_other = 5

-- A `Counter` by the index of its key; the codes of STATUS_CODES stand for themselves, and 0 for
-- "CODE_OTHER".
abbrev pub Counter : Type 0
Counter = ℕ → ℕ

abbrev pub bump : ℕ → Counter → Counter
bump k c i = if i == k then c i + 1 else c i

-- `none` stands for "NONE".
pub record Receipt : Type 0 where
  pub connection_count : ℕ
  pub request_count : ℕ
  pub response_count : ℕ
  pub error_response_count : ℕ
  pub write_attempt_count : ℕ
  pub forwarding_error_count : ℕ
  pub parser_error_count : ℕ
  pub phase_counts : Counter
  pub method_counts : Counter
  pub status_class_counts : Counter
  pub status_code_counts : Counter
  pub first_phase : Option Phase
  pub last_phase : Option Phase
  pub first_error_phase : Option Phase
  pub first_error_status_code : ℕ
  pub policy_mode : PolicyMode
  pub policy_matrix_sha256 : String
  pub policy_digest : String
  pub policy_descriptor_consumed : ℕ
  pub policy_complete : Bool
  pub policy_violation_count : ℕ
  pub policy_failure_code : Option FailureCode
  pub policy_step_index : ℕ
  pub policy_health_probe_count : ℕ
  pub policy_request_body_bytes : ℕ
  pub policy_response_body_bytes : ℕ
  pub db_container_id_sha256 : String
  pub gotrue_container_id_sha256 : String

-- ZERO_SHA256
abbrev pub zero_sha256 : String
zero_sha256 = "0000000000000000000000000000000000000000000000000000000000000000"

unfoldable pub new_receipt : Receipt
new_receipt = record {
  connection_count = 0;
  request_count = 0;
  response_count = 0;
  error_response_count = 0;
  write_attempt_count = 0;
  forwarding_error_count = 0;
  parser_error_count = 0;
  phase_counts = λ _. 0;
  method_counts = λ _. 0;
  status_class_counts = λ _. 0;
  status_code_counts = λ _. 0;
  first_phase = none;
  last_phase = none;
  first_error_phase = none;
  first_error_status_code = 0;
  policy_mode = read_only;
  policy_matrix_sha256 = zero_sha256;
  policy_digest = zero_sha256;
  policy_descriptor_consumed = 0;
  policy_complete = false;
  policy_violation_count = 0;
  policy_failure_code = none;
  policy_step_index = 0;
  policy_health_probe_count = 0;
  policy_request_body_bytes = 0;
  policy_response_body_bytes = 0;
  db_container_id_sha256 = zero_sha256;
  gotrue_container_id_sha256 = zero_sha256;
}

unfoldable pub attach_policy : Policy → Receipt → Receipt
attach_policy p r = record r {
  policy_mode = db_start_v1;
  policy_matrix_sha256 = p.matrix_sha256;
  policy_digest = p.digest;
  policy_descriptor_consumed = 1;
}

-- `db_id_sha256` and `gotrue_id_sha256`
abbrev id_sha256 : Library → String → String
id_sha256 lib s = if str_eq s "" then zero_sha256 else lib.sha256 (codes s)

unfoldable pub sync_policy : Library → Policy → Receipt → Receipt
sync_policy lib p r = record r {
  policy_complete = p.is_complete;
  policy_step_index = p.step_index;
  policy_health_probe_count = p.health_probe_count;
  policy_request_body_bytes = p.request_body_bytes;
  policy_response_body_bytes = p.response_body_bytes;
  db_container_id_sha256 = id_sha256 lib p.db_id;
  gotrue_container_id_sha256 = id_sha256 lib p.gotrue_id;
}

abbrev first_of {ℓ} : {A : Type ℓ} → Option A → A → Option A
first_of none a = some a
first_of (some b) a = some b

unfoldable pub policy_violation : FailureCode → Receipt → Receipt
policy_violation code r = record r {
  policy_violation_count = r.policy_violation_count + 1;
  policy_failure_code = first_of r.policy_failure_code code;
}

unfoldable pub connect : Receipt → Receipt
connect r = record r { connection_count = r.connection_count + 1 }

unfoldable pub request : Phase → MethodClass → Receipt → Receipt
request phase method r = record r {
  request_count = r.request_count + 1;
  phase_counts = bump (phase_index phase) r.phase_counts;
  method_counts = bump (method_index method) r.method_counts;
  first_phase = first_of r.first_phase phase;
  last_phase = some phase;
}

-- `f"{code // 100}XX" if 100 <= code <= 599 else "OTHER"`
abbrev pub status_class : ℕ → StatusClass
status_class code =
    if not (leb 100 code && leb code 599)
    then status_other
    else if code / 100 == 1
    then status_1xx
    else if code / 100 == 2
    then status_2xx
    else if code / 100 == 3
    then status_3xx
    else if code / 100 == 4
    then status_4xx
    else status_5xx

abbrev pub status_codes : List ℕ
status_codes =
    200 ∷ 201 ∷ 204 ∷ 304 ∷ 400 ∷ 401 ∷ 403 ∷ 404 ∷ 405 ∷ 409 ∷ 422 ∷ 429 ∷ 500 ∷ 502 ∷ 503 ∷ []

-- the code if it is listed, and 0 otherwise
abbrev pub listed : ℕ → ℕ
listed code = if any (λ c. code == c) status_codes then code else 0

abbrev pub is_error : ℕ → Bool
is_error code = leb 400 code || ltb code 100

-- the last branch of `response`; the arguments are its test and `first_error_phase`
abbrev pub note_error : Bool → Option Phase → Phase → ℕ → Receipt → Receipt
note_error false first phase code r = r
note_error true none phase code r = record r {
  error_response_count = r.error_response_count + 1;
  first_error_phase = some phase;
  first_error_status_code = listed code;
}
note_error true (some _) phase code r = record r {
  error_response_count = r.error_response_count + 1;
}

unfoldable pub response : Phase → ℕ → Receipt → Receipt
response phase code r = note_error (is_error code) r.first_error_phase phase code (record r {
  response_count = r.response_count + 1;
  status_class_counts = bump (class_index (status_class code)) r.status_class_counts;
  status_code_counts = bump (listed code) r.status_code_counts;
})

unfoldable pub write_attempt : Receipt → Receipt
write_attempt r = record r { write_attempt_count = r.write_attempt_count + 1 }

unfoldable pub forwarding_error : Receipt → Receipt
forwarding_error r = record r { forwarding_error_count = r.forwarding_error_count + 1 }

unfoldable pub parser_error : Receipt → Receipt
parser_error r = record r { parser_error_count = r.parser_error_count + 1 }

abbrev is_some_count : ℕ → Bool
is_some_count n = not (n == 0)

-- the policy's branch of `classification`
abbrev classify_policy : Receipt → Classification
classify_policy r =
    if is_some_count r.policy_violation_count
    then policy_violated
    else if is_some_count r.forwarding_error_count || is_some_count r.parser_error_count
    then forwarding_failed
    else if r.policy_complete
    then policy_done
    else policy_incomplete

abbrev classify_read_only : Receipt → Classification
classify_read_only r =
    if is_some_count r.write_attempt_count
    then write_attempt_observed
    else if is_some_count r.forwarding_error_count || is_some_count r.parser_error_count
    then forwarding_failed
    else if r.request_count == 0
    then no_request_observed
    else if ltb r.response_count r.request_count
    then response_incomplete
    else if is_some_count r.error_response_count
    then error_response_observed
    else requests_observed

unfoldable pub classification : Receipt → Classification
classification r = elim r.policy_mode [
  | db_start_v1 ↦ classify_policy r
  | read_only ↦ classify_read_only r
]
