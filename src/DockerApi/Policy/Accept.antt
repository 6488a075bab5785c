-- ===== src/DockerApi/Policy/Accept.antt =====
-- `accept`: what the answer of Docker must be, and the state that follows.
pub mod Progress
use hosted_replay_harness.Prelude.{
  ℕ, ◌+◌, ◌*◌, Bytes, codes, equal, is_hex_word, String, str_eq, ◌<>◌, Bool, true, false, not, ◌&&◌,
  ◌||◌, Option, none, some, [], ◌∷◌, any, ltb, ◌==◌, if◌then◌else◌,
}
use hosted_replay_harness.Value.{
  Value, null, text, list, dict, Fields, get, eq, num, as_dict, as_text, is_text_of, is_truthy,
}
use hosted_replay_harness.DockerApi.Library.{Library}
use hosted_replay_harness.DockerApi.Outcome.{
  Outcome, ok, fail, raised, fail_if, identity_rejected, response_rejected, media_type_rejected,
  status_rejected, api_version_rejected, attribute_error, type_error, ◌>>=◌, ◌>>◌,
}
use hosted_replay_harness.DockerApi.Json.{closed_json, has_exactly, is_empty}
use hosted_replay_harness.DockerApi.Headers.{Headers, header, media_type}
use hosted_replay_harness.DockerApi.Policy.State.{
  State, negotiate_head, negotiate_get, db_inspect, volume_inspect, pg_image_inspect, network_db,
  volume_create, db_create, db_start, db_health, db_logs, gotrue_image_inspect, network_gotrue,
  gotrue_create, gotrue_start, gotrue_logs, gotrue_inspect, gotrue_remove, completed, state_eq,
  Decision, Policy, Ended, mark_failed, check,
}
use hosted_replay_harness.DockerApi.Policy.Body.{db_binding}

-- A response: its status, its headers, and the decoded body, `none` where it was streamed.
pub record Response : Type 0 where
  pub code : ℕ
  pub headers : Headers
  pub body : Option Bytes
  pub body_bytes : ℕ

-- MAX_CONTROL_RESPONSE
abbrev pub max_control_response : ℕ
max_control_response = 4 * 1024 * 1024

body_or_fail : Option Bytes → Outcome Bytes
body_or_fail none = fail response_rejected
body_or_fail (some body) = ok body

response_json : Library → Response → Outcome Fields
response_json lib r = do
  body ← body_or_fail r.body
  fail_if (not (equal (media_type r.headers) (codes "application/json"))) media_type_rejected
  closed_json lib body max_control_response

abbrev dict_or : Outcome Fields → Value → Outcome Fields
dict_or refused (dict fs) = ok fs
dict_or refused _ = refused

-- what `_inspect_identity` compares with, for the database and for the migration
abbrev expected_id : Policy → Bool → String
expected_id p true = p.db_id
expected_id p false = p.gotrue_id

abbrev expected_image : Policy → Bool → String
expected_image p true = p.descriptor.postgres_image_id
expected_image p false = p.descriptor.gotrue_image_id

abbrev has_ports : Policy → Bool → Value → Bool
has_ports p true ports = eq ports (db_binding "127.0.0.1" p.descriptor.db_port)
has_ports p false ports = is_empty ports

inspect_identity : Policy → Fields → Bool → Outcome (Unit {0})
inspect_identity p value database = do
  fail_if
      (not (is_text_of (expected_id p database) (get "Id" value))
        || not (is_text_of (expected_image p database) (get "Image" value)))
      identity_rejected
  fail_if (database && not (is_text_of ("/" <> p.descriptor.db_name) (get "Name" value)))
      identity_rejected
  settings ← dict_or (fail response_rejected) (get "NetworkSettings" value)
  networks ← dict_or (fail identity_rejected) (get "Networks" settings)
  fail_if (not (has_exactly (p.descriptor.network_name ∷ []) networks)) identity_rejected
  endpoint ← dict_or (fail identity_rejected) (get p.descriptor.network_name networks)
  fail_if (not (is_text_of p.descriptor.network_id (get "NetworkID" endpoint))) identity_rejected
  fail_if (not (has_ports p database (get "Ports" settings))) identity_rejected

abbrev next : State → Policy → Ended (Unit {0})
next s p = (ok tt, record p { state = s })

after_ping : Response → Policy → Ended (Unit {0})
after_ping r p =
    check p
      (fail_if (not (equal (header "api-version" r.headers) (codes p.descriptor.api_version)))
        api_version_rejected)
      (λ _. next db_inspect p)

-- the identity that an image or a volume must answer with
after_named : Library → Response → Policy → String → String → State → Ended (Unit {0})
after_named lib r p key expected s = check p (response_json lib r) (λ value.
    check p (fail_if (not (is_text_of expected (get key value))) identity_rejected) (λ _. next s p))

-- the fresh identifier of a created container
new_id : Policy → Fields → Outcome String
new_id p value = do
  identifier ← elim (as_text (get "Id" value)) [ none ↦ fail response_rejected | some s ↦ ok s ]
  fail_if (not (is_hex_word 64 (codes identifier))) response_rejected
  fail_if (str_eq identifier p.db_id || str_eq identifier p.gotrue_id) identity_rejected
  ok identifier

after_create : Library → Response → Policy → Bool → Ended (Unit {0})
after_create lib r p database = check p (response_json lib r) (λ value.
    check p (new_id p value) (λ identifier.
      if database
      then (ok tt, record p { db_id = identifier; state = db_start })
      else (ok tt, record p { gotrue_id = identifier; state = gotrue_start })))

pub data Health : Type 0 where
  healthy waiting unknown unhashable : Health

-- `health == "healthy"`, then `health in {"starting", "unhealthy"}`, which hashes the value
abbrev judge : Value → Health
judge (text s) =
    if str_eq s "healthy"
    then healthy
    else if str_eq s "starting" || str_eq s "unhealthy"
    then waiting
    else unknown
judge (list xs) = unhashable
judge (dict fs) = unhashable
judge _ = unknown

-- `(… or {}).get("Status")`
abbrev status_in : Value → Outcome Value
status_in (dict fs) = ok (get "Status" fs)
status_in v = if is_truthy v then raised attribute_error else ok null

health_status : Fields → Outcome Value
health_status value = elim (as_dict (get "State" value)) [
  | none ↦ ok null
  | some state ↦ status_in (get "Health" state)
]

after_probe : Policy → Health → Ended (Unit {0})
after_probe p healthy = next gotrue_image_inspect p
after_probe p waiting = if ltb p.health_probe_count 121 then (ok tt, p) else next db_logs p
after_probe p unknown = (fail response_rejected, mark_failed p)
after_probe p unhashable = (raised type_error, p)

after_health : Library → Response → Policy → Ended (Unit {0})
after_health lib r p = check p (response_json lib r) (λ value.
    check p (inspect_identity p value true) (λ _. check p (health_status value) (λ health.
      after_probe (record p { health_probe_count = p.health_probe_count + 1 }) (judge health))))

abbrev exit_code : Value → Option Value
exit_code v = elim (as_dict v) [ none ↦ none | some fs ↦ some (get "ExitCode" fs) ]

abbrev has_exited_well : Value → Bool
has_exited_well v = elim (exit_code v) [ none ↦ false | some c ↦ eq c (num 0) ]

after_migration : Library → Response → Policy → Ended (Unit {0})
after_migration lib r p = check p (response_json lib r) (λ value.
    check p (inspect_identity p value false) (λ _.
      check p (fail_if (not (has_exited_well (get "State" value))) status_rejected)
        (λ _. next gotrue_remove p)))

-- The branches of `accept`.
advance : Library → State → Response → Policy → Ended (Unit {0})
advance lib negotiate_head r p = if r.code == 405 then next negotiate_get p else after_ping r p
advance lib negotiate_get r p = after_ping r p
advance lib db_inspect r p = next volume_inspect p
advance lib volume_inspect r p = next pg_image_inspect p
advance lib pg_image_inspect r p =
    after_named lib r p "Id" p.descriptor.postgres_image_id network_db
advance lib gotrue_image_inspect r p =
    after_named lib r p "Id" p.descriptor.gotrue_image_id network_gotrue
advance lib network_db r p = next volume_create p
advance lib network_gotrue r p = next gotrue_create p
advance lib volume_create r p = after_named lib r p "Name" p.descriptor.db_volume db_create
advance lib db_create r p = after_create lib r p true
advance lib gotrue_create r p = after_create lib r p false
advance lib db_start r p = next db_health p
advance lib gotrue_start r p = next gotrue_logs p
advance lib db_health r p = after_health lib r p
advance lib db_logs r p = (ok tt, mark_failed p)
advance lib gotrue_logs r p = next gotrue_inspect p
advance lib gotrue_inspect r p = after_migration lib r p
advance lib gotrue_remove r p = (ok tt, record p { state = completed; is_complete = true })
advance lib _ r p = (ok tt, p)

-- `self.step_index += 1`, which an exception passes over
abbrev pub count_step : Ended (Unit {0}) → Ended (Unit {0})
count_step (ok u, p) = (ok u, record p { step_index = p.step_index + 1 })
count_step (o, p) = (o, p)

abbrev pub is_expected : ℕ → Decision → Bool
is_expected code d = any (λ c. code == c) d.expected_statuses

pub accept : Library → Policy → Decision → Response → Ended (Unit {0})
accept lib p d r =
    if not (state_eq d.name p.state) || not (is_expected r.code d)
    then (fail status_rejected, mark_failed p)
    else count_step (
        advance lib p.state r
          (record p { response_body_bytes = p.response_body_bytes + r.body_bytes }))

-- Opens all that `accept` computes with.
unfoldable pub run_accept : Unit {0}
unfolding accept advance after_ping after_named after_create after_health after_migration
    response_json body_or_fail media_type closed_json inspect_identity eq is_empty new_id
    health_status after_probe
run_accept = tt
