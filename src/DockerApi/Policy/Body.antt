-- ===== src/DockerApi/Policy/Body.antt =====
-- What the bodies of the policy's requests must hold: `_labels`, `_inactive_config`,
-- `_inactive_host`, `_networking` and `_container_body`.
pub mod Keys
pub mod Passed
use hosted_replay_harness.Prelude.{
  ℕ, Bytes, codes, equal, one_of, starts_with, has_infix, count_from, utf8_length, ◌<>◌, all, any,
  String, str_eq, Bool, true, false, not, ◌&&◌, ◌||◌, Option, none, some, List, [], ◌∷◌, ◌++◌, ◌*◌,
  ltb, ◌==◌, if◌then◌else◌,
}
use hosted_replay_harness.Value.{
  Value, null, text, list, dict, Items, nil, cons, Fields, end, field, get, has, keys, eq, num,
  among, as_dict, as_text, is_dict, is_text_of,
}
use hosted_replay_harness.DockerApi.Library.{Library, Url}
use hosted_replay_harness.DockerApi.Outcome.{
  Outcome, ok, fail, fail_if, raised, body_rejected, identity_rejected, ◌>>=◌, ◌>>◌,
}
use hosted_replay_harness.DockerApi.Json.{
  Env, env_at, exact_keys, has_exactly, has_only, is_empty, json_type, Kind, split_env,
}
use hosted_replay_harness.DockerApi.Policy.State.{Descriptor}
use hosted_replay_harness.DockerApi.Policy.Target.{is_nil, url_or_raise}
use hosted_replay_harness.DockerApi.Policy.Body.Keys.{
  config_keys, host_keys, endpoint_keys, db_config_wire_types, gotrue_config_wire_types, kind_eq,
}

abbrev pub expected_labels : Descriptor → Value
expected_labels d = dict (
    field "com.supabase.cli.project" (text d.project)
      (field "com.docker.compose.project" (text d.project) end))

unfoldable pub check_labels : Descriptor → Value → Outcome (Unit {0})
unfolding eq
check_labels d value = fail_if (not (eq value (expected_labels d))) identity_rejected

-- Every item whose key is not active is empty.
abbrev pub all_inactive : List String → Fields → Bool
all_inactive active end = true
all_inactive active (field k v fs) = (among k active || is_empty v) && all_inactive active fs

pub check_inactive : List String → List String → Fields → Outcome (Unit {0})
check_inactive allowed active fs = do
  exact_keys fs allowed
  fail_if (not (all_inactive active fs)) body_rejected

abbrev dict_or_fail : Value → Outcome Fields
dict_or_fail (dict fs) = ok fs
dict_or_fail _ = fail body_rejected

-- A list of texts, as a value.
abbrev pub text_items : List String → Items
text_items [] = nil
text_items (s ∷ ss) = cons (text s) (text_items ss)

abbrev pub text_values : List String → Value
text_values ss = list (text_items ss)

abbrev dict_of_one : String → Value → Outcome Fields
dict_of_one k (dict fs) = do fail_if (not (has_exactly (k ∷ []) fs)) identity_rejected; ok fs
dict_of_one k _ = fail identity_rejected

networking_of : Descriptor → Bool → Value → Outcome (Unit {0})
networking_of d false endpoints = fail_if (not (is_empty endpoints)) body_rejected
networking_of d true endpoints = do
  named ← dict_of_one d.network_name endpoints
  endpoint ← dict_or_fail (get d.network_name named)
  exact_keys endpoint endpoint_keys
  fail_if (not (eq (get "Aliases" endpoint) (text_values ("db" ∷ "db.supabase.internal" ∷ []))))
      identity_rejected
  fail_if (not (all_inactive ("Aliases" ∷ []) endpoint)) body_rejected

pub check_networking : Descriptor → Value → Bool → Outcome (Unit {0})
check_networking d value database = do
  networking ← dict_or_fail value
  fail_if (not (has_only ("EndpointsConfig" ∷ []) networking)) body_rejected
  networking_of d database (get "EndpointsConfig" networking)

-- `any(_json_type(body[key]) != kind for …)`
abbrev has_wire_types : List (String × Kind) → Fields → Bool
has_wire_types kinds body = all (λ (k, kind). kind_eq (json_type (get k body)) kind) kinds

abbrev restrict : List (String × Kind) → Fields → Fields
restrict [] body = end
restrict ((k, kind) ∷ kinds) body = field k (get k body) (restrict kinds body)

check_health : Value → Outcome (Unit {0})
check_health value = do
  health ← dict_or_fail value
  fail_if
      (not (
        eq (get "Test" health) (
          text_values
            ("CMD" ∷ "pg_isready" ∷ "-U" ∷ "postgres" ∷ "-h" ∷ "127.0.0.1" ∷ "-p" ∷ "5432" ∷ []))))
      body_rejected
  fail_if
      ((not (eq (get "Interval" health) (num 10_000_000_000))
          || not (eq (get "Timeout" health) (num 2_000_000_000)))
        || not (eq (get "Retries" health) (num 3)))
      body_rejected
  fail_if
      (not (
        has_only
          ("Test" ∷ "Interval" ∷ "Timeout" ∷ "Retries" ∷ "StartPeriod" ∷ "StartInterval" ∷ [])
          health))
      body_rejected
  fail_if (any (λ k. not (is_empty (get k health))) ("StartPeriod" ∷ "StartInterval" ∷ []))
      body_rejected

-- the script of `["sh", "-c", script]`
abbrev script_of : Value → Option Bytes
script_of (list (cons (text a) (cons (text b) (cons (text script) nil)))) =
    if str_eq a "sh" && str_eq b "-c" then some (codes script) else none
script_of _ = none

check_script : Option Bytes → Outcome (Unit {0})
check_script none = fail body_rejected
check_script (some script) = do
  fail_if (not (count_from (codes "docker-entrypoint.sh postgres") 0 script == 1)) body_rejected
  fail_if
      (ltb (1024 * 1024) (utf8_length script) || has_infix (codes "/var/run/docker.sock") script)
      body_rejected

-- `[{"HostIp": ip, "HostPort": port}]` under "5432/tcp"
abbrev pub db_binding : String → String → Value
db_binding ip port = dict (
    field "5432/tcp"
      (list (cons (dict (field "HostIp" (text ip) (field "HostPort" (text port) end))) nil)) end)

check_restart : Value → Outcome (Unit {0})
check_restart value = do
  restart ← dict_or_fail value
  fail_if
      (not (is_text_of "unless-stopped" (get "Name" restart))
        || not (is_empty (get "MaximumRetryCount" restart)))
      body_rejected

abbrev pub db_active_host : List String
db_active_host = "Binds" ∷ "NetworkMode" ∷ "PortBindings" ∷ "RestartPolicy" ∷ "ExtraHosts" ∷ []

database_body : Library → Descriptor → Fields → Fields → Outcome (Unit {0})
database_body lib d config host = do
  check_inactive config_keys ("Env" ∷ "Healthcheck" ∷ "Image" ∷ "Labels" ∷ "Entrypoint" ∷ []) config
  env ← split_env (get "Env" config) (
      codes "POSTGRES_PASSWORD" ∷ codes "POSTGRES_HOST" ∷ codes "JWT_SECRET" ∷ codes "JWT_EXP" ∷ [])
  fail_if
      (not (equal (env_at "POSTGRES_HOST" env) (codes "/var/run/postgresql"))
        || not (lib.isdigit (env_at "JWT_EXP" env)))
      body_rejected
  check_health (get "Healthcheck" config)
  check_script (script_of (get "Entrypoint" config))
  check_inactive host_keys db_active_host host
  fail_if
      (not
        (eq (get "Binds" host) (text_values ((d.db_volume <> ":/var/lib/postgresql/data") ∷ []))))
      body_rejected
  fail_if (not (eq (get "PortBindings" host) (db_binding "" d.db_port))) body_rejected
  check_restart (get "RestartPolicy" host)

abbrev is_full : Option Bytes → Bool
is_full none = false
is_full (some s) = not (is_nil s)

abbrev is_some_of : Option Bytes → List Bytes → Bool
is_some_of none ss = false
is_some_of (some s) ss = one_of s ss

abbrev port_or_fail : Option (Option ℕ) → Outcome (Option ℕ)
port_or_fail none = fail body_rejected
port_or_fail (some port) = ok port

abbrev is_port : ℕ → Option ℕ → Bool
is_port n none = false
is_port n (some m) = m == n

check_urls : Library → Descriptor → Env → Outcome (Unit {0})
check_urls lib d env = do
  external ← url_or_raise (lib.urlsplit (env_at "API_EXTERNAL_URL" env))
  fail_if
      (((not (one_of external.scheme (codes "http" ∷ codes "https" ∷ []))
            || not (is_some_of external.hostname (codes "127.0.0.1" ∷ codes "localhost" ∷ [])))
          || is_full external.username)
        || is_full external.password)
      body_rejected
  database ← url_or_raise (lib.urlsplit (env_at "GOTRUE_DB_DATABASE_URL" env))
  port ← port_or_fail database.port
  fail_if
      (((((not (equal database.scheme (codes "postgresql"))
                || not (is_some_of database.hostname (codes d.db_name ∷ [])))
              || not (is_port 5432 port))
            || not (is_some_of database.username (codes "supabase_auth_admin" ∷ [])))
          || not (equal database.path (codes "/postgres")))
        || not (is_full database.password))
      body_rejected

abbrev pub gotrue_active_host : List String
gotrue_active_host = "NetworkMode" ∷ "ExtraHosts" ∷ []

gotrue_body : Library → Descriptor → Fields → Fields → Outcome (Unit {0})
gotrue_body lib d config host = do
  check_inactive config_keys ("Env" ∷ "Cmd" ∷ "Image" ∷ "Labels" ∷ []) config
  fail_if (not (eq (get "Cmd" config) (text_values ("gotrue" ∷ "migrate" ∷ [])))) body_rejected
  env ← split_env (get "Env" config) (
      codes "API_EXTERNAL_URL"
      ∷ codes "GOTRUE_LOG_LEVEL"
      ∷ codes "GOTRUE_DB_DRIVER"
      ∷ codes "GOTRUE_DB_DATABASE_URL"
      ∷ codes "GOTRUE_SITE_URL"
      ∷ codes "GOTRUE_JWT_SECRET"
      ∷ [])
  fail_if
      ((not (equal (env_at "GOTRUE_LOG_LEVEL" env) (codes "error"))
          || not (equal (env_at "GOTRUE_DB_DRIVER" env) (codes "postgres")))
        || not (equal (env_at "GOTRUE_SITE_URL" env) (codes "http://localhost:3000")))
      body_rejected
  check_urls lib d env
  check_inactive host_keys gotrue_active_host host

-- the part of the body that the role decides
abbrev role_body : Library → Descriptor → Bool → Fields → Fields → Outcome (Unit {0})
role_body lib d true config host = database_body lib d config host
role_body lib d false config host = gotrue_body lib d config host

abbrev wire_types : Bool → List (String × Kind)
wire_types true = db_config_wire_types
wire_types false = gotrue_config_wire_types

abbrev expected_image : Descriptor → Bool → String
expected_image d true = d.postgres_image_ref
expected_image d false = d.gotrue_image_ref

abbrev first_of_pairs : List (String × Kind) → List String
first_of_pairs [] = []
first_of_pairs ((k, kind) ∷ kinds) = k ∷ first_of_pairs kinds

pub check_container_body : Library → Descriptor → Fields → Bool → Outcome (Unit {0})
check_container_body lib d body database = do
  fail_if
      (not (
          has_exactly
            (first_of_pairs (wire_types database) ++ ("HostConfig" ∷ "NetworkingConfig" ∷ [])) body)
        || has "Config" body)
      body_rejected
  fail_if (not (has_wire_types (wire_types database) body)) body_rejected
  let config = restrict (wire_types database) body
  host ← dict_or_fail (get "HostConfig" body)
  fail_if (not (is_dict (get "NetworkingConfig" body))) body_rejected
  fail_if (not (is_text_of (expected_image d database) (get "Image" config))) identity_rejected
  check_labels d (get "Labels" config)
  fail_if (not (is_text_of d.network_name (get "NetworkMode" host))) identity_rejected
  fail_if
      (not (eq (get "ExtraHosts" host) (text_values ("host.docker.internal:host-gateway" ∷ []))))
      body_rejected
  role_body lib d database config host
  check_networking d (get "NetworkingConfig" body) database

-- Opens all that `check_container_body` computes with.
unfoldable pub run_container_body : Unit {0}
unfolding check_container_body json_type check_labels check_networking networking_of check_inactive
    is_empty eq database_body split_env check_health check_script check_restart gotrue_body
    check_urls
run_container_body = tt
