-- ===== src/Tests/Samples.antt =====
-- Data for the tests: a small stand-in for the standard library, which knows the texts that the
-- tests use, and the sample_exchanges of one complete database start.
use hosted_replay_harness.Prelude.{
  Bytes, List, Option, String, [], codes, cut, equal, false, if◌then◌else◌, is_digits, none, some,
  ℕ, ◌<>◌, ◌∷◌,
}
use hosted_replay_harness.DockerApi.Policy.State.{Descriptor, Policy, negotiate_head}
use hosted_replay_harness.DockerApi.Policy.Run.{Exchange}
use hosted_replay_harness.Value.{Fields, Value, boolean, dict, end, field, null, num, text}
use hosted_replay_harness.DockerApi.Headers.{Headers}
use hosted_replay_harness.DockerApi.Library.{Library, Query, Url}
use hosted_replay_harness.DockerApi.Policy.Authorize.{Request}
use hosted_replay_harness.DockerApi.Policy.Accept.{Response}
use hosted_replay_harness.DockerApi.Policy.Body.{db_binding, expected_labels, text_values}

abbrev pub obj : List (String × Value) → Fields
obj [] = end
obj ((k, v) ∷ rest) = field k v (obj rest)

abbrev pub hash_a : String
hash_a = "aaaaaaaaaaaaaaaaaaaaaaaaaaaaaaaaaaaaaaaaaaaaaaaaaaaaaaaaaaaaaaaa"

abbrev hash_b : String
hash_b = "bbbbbbbbbbbbbbbbbbbbbbbbbbbbbbbbbbbbbbbbbbbbbbbbbbbbbbbbbbbbbbbb"

abbrev hash_c : String
hash_c = "cccccccccccccccccccccccccccccccccccccccccccccccccccccccccccccccc"

abbrev pub sample_descriptor : Descriptor
sample_descriptor = record {
  nonce = hash_a;
  api_version = "1.51";
  project = "packet";
  network_name = "packet_net";
  network_id = hash_a;
  db_name = "packet_db";
  db_volume = "packet_vol";
  db_port = "56422";
  postgres_image_ref = "postgres:17";
  postgres_image_id = "sha256:postgres";
  postgres_digest = "sha256:postgres";
  gotrue_image_ref = "gotrue:v2";
  gotrue_image_id = "sha256:gotrue";
  gotrue_digest = "sha256:gotrue";
}

abbrev pub sample_policy : Policy
sample_policy = record {
  descriptor = sample_descriptor;
  matrix_sha256 = hash_b;
  digest = hash_c;
  state = negotiate_head;
  step_index = 0;
  health_probe_count = 0;
  request_body_bytes = 0;
  response_body_bytes = 0;
  db_id = "";
  gotrue_id = "";
  is_complete = false;
  has_failed = false;
}

abbrev named : String → Value
named name = dict (obj (("Name", text name) ∷ ("Labels", expected_labels sample_descriptor) ∷ []))

abbrev no : Value
no = boolean false

abbrev config : Value → Value → List String → String → List (String × Value)
config cmd entrypoint env image =
    ("AttachStderr", no)
    ∷ ("AttachStdin", no)
    ∷ ("AttachStdout", no)
    ∷ ("Cmd", cmd)
    ∷ ("Domainname", text "")
    ∷ ("Entrypoint", entrypoint)
    ∷ ("Env", text_values env)
    ∷ ("Hostname", text "")
    ∷ ("Image", text image)
    ∷ ("Labels", expected_labels sample_descriptor)
    ∷ ("OnBuild", null)
    ∷ ("OpenStdin", no)
    ∷ ("StdinOnce", no)
    ∷ ("Tty", no)
    ∷ ("User", text "")
    ∷ ("Volumes", null)
    ∷ ("WorkingDir", text "")
    ∷ []

abbrev extra_hosts : Value
extra_hosts = text_values ("host.docker.internal:host-gateway" ∷ [])

abbrev db_host : Fields
db_host = obj (
    ("Binds", text_values ("packet_vol:/var/lib/postgresql/data" ∷ []))
    ∷ ("NetworkMode", text "packet_net")
    ∷ ("PortBindings", db_binding "" "56422")
    ∷ ("RestartPolicy", dict (obj (("Name", text "unless-stopped") ∷ [])))
    ∷ ("ExtraHosts", extra_hosts)
    ∷ ("Privileged", no)
    ∷ [])

abbrev health_check : Value
health_check = dict (
    obj (
      (
        "Test",
        text_values
            ("CMD" ∷ "pg_isready" ∷ "-U" ∷ "postgres" ∷ "-h" ∷ "127.0.0.1" ∷ "-p" ∷ "5432" ∷ []),
      )
      ∷ ("Interval", num 10_000_000_000)
      ∷ ("Timeout", num 2_000_000_000)
      ∷ ("Retries", num 3)
      ∷ []))

abbrev db_endpoints : Value
db_endpoints = dict (
    obj (
      (
        "EndpointsConfig",
        dict (
            obj (
              (
                "packet_net",
                dict (obj (("Aliases", text_values ("db" ∷ "db.supabase.internal" ∷ [])) ∷ [])),
              )
              ∷ [])),
      )
      ∷ []))

abbrev pub sample_body : Fields
sample_body = obj (
    ("HostConfig", dict db_host)
    ∷ ("NetworkingConfig", db_endpoints)
    ∷ ("Healthcheck", health_check)
    ∷ config null (text_values ("sh" ∷ "-c" ∷ "docker-entrypoint.sh postgres" ∷ []))
        ("POSTGRES_PASSWORD=secret" ∷ "POSTGRES_HOST=/var/run/postgresql" ∷ "JWT_SECRET=secret"
          ∷ "JWT_EXP=3600" ∷ [])
        "postgres:17")

abbrev gotrue_body : Fields
gotrue_body = obj (
    (
      "HostConfig",
      dict (obj (("NetworkMode", text "packet_net") ∷ ("ExtraHosts", extra_hosts) ∷ [])),
    )
    ∷ ("NetworkingConfig", dict end)
    ∷ config (text_values ("gotrue" ∷ "migrate" ∷ [])) null
        ("API_EXTERNAL_URL=http://localhost" ∷ "GOTRUE_LOG_LEVEL=error"
          ∷ "GOTRUE_DB_DRIVER=postgres" ∷ "GOTRUE_DB_DATABASE_URL=postgresql://db"
          ∷ "GOTRUE_SITE_URL=http://localhost:3000" ∷ "GOTRUE_JWT_SECRET=secret" ∷ [])
        "gotrue:v2")

abbrev settings : Value → Value
settings ports = dict (
    obj (
      ("Networks", dict (obj (("packet_net", dict (obj (("NetworkID", text hash_a) ∷ []))) ∷ [])))
      ∷ ("Ports", ports)
      ∷ []))

abbrev inspected : String → String → String → Value → List (String × Value) → Value
inspected id image name ports state = dict (
    obj (
      ("Id", text id)
      ∷ ("Image", text image)
      ∷ ("Name", text name)
      ∷ ("NetworkSettings", settings ports)
      ∷ ("State", dict (obj state))
      ∷ []))

abbrev healthy_db : Value
healthy_db =
    inspected hash_b "sha256:postgres" "/packet_db" (db_binding "127.0.0.1" "56422")
      (("Health", dict (obj (("Status", text "healthy") ∷ []))) ∷ [])

abbrev identity : String → Value
identity id = dict (obj (("Id", text id) ∷ []))

abbrev documents : List (Bytes × Value)
documents =
    (codes "network", named "packet_net")
    ∷ (codes "volume", named "packet_vol")
    ∷ (codes "database", dict sample_body)
    ∷ (codes "migration", dict gotrue_body)
    ∷ (codes "postgres_image", identity "sha256:postgres")
    ∷ (codes "gotrue_image", identity "sha256:gotrue")
    ∷ (codes "database_id", identity hash_b)
    ∷ (codes "migration_id", identity hash_c)
    ∷ (codes "healthy", healthy_db)
    ∷ (codes "migrated", inspected hash_c "sha256:gotrue" "/gotrue" null (("ExitCode", num 0) ∷ []))
    ∷ []

abbrev pub lookup {ℓ} : {A : Type ℓ} → Bytes → List (Bytes × A) → Option A
lookup k [] = none
lookup k ((j, v) ∷ rest) = if equal j k then some v else lookup k rest

abbrev queries : List (Bytes × Query)
queries =
    (codes "", [])
    ∷ (codes "name=packet_db", (codes "name", codes "packet_db" ∷ []) ∷ [])
    ∷ (codes "force=1&v=1", (codes "force", codes "1" ∷ []) ∷ (codes "v", codes "1" ∷ []) ∷ [])
    ∷ (
      codes "follow=1&stderr=1&stdout=1&tail=",
      (codes "follow", codes "1" ∷ [])
          ∷ (codes "stderr", codes "1" ∷ [])
          ∷ (codes "stdout", codes "1" ∷ [])
          ∷ (codes "tail", [] ∷ [])
          ∷ [],
    )
    ∷ []

abbrev url : Bytes → Bytes → Bytes → Option Bytes → Option Bytes → Option Bytes → Option ℕ → Url
url scheme path query username password hostname port = record {
  scheme = scheme;
  netloc = elim hostname [ none ↦ [] | some h ↦ h ];
  path = path;
  query = query;
  fragment = [];
  username = username;
  password = password;
  hostname = hostname;
  port = some port;
}

abbrev urls : List (Bytes × Url)
urls =
    (codes "http://localhost", url (codes "http") [] [] none none (some (codes "localhost")) none)
    ∷ (
      codes "postgresql://db",
      url (codes "postgresql") (codes "/postgres") [] (some (codes "supabase_auth_admin"))
          (some (codes "secret")) (some (codes "packet_db")) (some 5432),
    )
    ∷ []

abbrev split_target : Bytes → Url
split_target target = elim (cut b'?' target) [
  | none ↦ url [] target [] none none none none
  | some (path, query) ↦ url [] path query none none none none
]

abbrev pub sample_library : Library
sample_library = record {
  json_loads = λ raw. lookup raw documents;
  json_dumps = λ v. codes "{}";
  sha256 = λ raw. hash_c;
  urlsplit = λ raw. elim (lookup raw urls) [ none ↦ some (split_target raw) | some u ↦ some u ];
  parse_qs = λ raw. lookup raw queries;
  unquote = λ raw. raw;
  isdigit = is_digits;
}

abbrev json_headers : Headers
json_headers = (codes "content-type", codes "application/json") ∷ []

abbrev pub sample_request : String → String → String → Request
sample_request method target body = record {
  method = codes method;
  target = codes target;
  headers = json_headers;
  body = codes body;
}

abbrev pub sample_response : ℕ → String → Response
sample_response code body = record {
  code = code;
  headers = (codes "api-version", codes "1.51") ∷ json_headers;
  body = some (codes body);
  body_bytes = 10;
}

abbrev step : String → String → String → ℕ → String → Exchange
step method target body code answered = record {
  request = sample_request method target body;
  response = sample_response code answered;
}

abbrev a_url : String → String
a_url s = "/v1.51/containers/" <> s

-- a log that is streamed
abbrev log_step : String → Exchange
log_step target = record {
  request = sample_request "GET" target "";
  response = record {
    code = 200;
    headers = (codes "content-type", codes "application/vnd.docker.raw-stream") ∷ [];
    body = none;
    body_bytes = 10;
  };
}

-- the exchanges of one complete start
abbrev pub sample_exchanges : List Exchange
sample_exchanges =
    step "HEAD" "/_ping" "" 200 ""
    ∷ step "GET" (a_url "packet_db/json") "" 404 ""
    ∷ step "GET" "/v1.51/volumes/packet_vol" "" 404 ""
    ∷ step "GET" "/v1.51/images/postgres:17/json" "" 200 "postgres_image"
    ∷ step "POST" "/v1.51/networks/create" "network" 409 ""
    ∷ step "POST" "/v1.51/volumes/create" "volume" 201 "volume"
    ∷ step "POST" (a_url "create?name=packet_db") "database" 201 "database_id"
    ∷ step "POST" (a_url (hash_b <> "/start")) "" 204 ""
    ∷ step "GET" (a_url "packet_db/json") "" 200 "healthy"
    ∷ step "GET" "/v1.51/images/gotrue:v2/json" "" 200 "gotrue_image"
    ∷ step "POST" "/v1.51/networks/create" "network" 409 ""
    ∷ step "POST" (a_url "create") "migration" 201 "migration_id"
    ∷ step "POST" (a_url (hash_c <> "/start")) "" 204 ""
    ∷ log_step (a_url (hash_c <> "/logs?follow=1&stderr=1&stdout=1&tail="))
    ∷ step "GET" (a_url (hash_c <> "/json")) "" 200 "migrated"
    ∷ step "DELETE" (a_url (hash_c <> "?force=1&v=1")) "" 204 ""
    ∷ []
