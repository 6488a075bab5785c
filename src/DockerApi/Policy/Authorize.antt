-- ===== src/DockerApi/Policy/Authorize.antt =====
-- `authorize`: which request each state of the policy lets through.
pub mod Decisions
pub mod Creation
use hosted_replay_harness.Prelude.{
  ℕ, ◌+◌, ◌*◌, Bytes, codes, equal, length, String, Bool, true, false, not, ◌&&◌, ◌||◌, List, [],
  ◌∷◌, ◌++◌, ◌==◌, if◌then◌else◌,
}
use hosted_replay_harness.Value.{Fields, get, is_text_of}
use hosted_replay_harness.DockerApi.Library.{Library, Query}
use hosted_replay_harness.DockerApi.Outcome.{
  Outcome, ok, fail, fail_if, order_rejected, query_rejected, identity_rejected, body_rejected,
  operation_rejected, media_type_rejected, ◌>>=◌, ◌>>◌,
}
use hosted_replay_harness.DockerApi.Path.{
  Phase, api_negotiation, image_inspect, network_inspect_reuse, volume_inspect, volume_create,
  container_inspect, container_create, container_start, container_logs, container_remove,
}
use hosted_replay_harness.DockerApi.Json.{closed_json, exact_keys}
use hosted_replay_harness.DockerApi.Headers.{Headers, media_type}
use hosted_replay_harness.DockerApi.Policy.State.{
  State, negotiate_head, negotiate_get, db_inspect, pg_image_inspect, network_db, db_create,
  db_start, db_health, db_logs, gotrue_image_inspect, network_gotrue, gotrue_create, gotrue_start,
  gotrue_logs, gotrue_inspect, gotrue_remove, Decision, Policy, Ended, settle,
}
use hosted_replay_harness.DockerApi.Policy.Target.{is_nil, read_target}
use hosted_replay_harness.DockerApi.Policy.Body.Keys.{network_create_keys, volume_create_keys}
use hosted_replay_harness.DockerApi.Policy.Body.{
  check_labels, all_inactive, check_container_body, run_container_body,
}

-- A request as `_read_request` hands it over.
pub record Request : Type 0 where
  pub method : Bytes
  pub target : Bytes
  pub headers : Headers
  pub body : Bytes

-- What the branch of one state reads: the policy, the request, its normalized path and query.
pub record Asked : Type 0 where
  pub policy : Policy
  pub open policy use {descriptor, state, db_id, gotrue_id}
  pub request : Request
  pub open request use {method, headers, body}
  pub path : Bytes
  pub query : Query

-- `PolicyDecision(state, phase, method, statuses, stream)`
abbrev decided : Asked → Phase → List ℕ → Bool → Outcome Decision
decided a phase statuses stream = ok (record {
  name = a.state;
  phase = phase;
  method = a.method;
  expected_statuses = statuses;
  stream = stream;
})

-- the method and path that are wanted
abbrev is_call : Asked → Bytes → Bytes → Bool
is_call a method path = equal a.method method && equal a.path path

-- with neither query nor body
abbrev is_bare_call : Asked → Query → Bytes → Bytes → Bool
is_bare_call a query method path = (is_call a method path && is_nil query) && is_nil a.body

simple : Asked → Query → Bytes → Bytes → Phase → List ℕ → Bool → Outcome Decision
simple a query method path phase statuses stream = do
  fail_if (not (is_bare_call a query method path)) order_rejected
  decided a phase statuses stream

abbrev require_json : Library → Asked → ℕ → Outcome Fields
require_json lib a maximum = do
  fail_if (not (equal (media_type a.headers) (codes "application/json"))) media_type_rejected
  closed_json lib a.body maximum

abbrev query_at : Bytes → Query → List Bytes
query_at k [] = []
query_at k ((j, v) ∷ q) = if equal j k then v else query_at k q

abbrev is_only : Bytes → List Bytes → Bool
is_only v (w ∷ []) = equal v w
is_only v _ = false

abbrev has_each : List (Bytes × Bytes) → Query → Bool
has_each [] q = true
has_each ((k, v) ∷ rest) q = is_only v (query_at k q) && has_each rest q

-- `query == {k: [v], …}`: as many keys, and each of these with its value.
abbrev query_is : Query → List (Bytes × Bytes) → Bool
query_is q expected = (length q == length expected) && has_each expected q

-- "/containers/{name}{suffix}"
abbrev pub container_path : String → String → Bytes
container_path name suffix = codes "/containers/" ++ (codes name ++ codes suffix)

ask_ping : Asked → String → List ℕ → Outcome Decision
ask_ping a method statuses = do
  fail_if (not (is_bare_call a a.query (codes method) (codes "/_ping"))) order_rejected
  decided a api_negotiation statuses false

ask_image : Library → Asked → String → Outcome Decision
ask_image lib a image = do
  fail_if
      (not (
        ((equal a.method (codes "GET")
            && equal (lib.unquote a.path) (codes "/images/" ++ (codes image ++ codes "/json")))
          && is_nil a.query)
        && is_nil a.body))
      identity_rejected
  decided a image_inspect (200 ∷ []) false

-- the creation of the network or of the volume: a name, the labels, and nothing else
ask_named : Library → Asked → String → List String → String → Phase → ℕ → Outcome Decision
ask_named lib a path allowed name phase status = do
  fail_if (not (is_call a (codes "POST") (codes path) && is_nil a.query)) order_rejected
  value ← require_json lib a 65536
  exact_keys value allowed
  fail_if (not (is_text_of name (get "Name" value))) identity_rejected
  check_labels a.descriptor (get "Labels" value)
  fail_if (not (all_inactive ("Name" ∷ "Labels" ∷ []) value)) body_rejected
  decided a phase (status ∷ []) false

ask_create : Library → Asked → Bool → List (Bytes × Bytes) → Outcome Decision
ask_create lib a database expected = do
  fail_if (not (is_call a (codes "POST") (codes "/containers/create"))) order_rejected
  fail_if (not (query_is a.query expected)) query_rejected
  value ← require_json lib a (1024 * 1024)
  check_container_body lib a.descriptor value database
  decided a container_create (201 ∷ []) false

ask_logs : Asked → Bytes → List (Bytes × Bytes) → Outcome Decision
unfolding simple
ask_logs a path expected = do
  d ← simple a [] (codes "GET") path container_logs (200 ∷ []) true
  fail_if (not (query_is a.query expected)) query_rejected
  ok d

ask_remove : Asked → Outcome Decision
unfolding simple
ask_remove a = do
  fail_if (not (query_is a.query ((codes "force", codes "1") ∷ (codes "v", codes "1") ∷ [])))
      query_rejected
  simple a [] (codes "DELETE") (container_path a.gotrue_id "") container_remove (204 ∷ []) false

-- A GET of one object, with the statuses that its answer may have.
ask_get : Asked → Bytes → Phase → ℕ → Outcome Decision
unfolding simple
ask_get a path phase status = simple a a.query (codes "GET") path phase (status ∷ []) false

ask_start : Asked → String → Outcome Decision
unfolding simple
ask_start a identifier =
    simple a a.query (codes "POST") (container_path identifier "/start") container_start (204 ∷ [])
      false

abbrev log_query : List (Bytes × Bytes)
log_query =
    (codes "stderr", codes "1") ∷ (codes "stdout", codes "1") ∷ (codes "tail", codes "") ∷ []

-- The branches of `authorize` behind `_target`.
pub decide_in : Library → State → Asked → Outcome Decision
decide_in lib negotiate_head a = ask_ping a "HEAD" (200 ∷ 405 ∷ [])
decide_in lib negotiate_get a = ask_ping a "GET" (200 ∷ [])
decide_in lib db_inspect a =
    ask_get a (container_path a.descriptor.db_name "/json") container_inspect 404
decide_in lib State.volume_inspect a =
    ask_get a (codes "/volumes/" ++ codes a.descriptor.db_volume) volume_inspect 404
decide_in lib pg_image_inspect a = ask_image lib a a.descriptor.postgres_image_ref
decide_in lib gotrue_image_inspect a = ask_image lib a a.descriptor.gotrue_image_ref
decide_in lib network_db a =
    ask_named lib a "/networks/create" network_create_keys a.descriptor.network_name
      network_inspect_reuse 409
decide_in lib network_gotrue a =
    ask_named lib a "/networks/create" network_create_keys a.descriptor.network_name
      network_inspect_reuse 409
decide_in lib State.volume_create a =
    ask_named lib a "/volumes/create" volume_create_keys a.descriptor.db_volume volume_create 201
decide_in lib db_create a = ask_create lib a true ((codes "name", codes a.descriptor.db_name) ∷ [])
decide_in lib gotrue_create a = ask_create lib a false []
decide_in lib db_start a = ask_start a a.db_id
decide_in lib gotrue_start a = ask_start a a.gotrue_id
decide_in lib db_health a =
    ask_get a (container_path a.descriptor.db_name "/json") container_inspect 200
decide_in lib db_logs a = ask_logs a (container_path a.descriptor.db_name "/logs") log_query
decide_in lib gotrue_logs a =
    ask_logs a (container_path a.gotrue_id "/logs") ((codes "follow", codes "1") ∷ log_query)
decide_in lib gotrue_inspect a =
    ask_get a (container_path a.gotrue_id "/json") container_inspect 200
decide_in lib gotrue_remove a = ask_remove a
decide_in lib _ a = fail operation_rejected

abbrev is_negotiation : State → Bool
is_negotiation negotiate_head = true
is_negotiation negotiate_get = true
is_negotiation _ = false

pub decide : Library → Policy → Request → Outcome Decision
decide lib p r = do
  t ← read_target lib p.descriptor r.target (is_negotiation p.state)
  decide_in lib p.state (record { policy = p; request = r; path = t.0; query = t.1 })

pub authorize : Library → Policy → Request → Ended Decision
authorize lib p r =
    if p.has_failed || p.is_complete
    then settle p (fail order_rejected)
    else let q = record p { request_body_bytes = p.request_body_bytes + length r.body } in
      settle q (decide lib q r)

-- Opens all that `authorize` computes with.
unfoldable pub run_authorize : Unit {0}
unfolding authorize decide read_target decide_in ask_ping ask_get ask_image ask_named check_labels
    ask_create run_container_body ask_start ask_logs ask_remove simple media_type closed_json
run_authorize = tt
