-- ===== src/Tests.antt =====
-- Runs of the theorems on sample data.
mod Probe
mod Logs
mod Rules
pub mod Samples
pub mod Watch
pub mod Events
use mathlib.Core.Path.{refl}
use hosted_replay_harness.Value.{without, Fields, dict, get}
use hosted_replay_harness.ContainerWatch.Violations.{
  order, network_not_internal, pid_mode_rejected, privileged_mode_rejected,
}
use hosted_replay_harness.DockerApi.Receipt.Counts.{
  Agrees, apply_all, on_connect, on_request, on_response, receipt-Agrees,
}
use hosted_replay_harness.Prelude.{
  Bool, Bytes, List, [], codes, false, length, some, true, ℕ, ◌*◌, ◌+◌, ◌∷◌, ◌≡◌, ◌≢◌, ◌≤◌, inr,
}
use hosted_replay_harness.DockerApi.Policy.Body.Passed.{Confined, active_host, OpensOnly}
use hosted_replay_harness.DockerApi.Policy.State.{
  Decision, HasHalted, Policy, completed, db_create, negotiate_head,
}
use hosted_replay_harness.DockerApi.Framing.{Feeding, Shared, feed, new_parser, request_side}
use hosted_replay_harness.DockerApi.Policy.Accept.Progress.{
  Kept, accept-Kept, accept-follows, follows,
}
use hosted_replay_harness.DockerApi.Policy.Authorize.{Request, authorize, run_authorize}
use hosted_replay_harness.DockerApi.Policy.Accept.{accept, run_accept}
use hosted_replay_harness.DockerApi.Path.{api_negotiation, api_prefix, container_create, read}
use hosted_replay_harness.DockerApi.Policy.Authorize.Decisions.{
  authorize-eq-ok, method_of, phase_of,
}
use hosted_replay_harness.DockerApi.Json.{closed_json}
use hosted_replay_harness.DockerApi.Policy.Run.Trail.{complete_trail, trail}
use hosted_replay_harness.DockerApi.Policy.Authorize.Creation.{creates_db, creation-Confined}
use hosted_replay_harness.DockerApi.Framing.Ending.{feed-ends, Reads, Settles}
use hosted_replay_harness.DockerApi.Receipt.{new_receipt, request, response}
use hosted_replay_harness.DockerApi.Outcome.{ok, raised, violation, status_rejected}
use hosted_replay_harness.DockerApi.Policy.Run.{run, run_run, Exchange, exchange}
use hosted_replay_harness.Tests.Samples.{
  sample_descriptor, sample_exchanges, sample_library, sample_policy, sample_request,
  sample_response,
}
use hosted_replay_harness.DockerApi.Receipt.Sanitized.{
  HasHashes, result_fields, sanitized, validate_result,
}
use hosted_replay_harness.DockerApi.Receipt.Sanitized.Valid.{sanitized-eq-some}
use hosted_replay_harness.DockerApi.Policy.Run.Halting.{run-HasHalted}

runs_complete : (run sample_library sample_policy [] sample_exchanges).0.is_complete ≡ true
unfolding run_run api_prefix
runs_complete = refl

complete_trail_example :
    (f : Bool) × (k : ℕ) × ((run sample_library sample_policy [] sample_exchanges).1
      ≡ trail f k completed)
    × (1 ≤ k)
    × (k ≤ 121)
complete_trail_example =
    complete_trail sample_library sample_policy sample_exchanges (refl, refl, refl) runs_complete

abbrev creating_policy : Policy
creating_policy = record sample_policy { state = db_create }

abbrev create_request : Request
create_request = sample_request "POST" "/v1.51/containers/create?name=packet_db" "database"

abbrev create_decision : Decision
create_decision = record {
  name = db_create;
  phase = container_create;
  method = codes "POST";
  expected_statuses = 201 ∷ [];
  stream = false;
}

creation_let_through :
    (authorize sample_library creating_policy create_request).0 ≡ ok create_decision
unfolding run_authorize api_prefix
creation_let_through = refl

creation-Confined_example :
    (value host : Fields) × (closed_json sample_library create_request.body (1024 * 1024)
      ≡ ok value)
    × (get "HostConfig" value ≡ dict host)
    × Confined sample_descriptor (active_host true) host
    × OpensOnly sample_descriptor true host
creation-Confined_example =
    creation-Confined sample_library creating_policy create_request true creates_db
      creation_let_through

authorize-eq-ok_example :
    (creating_policy.has_failed ≡ false)
    × (creating_policy.is_complete ≡ false)
    × (create_decision.name ≡ creating_policy.state)
    × (create_decision.phase ≡ phase_of creating_policy.state)
    × (create_request.method ≡ method_of creating_policy.state)
    × (create_decision.method ≡ create_request.method)
    × ((authorize sample_library creating_policy create_request).1 ≡ record creating_policy {
      request_body_bytes = creating_policy.request_body_bytes + length create_request.body;
    })
authorize-eq-ok_example =
    authorize-eq-ok sample_library creating_policy create_request creation_let_through

abbrev pinged : Decision
pinged = record {
  name = negotiate_head;
  phase = api_negotiation;
  method = codes "HEAD";
  expected_statuses = 200 ∷ 405 ∷ [];
  stream = false;
}

ping_accepted : (accept sample_library sample_policy pinged (sample_response 405 "")).0 ≡ ok tt
unfolding run_accept
ping_accepted = refl

accept-follows_example :
    follows negotiate_head
      (accept sample_library sample_policy pinged (sample_response 405 "")).1.state
    ≡ true
accept-follows_example =
    accept-follows sample_library sample_policy pinged (sample_response 405 "") ping_accepted

accept-Kept_example :
    Kept negotiate_head sample_policy
      (accept sample_library sample_policy pinged (sample_response 405 "")).1
accept-Kept_example =
    accept-Kept sample_library sample_policy pinged (sample_response 405 "") ping_accepted

-- a ping that Docker answers with an error
abbrev failed_ping : Exchange
failed_ping = record {
  request = sample_request "HEAD" "/_ping" "";
  response = sample_response 500 "";
}

failed_ping_rejected :
    (exchange sample_library sample_policy failed_ping).0 ≡ raised (violation status_rejected)
unfolding run_run api_prefix
failed_ping_rejected = refl

run-HasHalted_example :
    HasHalted sample_policy (exchange sample_library sample_policy failed_ping).1
    × (run sample_library (exchange sample_library sample_policy failed_ping).1 [] sample_exchanges
        ≡ ((exchange sample_library sample_policy failed_ping).1, []))
run-HasHalted_example =
    run-HasHalted sample_library sample_policy failed_ping [] sample_exchanges status_rejected
      (inr failed_ping_rejected)

receipt-Agrees_example : Agrees (
    apply_all sample_library
      (on_connect ∷ on_request api_negotiation read ∷ on_response api_negotiation 404 ∷ [])
      new_receipt)
receipt-Agrees_example =
    receipt-Agrees sample_library
      (on_connect ∷ on_request api_negotiation read ∷ on_response api_negotiation 404 ∷ [])

new_hashes : HasHashes new_receipt
unfolding new_receipt
new_hashes = record { matrix = refl; policy = refl; database = refl; migration = refl }

sanitized-eq-some_example :
    (fs : Fields) × (sanitized sample_library new_receipt ≡ some fs)
    × (validate_result sample_library fs ≡ true)
    × (without "canonical_sha256" fs ≡ result_fields new_receipt)
sanitized-eq-some_example = sanitized-eq-some sample_library new_receipt refl new_hashes

abbrev no_requests : Shared
no_requests = record { receipt = new_receipt; pending = [] }

-- a request, and behind it a write
abbrev two_reads : List Bytes
two_reads = codes "GET /_ping HTTP/1.1\r\n\r\n" ∷ codes "POST /containers/create HTTP/1.1\r\n" ∷ []

abbrev ping_read : Bytes
ping_read = codes "GET /_ping HTTP/1.1\r\n\r\n"

feed-ends_example :
    (f : Feeding) × (feed request_side ping_read new_parser no_requests ≡ some f)
    × Reads request_side f (record new_parser { buffer = ping_read }) no_requests
    × Settles f.ended f.parser
feed-ends_example = feed-ends request_side ping_read new_parser no_requests
