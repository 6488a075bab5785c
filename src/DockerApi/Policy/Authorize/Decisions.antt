-- ===== src/DockerApi/Policy/Authorize/Decisions.antt =====
-- What a request must be for each state to let it through.
use hosted_replay_harness.Prelude.{
  Bytes, codes, equal, ◌≡◌, true, arith, List, String, ℕ, false, Bool, [], equal_iff, length, ◌*◌,
  ◌+◌, ◌∙◌, ◌∷◌,
}
use hosted_replay_harness.DockerApi.Library.{Library, Query}
use hosted_replay_harness.DockerApi.Outcome.{
  ok, fail_if-passed, order_rejected, >>=-eq-ok, identity_rejected, query_rejected, body_rejected,
  fail,
}
use hosted_replay_harness.DockerApi.Path.{
  Phase, api_negotiation, image_inspect, network_inspect_reuse, volume_inspect, volume_create,
  container_inspect, container_create, container_start, container_logs, container_remove,
  unknown_api_phase,
}
use hosted_replay_harness.DockerApi.Policy.State.{
  State, negotiate_head, negotiate_get, db_inspect, pg_image_inspect, network_db, db_create,
  db_start, db_health, db_logs, gotrue_image_inspect, network_gotrue, gotrue_create, gotrue_start,
  gotrue_logs, gotrue_inspect, gotrue_remove, Decision, Policy, completed, halted, Refused,
}
use hosted_replay_harness.DockerApi.Policy.Authorize.{
  Asked, decide_in, ask_ping, ask_get, ask_image, ask_named, ask_create, ask_start, ask_logs,
  ask_remove, simple, decided, require_json, authorize, container_path, Request, decide,
  is_negotiation,
}
use hosted_replay_harness.DockerApi.Json.{exact_keys}
use hosted_replay_harness.DockerApi.Policy.Body.{check_labels, check_container_body}
use hosted_replay_harness.Value.{get}
use hosted_replay_harness.DockerApi.Policy.Body.Keys.{network_create_keys, volume_create_keys}
use hosted_replay_harness.DockerApi.Policy.Target.{read_target}

-- The one method of each state, and the phase that its decision names.
abbrev pub method_of : State → Bytes
method_of negotiate_head = codes "HEAD"
method_of network_db = codes "POST"
method_of network_gotrue = codes "POST"
method_of State.volume_create = codes "POST"
method_of db_create = codes "POST"
method_of gotrue_create = codes "POST"
method_of db_start = codes "POST"
method_of gotrue_start = codes "POST"
method_of gotrue_remove = codes "DELETE"
method_of _ = codes "GET"

abbrev pub phase_of : State → Phase
phase_of negotiate_head = api_negotiation
phase_of negotiate_get = api_negotiation
phase_of db_inspect = container_inspect
phase_of State.volume_inspect = volume_inspect
phase_of pg_image_inspect = image_inspect
phase_of gotrue_image_inspect = image_inspect
phase_of network_db = network_inspect_reuse
phase_of network_gotrue = network_inspect_reuse
phase_of State.volume_create = volume_create
phase_of db_create = container_create
phase_of gotrue_create = container_create
phase_of db_start = container_start
phase_of gotrue_start = container_start
phase_of db_health = container_inspect
phase_of db_logs = container_logs
phase_of gotrue_logs = container_logs
phase_of gotrue_inspect = container_inspect
phase_of gotrue_remove = container_remove
phase_of _ = unknown_api_phase

-- A decision of this state and phase, for a request with this method.
record Fits (a : Asked) (method : Bytes) (phase : Phase) (d : Decision) : Type 0 where
  name : d.name ≡ a.state
  phase_is : d.phase ≡ phase
  method_is : d.method ≡ a.method
  wanted : equal a.method method ≡ true

ask_ping-Fits :
    (a : Asked) (method : String) (statuses : List ℕ) {d : Decision}
    → ask_ping a method statuses ≡ ok d
    → Fits a (codes method) api_negotiation d
unfolding ask_ping
ask_ping-Fits a method statuses h = ground arith

simple-Fits :
    (a : Asked) (query : Query) (method path : Bytes) (phase : Phase) (statuses : List ℕ)
    (stream : Bool) {d : Decision}
    → simple a query method path phase statuses stream ≡ ok d
    → Fits a method phase d
unfolding simple
simple-Fits a query method path phase statuses stream h = ground arith

ask_image-Fits :
    (lib : Library) (a : Asked) (image : String) {d : Decision}
    → ask_image lib a image ≡ ok d
    → Fits a (codes "GET") image_inspect d
unfolding ask_image
ask_image-Fits lib a image h = ground arith

-- a decision behind checks that passed
module _ (a : Asked) (method : Bytes) (phase : Phase) (statuses : List ℕ) {d : Decision} where
  decided-Fits :
      equal a.method method ≡ true → decided a phase statuses false ≡ ok d → Fits a method phase d
  decided-Fits w h = ground arith

ask_named-Fits :
    (lib : Library) (a : Asked) (path : String) (allowed : List String) (name : String)
    (phase : Phase) (status : ℕ) {d : Decision}
    → ask_named lib a path allowed name phase status ≡ ok d
    → Fits a (codes "POST") phase d
unfolding ask_named
ask_named-Fits lib a path allowed name phase status h =
    let (called, h₁) = fail_if-passed _ order_rejected _ h in
    let (value, _, h₂) = >>=-eq-ok (require_json lib a 65536) _ h₁ in
    let (_, _, h₃) = >>=-eq-ok (exact_keys value allowed) _ h₂ in
    let (_, h₄) = fail_if-passed _ identity_rejected _ h₃ in
    let (_, _, h₅) = >>=-eq-ok (check_labels a.descriptor (get "Labels" value)) _ h₄ in
    let (_, h₆) = fail_if-passed _ body_rejected _ h₅ in
    decided-Fits a (codes "POST") phase (status ∷ []) (ground arith) h₆

ask_create-Fits :
    (lib : Library) (a : Asked) (database : Bool) (expected : List (Bytes × Bytes)) {d : Decision}
    → ask_create lib a database expected ≡ ok d
    → Fits a (codes "POST") container_create d
unfolding ask_create
ask_create-Fits lib a database expected h =
    let (called, h₁) = fail_if-passed _ order_rejected _ h in
    let (_, h₂) = fail_if-passed _ query_rejected _ h₁ in
    let (value, _, h₃) = >>=-eq-ok (require_json lib a (1024 * 1024)) _ h₂ in
    let (_, _, h₄) = >>=-eq-ok (check_container_body lib a.descriptor value database) _ h₃ in
    decided-Fits a (codes "POST") container_create (201 ∷ []) (ground arith) h₄

ask_logs-Fits :
    (a : Asked) (path : Bytes) (expected : List (Bytes × Bytes)) {d : Decision}
    → ask_logs a path expected ≡ ok d
    → Fits a (codes "GET") container_logs d
unfolding ask_logs
ask_logs-Fits a path expected h =
    let (e, s, h₁) =
      >>=-eq-ok (simple a [] (codes "GET") path container_logs (200 ∷ []) true) _ h in
    let (_, h₂) = fail_if-passed _ query_rejected _ h₁ in
    simple-Fits a [] (codes "GET") path container_logs (200 ∷ []) true (s ∙ h₂)

ask_remove-Fits :
    (a : Asked) {d : Decision} → ask_remove a ≡ ok d → Fits a (codes "DELETE") container_remove d
unfolding ask_remove
ask_remove-Fits a h =
    let (_, h₁) = fail_if-passed _ query_rejected _ h in
    simple-Fits a [] (codes "DELETE") (container_path a.gotrue_id "") container_remove (204 ∷ [])
      false h₁

decide_in-Fits :
    (lib : Library) (s : State) (a : Asked) {d : Decision}
    → decide_in lib s a ≡ ok d
    → Fits a (method_of s) (phase_of s) d
unfolding decide_in ask_get ask_start
decide_in-Fits lib negotiate_head a h = ask_ping-Fits a "HEAD" (200 ∷ 405 ∷ []) h
decide_in-Fits lib negotiate_get a h = ask_ping-Fits a "GET" (200 ∷ []) h
decide_in-Fits lib db_inspect a h = simple-Fits a _ _ _ _ _ _ h
decide_in-Fits lib State.volume_inspect a h = simple-Fits a _ _ _ _ _ _ h
decide_in-Fits lib pg_image_inspect a h = ask_image-Fits lib a _ h
decide_in-Fits lib gotrue_image_inspect a h = ask_image-Fits lib a _ h
decide_in-Fits lib network_db a h =
    ask_named-Fits lib a "/networks/create" network_create_keys _ _ _ h
decide_in-Fits lib network_gotrue a h =
    ask_named-Fits lib a "/networks/create" network_create_keys _ _ _ h
decide_in-Fits lib State.volume_create a h =
    ask_named-Fits lib a "/volumes/create" volume_create_keys _ _ _ h
decide_in-Fits lib db_create a h = ask_create-Fits lib a _ _ h
decide_in-Fits lib gotrue_create a h = ask_create-Fits lib a _ _ h
decide_in-Fits lib db_start a h = simple-Fits a _ _ _ _ _ _ h
decide_in-Fits lib gotrue_start a h = simple-Fits a _ _ _ _ _ _ h
decide_in-Fits lib db_health a h = simple-Fits a _ _ _ _ _ _ h
decide_in-Fits lib db_logs a h = ask_logs-Fits a _ _ h
decide_in-Fits lib gotrue_logs a h = ask_logs-Fits a _ _ h
decide_in-Fits lib gotrue_inspect a h = simple-Fits a _ _ _ _ _ _ h
decide_in-Fits lib gotrue_remove a h = ask_remove-Fits a h
decide_in-Fits lib completed a h = cc
decide_in-Fits lib halted a h = cc

decide-eq-ok :
    (lib : Library) (p : Policy) (r : Request) {d : Decision}
    → decide lib p r ≡ ok d
    → (d.name ≡ p.state)
      × (d.phase ≡ phase_of p.state)
      × (d.method ≡ r.method)
      × (r.method ≡ method_of p.state)
unfolding decide
decide-eq-ok lib p r h =
    let (t, _, h₁) =
      >>=-eq-ok (read_target lib p.descriptor r.target (is_negotiation p.state)) _ h in
    let fits = decide_in-Fits lib p.state _ h₁ in
    (fits.name, fits.phase_is, fits.method_is, (equal_iff _ _).0 fits.wanted)

-- A policy that has failed and is halted refuses every request and stays as it is.
pub authorize-failed :
    (lib : Library) (p : Policy) (r : Request)
    → p.has_failed ≡ true
    → p.state ≡ halted
    → authorize lib p r ≡ (fail order_rejected, p)
unfolding authorize
authorize-failed lib p r f s = rw f (ground (arith, s))

-- If a request is let through, then the policy was neither failed nor complete, the method is
-- the one method of the state, the decision names that state, its phase and the method, and the
-- policy has changed in its count of body bytes alone.
pub authorize-eq-ok :
    (lib : Library) (p : Policy) (r : Request) {d : Decision}
    → (authorize lib p r).0 ≡ ok d
    → (p.has_failed ≡ false)
      × (p.is_complete ≡ false)
      × (d.name ≡ p.state)
      × (d.phase ≡ phase_of p.state)
      × (r.method ≡ method_of p.state)
      × (d.method ≡ r.method)
      × ((authorize lib p r).1
          ≡ record p { request_body_bytes = p.request_body_bytes + length r.body })
unfolding authorize
authorize-eq-ok lib p r {d} h = ground (
  arith,
  decide-eq-ok lib (record p { request_body_bytes = p.request_body_bytes + length r.body }) r
      {d = d},
)

-- Authorizing a request leaves the policy failed, or at its old state and flags with no fewer
-- probes counted, whether the request is let through or not.
pub authorize-Refused : (lib : Library) (p : Policy) (r : Request) → Refused p (authorize lib p r).1
unfolding authorize
authorize-Refused lib p r = ground arith

pub authorize-decided :
    (lib : Library) (p : Policy) (r : Request) {d : Decision}
    → (authorize lib p r).0 ≡ ok d
    → decide lib (record p { request_body_bytes = p.request_body_bytes + length r.body }) r ≡ ok d
unfolding authorize
authorize-decided lib p r {d} h = ground arith
