-- ===== src/DockerApi/Policy/Authorize/Creation.antt =====
-- The creations of containers that the policy lets through.
use hosted_replay_harness.DockerApi.Outcome.{
  >>=-eq-ok, fail_if-passed, media_type_rejected, ok, order_rejected, query_rejected,
}
use hosted_replay_harness.DockerApi.Policy.Authorize.{
  Asked, Request, ask_create, authorize, decide, decide_in, require_json, is_negotiation,
}
use hosted_replay_harness.Prelude.{Bool, Bytes, List, false, length, true, ◌*◌, ◌+◌, ◌≡◌}
use hosted_replay_harness.DockerApi.Policy.Body.Passed.{
  Confined, active_host, container-Confined, OpensOnly, container-OpensOnly,
}
use hosted_replay_harness.DockerApi.Policy.State.{Decision, Policy, State, db_create, gotrue_create}
use hosted_replay_harness.Value.{Fields, dict, get}
use hosted_replay_harness.DockerApi.Library.{Library, Query}
use hosted_replay_harness.DockerApi.Policy.Authorize.Decisions.{authorize-decided}
use hosted_replay_harness.DockerApi.Policy.Body.{check_container_body}
use hosted_replay_harness.DockerApi.Json.{closed_json}
use hosted_replay_harness.DockerApi.Policy.Target.{read_target}

-- whether the state creates a container, and which
pub data Creates : State → Bool → Type 0 where
  creates_db : Creates db_create true
  creates_gotrue : Creates gotrue_create false

created :
    (lib : Library) (a : Asked) (database : Bool) (expected : List (Bytes × Bytes)) {d : Decision}
    → ask_create lib a database expected ≡ ok d
    → (value : Fields) × (closed_json lib a.body (1024 * 1024) ≡ ok value)
      × (check_container_body lib a.descriptor value database ≡ ok tt)
unfolding ask_create
created lib a database expected h =
    let (_, h₁) = fail_if-passed _ order_rejected _ h in
    let (_, h₂) = fail_if-passed _ query_rejected _ h₁ in
    let (value, e, h₃) = >>=-eq-ok (require_json lib a (1024 * 1024)) _ h₂ in
    let (_, e') = fail_if-passed _ media_type_rejected _ e in
    let (_, c, _) = >>=-eq-ok (check_container_body lib a.descriptor value database) _ h₃ in
    (value, e', c)

created_in :
    (lib : Library) (s : State) (database : Bool) (a : Asked) {d : Decision}
    → Creates s database
    → decide_in lib s a ≡ ok d
    → (value : Fields) × (closed_json lib a.body (1024 * 1024) ≡ ok value)
      × (check_container_body lib a.descriptor value database ≡ ok tt)
unfolding decide_in
created_in lib _ _ a creates_db h = created lib a true _ h
created_in lib _ _ a creates_gotrue h = created lib a false _ h

decided-at :
    (lib : Library) (p : Policy) (r : Request) {d : Decision}
    → decide lib p r ≡ ok d
    → (path : Bytes) × (query : Query) × (decide_in lib p.state
          (record { policy = p; request = r; path = path; query = query })
        ≡ ok d)
unfolding decide
decided-at lib p r h =
    let (t, _, h₁) =
      >>=-eq-ok (read_target lib p.descriptor r.target (is_negotiation p.state)) _ h in
    (t.0, t.1, h₁)

-- If a policy that waits for the creation of a container lets a request through, then the body
-- is a closed JSON object of at most a mebibyte whose host configuration names the packet
-- network, has known keys only, is empty at every key but the active ones of the role, and has
-- the one extra host; the database binds its one volume, asks for its one port and has its
-- restart policy, and the migration has no bind, no port and no restart policy.
pub creation-Confined :
    (lib : Library) (p : Policy) (r : Request) (database : Bool) {d : Decision}
    → Creates p.state database
    → (authorize lib p r).0 ≡ ok d
    → (value host : Fields) × (closed_json lib r.body (1024 * 1024) ≡ ok value)
      × (get "HostConfig" value ≡ dict host)
      × Confined p.descriptor (active_host database) host
      × OpensOnly p.descriptor database host
creation-Confined lib p r database {d} c h =
    let q = record p { request_body_bytes = p.request_body_bytes + length r.body } in
    let (path, query, e) = decided-at lib q r {d = d} (authorize-decided lib p r h) in
    let asked : Asked = record { policy = q; request = r; path = path; query = query } in
    let (value, parsed, body_ok) = created_in lib p.state database asked c e in
    let (host, at, confined) = container-Confined lib p.descriptor value database body_ok in
    (
      value,
      host,
      parsed,
      at,
      confined,
      container-OpensOnly lib p.descriptor value database body_ok at,
    )
