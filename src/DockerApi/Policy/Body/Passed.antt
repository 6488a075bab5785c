-- ===== src/DockerApi/Policy/Body/Passed.antt =====
-- What a container body that passes holds.
use mathlib.Core.Path.{subst}
use hosted_replay_harness.DockerApi.Outcome.{
  >>=-eq-ok, body_rejected, fail_if-passed, identity_rejected, ok,
}
use hosted_replay_harness.Prelude.{
  Bool, List, String, [], arith, eq_iff, false, not, refl, true, ◌∷◌, ◌≡◌, ap, sym, ◌<>◌, ◌∙◌,
}
use hosted_replay_harness.DockerApi.Policy.State.{Descriptor}
use hosted_replay_harness.Value.{Fields, Value, among, dict, end, field, get, is_text_of, eq}
use hosted_replay_harness.DockerApi.Library.{Library}
use hosted_replay_harness.DockerApi.Policy.Body.{
  all_inactive, check_container_body, check_health, check_inactive, check_labels, check_script,
  check_urls, database_body, db_active_host, dict_or_fail, gotrue_active_host, gotrue_body,
  role_body, script_of, check_restart, db_binding, text_values,
}
use hosted_replay_harness.DockerApi.Policy.Body.Keys.{config_keys, host_keys}
use hosted_replay_harness.DockerApi.Json.{has_only, is_empty, split_env}

-- An item that is not active is empty.
inactive_at :
    (active : List String) (fs : Fields) (k : String)
    → all_inactive active fs ≡ true
    → among k active ≡ false
    → is_empty (get k fs) ≡ true
unfolding is_empty
inactive_at active end k h n = refl
inactive_at active (field j v fs) k h n = ground (arith, eq_iff j k, inactive_at active fs k)

inactive-passed :
    (allowed active : List String) (fs : Fields)
    → check_inactive allowed active fs ≡ ok tt
    → (has_only allowed fs ≡ true) × (all_inactive active fs ≡ true)
unfolding check_inactive
inactive-passed allowed active fs h = ground arith

-- the fields of a dict
abbrev fields_of : Value → Fields
fields_of (dict fs) = fs
fields_of _ = end

-- What the host configuration of a body that passes has.
pub record Confined (d : Descriptor) (active : List String) (host : Fields) : Type 0 where
  pub network : is_text_of d.network_name (get "NetworkMode" host) ≡ true
  pub known : has_only host_keys host ≡ true
  pub inert : (k : String) → among k active ≡ false → is_empty (get k host) ≡ true

-- What the active keys of the host configuration hold: those of the database name its one volume
-- and its one port, and the migration has none of these.
abbrev RoleHost : Descriptor → Bool → Fields → Type 0
RoleHost d true host =
    (eq (get "Binds" host) (text_values ((d.db_volume <> ":/var/lib/postgresql/data") ∷ [])) ≡ true)
    × (eq (get "PortBindings" host) (db_binding "" d.db_port) ≡ true)
    × (restart : Fields) × (get "RestartPolicy" host ≡ dict restart)
    × (is_text_of "unless-stopped" (get "Name" restart) ≡ true)
RoleHost d false host =
    (is_empty (get "Binds" host) ≡ true)
    × (is_empty (get "PortBindings" host) ≡ true)
    × (is_empty (get "RestartPolicy" host) ≡ true)

-- What a host configuration opens to the container.
pub record OpensOnly (d : Descriptor) (database : Bool) (host : Fields) : Type 0 where
  pub extra_host :
      eq (get "ExtraHosts" host) (text_values ("host.docker.internal:host-gateway" ∷ [])) ≡ true
  pub role : RoleHost d database host

abbrev pub active_host : Bool → List String
active_host true = db_active_host
active_host false = gotrue_active_host

inert-Confined :
    (d : Descriptor) (active : List String) (host : Fields)
    → is_text_of d.network_name (get "NetworkMode" host) ≡ true
    → check_inactive host_keys active host ≡ ok tt
    → Confined d active host
inert-Confined d active host n h =
    let (known, all_inert) = inactive-passed host_keys active host h in
    record { network = n; known = known; inert = λ k out. inactive_at active host k all_inert out }

role-passed :
    (lib : Library) (d : Descriptor) (database : Bool) (config host : Fields)
    → role_body lib d database config host ≡ ok tt
    → check_inactive host_keys (active_host database) host ≡ ok tt
unfolding database_body gotrue_body
role-passed lib d true config host h =
    let (_, _, h₁) =
      >>=-eq-ok
        (check_inactive config_keys ("Env" ∷ "Healthcheck" ∷ "Image" ∷ "Labels" ∷ "Entrypoint" ∷ [])
          config)
        _ h in
    let (env, _, h₂) = >>=-eq-ok (split_env (get "Env" config) _) _ h₁ in
    let (_, h₃) = fail_if-passed _ body_rejected _ h₂ in
    let (_, _, h₄) = >>=-eq-ok (check_health (get "Healthcheck" config)) _ h₃ in
    let (_, _, h₅) = >>=-eq-ok (check_script (script_of (get "Entrypoint" config))) _ h₄ in
    let (_, e, _) = >>=-eq-ok (check_inactive host_keys db_active_host host) _ h₅ in e
role-passed lib d false config host h =
    let (_, _, h₁) =
      >>=-eq-ok (check_inactive config_keys ("Env" ∷ "Cmd" ∷ "Image" ∷ "Labels" ∷ []) config) _ h in
    let (_, h₂) = fail_if-passed _ body_rejected _ h₁ in
    let (env, _, h₃) = >>=-eq-ok (split_env (get "Env" config) _) _ h₂ in
    let (_, h₄) = fail_if-passed _ body_rejected _ h₃ in
    let (_, _, h₅) = >>=-eq-ok (check_urls lib d env) _ h₄ in h₅

dict-passed : (v : Value) {fs : Fields} → dict_or_fail v ≡ ok fs → v ≡ dict fs
dict-passed (dict fs) h = ground arith
dict-passed _ h = cc

not-false : (b : Bool) → not b ≡ false → b ≡ true
not-false b h = ground arith

restart-passed :
    (v : Value)
    → check_restart v ≡ ok tt
    → (restart : Fields) × (v ≡ dict restart)
      × (is_text_of "unless-stopped" (get "Name" restart) ≡ true)
unfolding check_restart
restart-passed v h =
    let (restart, e, h₁) = >>=-eq-ok (dict_or_fail v) _ h in
    (restart, dict-passed v e, ground (arith, h₁))

host-passed :
    (lib : Library) (d : Descriptor) (database : Bool) (config host : Fields)
    → role_body lib d database config host ≡ ok tt
    → RoleHost d database host
unfolding database_body
host-passed lib d true config host h =
    let (_, _, h₁) =
      >>=-eq-ok
        (check_inactive config_keys ("Env" ∷ "Healthcheck" ∷ "Image" ∷ "Labels" ∷ "Entrypoint" ∷ [])
          config)
        _ h in
    let (env, _, h₂) = >>=-eq-ok (split_env (get "Env" config) _) _ h₁ in
    let (_, h₃) = fail_if-passed _ body_rejected _ h₂ in
    let (_, _, h₄) = >>=-eq-ok (check_health (get "Healthcheck" config)) _ h₃ in
    let (_, _, h₅) = >>=-eq-ok (check_script (script_of (get "Entrypoint" config))) _ h₄ in
    let (_, _, h₆) = >>=-eq-ok (check_inactive host_keys db_active_host host) _ h₅ in
    let (binds, h₇) = fail_if-passed _ body_rejected _ h₆ in
    let (ports, h₈) = fail_if-passed _ body_rejected _ h₇ in
    let (restart, at, named) = restart-passed (get "RestartPolicy" host) h₈ in
    (not-false _ binds, not-false _ ports, restart, at, named)
host-passed lib d false config host h =
    let (_, inert) =
      inactive-passed host_keys gotrue_active_host host (role-passed lib d false config host h) in
    (
      inactive_at gotrue_active_host host "Binds" inert refl,
      inactive_at gotrue_active_host host "PortBindings" inert refl,
      inactive_at gotrue_active_host host "RestartPolicy" inert refl,
    )

pub container-Confined :
    (lib : Library) (d : Descriptor) (body : Fields) (database : Bool)
    → check_container_body lib d body database ≡ ok tt
    → (host : Fields) × (get "HostConfig" body ≡ dict host) × Confined d (active_host database) host
unfolding check_container_body
container-Confined lib d body database h =
    let (_, h₁) = fail_if-passed _ body_rejected _ h in
    let (_, h₂) = fail_if-passed _ body_rejected _ h₁ in
    let (host, e, h₃) = >>=-eq-ok (dict_or_fail (get "HostConfig" body)) _ h₂ in
    let (_, h₄) = fail_if-passed _ body_rejected _ h₃ in
    let (_, h₅) = fail_if-passed _ identity_rejected _ h₄ in
    let (_, _, h₆) = >>=-eq-ok (check_labels d _) _ h₅ in
    let (n, h₇) = fail_if-passed _ identity_rejected _ h₆ in
    let (_, h₈) = fail_if-passed _ body_rejected _ h₇ in
    let (_, r, _) = >>=-eq-ok (role_body lib d database _ host) _ h₈ in
    (
      host,
      dict-passed _ e,
      inert-Confined d (active_host database) host (not-false _ n)
          (role-passed lib d database _ host r),
    )

-- The same body opens only what its role needs.
pub container-OpensOnly :
    (lib : Library) (d : Descriptor) (body : Fields) (database : Bool) {host : Fields}
    → check_container_body lib d body database ≡ ok tt
    → get "HostConfig" body ≡ dict host
    → OpensOnly d database host
unfolding check_container_body
container-OpensOnly lib d body database {host} h at =
    let (_, h₁) = fail_if-passed _ body_rejected _ h in
    let (_, h₂) = fail_if-passed _ body_rejected _ h₁ in
    let (named, e, h₃) = >>=-eq-ok (dict_or_fail (get "HostConfig" body)) _ h₂ in
    let (_, h₄) = fail_if-passed _ body_rejected _ h₃ in
    let (_, h₅) = fail_if-passed _ identity_rejected _ h₄ in
    let (_, _, h₆) = >>=-eq-ok (check_labels d _) _ h₅ in
    let (_, h₇) = fail_if-passed _ identity_rejected _ h₆ in
    let (x, h₈) = fail_if-passed _ body_rejected _ h₇ in
    let (_, r, _) = >>=-eq-ok (role_body lib d database _ named) _ h₈ in
    let same : named ≡ host = ap fields_of (sym (dict-passed _ e) ∙ at) in
    subst (λ fs. OpensOnly d database fs) same
      (record { extra_host = not-false _ x; role = host-passed lib d database _ named r })
