-- ===== src/DirectPort/Groups.antt =====
-- `validate_group_payload` and `compose_group_payloads`: an inspection in five parts.
pub mod Composing
use hosted_replay_harness.Options.{◌>>=◌, only_if}
use hosted_replay_harness.Prelude.{
  Bool, List, Option, String, [], all, any, codes, false, if◌then◌else◌, is_hex_word, length, none,
  not, some, true, ℕ, ◌&&◌, ◌==◌, ◌∷◌,
}
use hosted_replay_harness.Value.{
  Fields, Value, append, as_dict, boolean, dict, end, field, get, has, int, is_dict, is_text,
  is_text_of, keys, list, null, num, pos, without,
}
use hosted_replay_harness.DockerApi.Json.{has_exactly}

pub data Group : Type 0 where
  identity_config hostconfig_security publication_group network_runtime state_health : Group

-- the order of INSPECT_FIELD_GROUPS
abbrev pub groups : List Group
groups =
    identity_config ∷ hostconfig_security ∷ publication_group ∷ network_runtime ∷ state_health ∷ []

abbrev pub group_index : Group → ℕ
group_index identity_config = 0
group_index hostconfig_security = 1
group_index publication_group = 2
group_index network_runtime = 3
group_index state_health = 4

abbrev is_boolean : Value → Bool
is_boolean (boolean b) = true
is_boolean _ = false

-- an `int` that is no `bool`
abbrev is_int : Value → Bool
is_int (int z) = true
is_int _ = false

abbrev is_optional_list : Value → Bool
is_optional_list null = true
is_optional_list (list xs) = true
is_optional_list _ = false

abbrev is_optional_dict : Value → Bool
is_optional_dict null = true
is_optional_dict (dict fs) = true
is_optional_dict _ = false

abbrev is_version : Value → Bool
is_version (int (pos n)) = n == 1
is_version _ = false

-- `_closed_object` on a value, and what holds of its fields
abbrev closed_and : List String → (Fields → Bool) → Value → Bool
closed_and ks test (dict fs) = has_exactly ks fs && test fs
closed_and ks test _ = false

abbrev pub group_keys : Group → List String
group_keys identity_config =
    "schema_version" ∷ "id" ∷ "name" ∷ "image_id" ∷ "config_image" ∷ "labels" ∷ []
group_keys hostconfig_security =
    "schema_version" ∷ "network_mode" ∷ "privileged" ∷ "pid_mode" ∷ "ipc_mode" ∷ "binds"
    ∷ "host_mounts" ∷ "volumes_from" ∷ "tmpfs" ∷ "devices" ∷ "device_requests" ∷ "cap_add"
    ∷ "security_opt" ∷ "extra_hosts" ∷ "restart_policy" ∷ []
group_keys publication_group = "schema_version" ∷ "config" ∷ "host_config" ∷ "network_settings" ∷ []
group_keys network_runtime = "schema_version" ∷ "mounts" ∷ "networks" ∷ []
group_keys state_health = "schema_version" ∷ "restart_count" ∷ "state" ∷ "health" ∷ []

group_types : Group → Fields → Bool
group_types identity_config fs =
    all (λ k. is_text (get k fs)) ("id" ∷ "name" ∷ "image_id" ∷ "config_image" ∷ [])
    && is_dict (get "labels" fs)
group_types hostconfig_security fs =
    is_text (get "network_mode" fs)
    && (is_boolean (get "privileged" fs)
        && (all (λ k. is_text (get k fs)) ("pid_mode" ∷ "ipc_mode" ∷ [])
            && (all (λ k. is_optional_list (get k fs))
                  ("binds" ∷ "host_mounts" ∷ "volumes_from" ∷ "devices" ∷ "device_requests"
                    ∷ "cap_add" ∷ "security_opt" ∷ "extra_hosts" ∷ [])
                && (is_optional_dict (get "tmpfs" fs) && is_dict (get "restart_policy" fs)))))
group_types publication_group fs =
    closed_and ("exposed_ports" ∷ []) (λ c. is_optional_dict (get "exposed_ports" c))
      (get "config" fs)
    && (closed_and ("port_bindings" ∷ "publish_all_ports" ∷ [])
          (λ h. is_optional_dict (get "port_bindings" h) && is_boolean (get "publish_all_ports" h))
          (get "host_config" fs)
        && closed_and ("ports" ∷ []) (λ n. is_optional_dict (get "ports" n))
            (get "network_settings" fs))
group_types network_runtime fs = is_optional_list (get "mounts" fs) && is_dict (get "networks" fs)
group_types state_health fs =
    is_int (get "restart_count" fs)
    && (closed_and ("Status" ∷ "Running" ∷ "Restarting" ∷ "OOMKilled" ∷ [])
          (λ s.
            is_text (get "Status" s)
            && all (λ k. is_boolean (get k s)) ("Running" ∷ "Restarting" ∷ "OOMKilled" ∷ []))
          (get "state" fs)
        && closed_and ("Status" ∷ "FailingStreak" ∷ [])
            (λ h. is_text (get "Status" h) && is_int (get "FailingStreak" h)) (get "health" fs))

-- `true` where the code returns, `false` where it raises `ValueError`.
unfoldable pub validate_group : Group → Fields → Bool
unfolding group_types
validate_group group fs =
    is_version (get "schema_version" fs)
    && (has_exactly (group_keys group) fs && group_types group fs)

-- A dict from groups to payloads.
abbrev pub Payloads : Type 0
Payloads = List (Group × Fields)

abbrev same_group : Group → Group → Bool
same_group a b = group_index a == group_index b

abbrev pub payload_at : Group → Payloads → Option Fields
payload_at g [] = none
payload_at g ((h, fs) ∷ rest) = if same_group h g then some fs else payload_at g rest

-- A `CompositionContractError` carries a group, or "NONE".
pub data Composed : Type 0 where
  composed : Fields → Composed
  contract_error : Option Group → Composed
  value_error : Composed

abbrev overlap : Fields → Fields → Bool
overlap target source = any (λ k. has k target) (keys source)

-- `_merge_unique`, and the rest of the composition
merge_unique : Fields → Fields → Group → (Fields → Composed) → Composed
merge_unique target source group rest =
    if overlap target source then contract_error (some group) else rest (append target source)

abbrev dict_at : String → Fields → Fields
dict_at k fs = elim (as_dict (get k fs)) [ none ↦ end | some gs ↦ gs ]

abbrev publication_part : Fields → Fields
publication_part fs = field "config_exposed_ports" (get "exposed_ports" (dict_at "config" fs)) (
    field "port_bindings" (get "port_bindings" (dict_at "host_config" fs)) (
      field "publish_all_ports" (get "publish_all_ports" (dict_at "host_config" fs))
        (field "published_ports" (get "ports" (dict_at "network_settings" fs)) end)))

abbrev pub flat_keys : List String
flat_keys =
    "schema_version" ∷ "id" ∷ "name" ∷ "image_id" ∷ "config_image" ∷ "labels" ∷ "network_mode"
    ∷ "privileged" ∷ "pid_mode" ∷ "ipc_mode" ∷ "binds" ∷ "host_mounts" ∷ "volumes_from" ∷ "tmpfs"
    ∷ "devices" ∷ "device_requests" ∷ "cap_add" ∷ "security_opt" ∷ "extra_hosts"
    ∷ "config_exposed_ports" ∷ "port_bindings" ∷ "publish_all_ports" ∷ "restart_policy" ∷ "mounts"
    ∷ "networks" ∷ "published_ports" ∷ "restart_count" ∷ "state" ∷ "health" ∷ []

-- the five parts
pub record Parts : Type 0 where
  pub identity : Fields
  pub host : Fields
  pub publication : Fields
  pub runtime : Fields
  pub health : Fields

abbrev pub part_of : Parts → Group → Fields
part_of p identity_config = p.identity
part_of p hostconfig_security = p.host
part_of p publication_group = p.publication
part_of p network_runtime = p.runtime
part_of p state_health = p.health

abbrev bare : Fields → Fields
bare fs = without "schema_version" fs

closing : Fields → Composed
closing fs = if has_exactly flat_keys fs then composed fs else contract_error none

merge_health : Parts → Fields → Composed
unfolding merge_unique closing
merge_health p target = merge_unique target (bare p.health) state_health closing

merge_runtime : Parts → Fields → Composed
unfolding merge_health
merge_runtime p target = merge_unique target (bare p.runtime) network_runtime (merge_health p)

merge_publication : Parts → Fields → Composed
unfolding merge_runtime
merge_publication p target =
    merge_unique target (publication_part p.publication) publication_group (merge_runtime p)

merge_host : Parts → Fields → Composed
unfolding merge_publication
merge_host p target = merge_unique target (bare p.host) hostconfig_security (merge_publication p)

merge_parts : Parts → Composed
unfolding merge_host
merge_parts p =
    merge_unique (field "schema_version" (num 1) end) (bare p.identity) identity_config
      (merge_host p)

-- The dict of payloads has the five groups and no other.
pub parts_in : Payloads → Option Parts
parts_in payloads = do
  identity ← payload_at identity_config payloads
  host ← payload_at hostconfig_security payloads
  publication ← payload_at publication_group payloads
  runtime ← payload_at network_runtime payloads
  health ← payload_at state_health payloads
  only_if (length payloads == 5) (
      some (record {
        identity = identity;
        host = host;
        publication = publication;
        runtime = runtime;
        health = health;
      }))

abbrev pub is_exact_id : String → Bool
is_exact_id id = is_hex_word 64 (codes id)

compose_parts : String → Parts → Composed
unfolding validate_group merge_parts
compose_parts container_id p =
    if not (all (λ g. validate_group g (part_of p g)) groups)
    then value_error
    else if not (is_text_of container_id (get "id" p.identity))
    then contract_error (some identity_config)
    else merge_parts p

unfoldable pub compose_payloads : String → Payloads → Composed
unfolding parts_in compose_parts
compose_payloads container_id payloads =
    if not (is_exact_id container_id)
    then contract_error (some identity_config)
    else elim (parts_in payloads) [
      | none ↦ contract_error none
      | some p ↦ compose_parts container_id p
    ]

-- opens the definitions to tests
unfoldable pub run_groups : Unit {0}
unfolding validate_group parts_in compose_payloads
run_groups = tt
