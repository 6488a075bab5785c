-- ===== src/ContainerWatch/Contracts.antt =====
-- `classify_and_validate` and `validate_network_contract` on the inspected JSON, with their helpers.
-- `none` is an exception that would stop the observer (an attribute of a value that is no dict, a
-- loop over a number). `str_of` stands for `str(value)`.
pub mod Verdicts
pub mod Sockets
pub mod Roles
pub mod Confined
use mathlib.Core.List.{map}
use hosted_replay_harness.ContainerWatch.Violations.{
  order, Violation, added_capability_rejected, database_bind_mismatch, database_mount_mismatch,
  database_port_binding_mismatch, database_port_request_mismatch, database_restart_policy_mismatch,
  device_access_rejected, docker_socket_rejected, extra_host_contract_mismatch,
  gotrue_mount_rejected, gotrue_port_rejected, gotrue_restart_policy_mismatch, ipc_mode_rejected,
  network_attachment_mismatch, network_driver_mismatch, network_gateway_mode_mismatch,
  network_host_binding_mismatch, network_ipv6_enabled, network_label_mismatch,
  network_name_id_mapping_failed, network_not_internal, network_scope_mismatch,
  network_subnet_mismatch, packet_label_mismatch, pid_mode_rejected, privileged_mode_rejected,
  second_packet_network_detected, security_option_rejected, unexpected_packet_container, when,
}
use hosted_replay_harness.Options.{◌>>=◌}
use hosted_replay_harness.Prelude.{
  Bool, Bytes, List, Option, String, [], all, any, codes, equal, false, has_infix, if◌then◌else◌,
  none, not, some, str_eq, true, ◌&&◌, ◌++◌, ◌==◌, ◌||◌, ◌∷◌, refl, ◌≡◌,
}
use hosted_replay_harness.Value.{
  Fields, Value, as_dict, boolean, cons, dict, end, eq, field, get, get?, is_text_of, is_truthy,
  items, list, nil, null, text,
}
use hosted_replay_harness.SortedSet.{sorted_set}

abbrev pub project : String
project = "fp-hosted-replay-ro-001"

abbrev pub project_labels : List (String × String)
project_labels =
    ("com.supabase.cli.project", project) ∷ ("com.docker.compose.project", project) ∷ []

abbrev pub db_name : String
db_name = "supabase_db_fp-hosted-replay-ro-001"

abbrev pub db_port : String
db_port = "56422"

abbrev pub db_destination : String
db_destination = "/var/lib/postgresql/data"

-- `_empty`: `value in (None, [], {})`
abbrev pub is_blank : Value → Bool
is_blank null = true
is_blank (list nil) = true
is_blank (dict end) = true
is_blank _ = false

-- `value.get(key)`
abbrev pub get_in : String → Value → Option Value
get_in k (dict fs) = some (get k fs)
get_in k _ = none

-- `value or {}` and `value or []`
abbrev pub or_dict : Value → Value
or_dict v = if is_truthy v then v else dict end

abbrev pub or_list : Value → Value
or_list v = if is_truthy v then v else list nil

abbrev key_values : Fields → List Value
key_values end = []
key_values (field k _ fs) = text k ∷ key_values fs

abbrev values : Fields → List Value
values end = []
values (field _ v fs) = v ∷ values fs

abbrev characters : String → List Value
characters String.[] = []
characters (String.◌∷◌ c s) = text (String.◌∷◌ c String.[]) ∷ characters s

-- The values of a loop over a list. A loop over a text or a dict runs over its characters or keys.
abbrev pub loop_items : Value → Option (List Value)
loop_items (list xs) = some (items xs)
loop_items (dict fs) = some (key_values fs)
loop_items (text s) = some (characters s)
loop_items _ = none

-- `_only_network`
only_in : Value → String → Option Bool
only_in (dict (field _ v end)) network_id = do
  id ← get_in "NetworkID" v
  some (is_text_of network_id id)
only_in _ network_id = some false

pub only_network : Fields → String → Option Bool
unfolding only_in
only_network inspected network_id = only_in (or_dict (get "networks" inspected)) network_id

-- `_actual_db_binding`
abbrev binding : String → Value
binding ip = list (cons (dict (field "HostIp" (text ip) (field "HostPort" (text db_port) end))) nil)

bindings_in : Value → Value
bindings_in (dict fs) = get "5432/tcp" fs
bindings_in _ = null

pub actual_db_binding : Fields → Bool
unfolding eq bindings_in
actual_db_binding inspected =
    eq (bindings_in (or_dict (get "published_ports" inspected))) (binding "127.0.0.1")

-- `_has_published_binding`
any_truthy : Value → Bool
any_truthy (dict fs) = any is_truthy (values fs)
any_truthy _ = false

pub has_published_binding : Fields → Bool
unfolding any_truthy
has_published_binding inspected = any_truthy (or_dict (get "published_ports" inspected))

pub data Role : Type 0 where
  database_role gotrue_migration_role unexpected_role : Role

-- What the observer is told to expect.
pub record Expected : Type 0 where
  pub network_name : String
  pub network_id : String
  pub postgres_image_id : String
  pub gotrue_image_id : String

pub data EventPhase : Type 0 where
  on_create on_start : EventPhase

abbrev is_start : EventPhase → Bool
is_start on_start = true
is_start on_create = false

abbrev pub strip_slashes : Bytes → Bytes
strip_slashes [] = []
strip_slashes (c ∷ s) = let rest = strip_slashes s in if c == b'/' then rest else c ∷ s

abbrev quiet_modes : Value → Bool
quiet_modes null = true
quiet_modes (text s) = str_eq s "" || str_eq s "private"
quiet_modes _ = false

abbrev is_true : Value → Bool
is_true (boolean b) = b
is_true _ = false

-- `value is False`
abbrev is_false : Value → Bool
is_false (boolean b) = not b
is_false _ = false

abbrev label_violations : List (String × String) → Value → Option (List Violation)
label_violations [] labels = some []
label_violations ((k, v) ∷ rest) labels = do
  label ← get_in k labels
  later ← label_violations rest labels
  some (when (not (is_text_of v label)) packet_label_mismatch ++ later)

-- the test of NETWORK_ATTACHMENT_MISMATCH, whose second half runs only behind the first
pub attachment : Fields → Expected → Option Bool
attachment inspected expected =
    if is_text_of expected.network_name (get "network_mode" inspected)
    then only_network inspected expected.network_id
    else some false

-- the one mount of the database; `mounts[0]` of a dict with one key is a KeyError
abbrev is_db_mount : Value → Bool
is_db_mount (dict m) =
    ((is_text_of "volume" (get "Type" m) && is_text_of db_name (get "Name" m))
      && is_text_of db_destination (get "Destination" m))
    && is_true (get "RW" m)
is_db_mount _ = false

abbrev is_db_mounts : Value → Option Bool
is_db_mounts (list (cons m nil)) = some (is_db_mount m)
is_db_mounts (list _) = some false
is_db_mounts (dict (field _ _ end)) = none
is_db_mounts (dict _) = some false
is_db_mounts (text _) = some false
is_db_mounts _ = none

module _ (str_of : Value → Bytes) where
  -- `str(mount.get(key, ""))`
  abbrev str_or : String → Fields → Bytes
  str_or k m = elim (get? k m) [ none ↦ [] | some v ↦ str_of v ]

  -- `_has_socket_mount`
  mount_texts : List Value → List Bytes
  mount_texts [] = []
  mount_texts (dict m ∷ rest) = str_or "Source" m ∷ (str_or "Destination" m ∷ mount_texts rest)
  mount_texts (_ ∷ rest) = mount_texts rest

  pub has_socket_mount : Fields → Option Bool
  unfolding mount_texts
  has_socket_mount inspected = do
    binds ← loop_items (or_list (get "binds" inspected))
    mounts ← loop_items (or_list (get "mounts" inspected))
    some (any (has_infix (codes "docker.sock")) (map str_of binds ++ mount_texts mounts))

  database_violations : Fields → EventPhase → Option (List Violation)
  unfolding eq actual_db_binding
  database_violations inspected phase = do
    mounted ← is_db_mounts (or_list (get "mounts" inspected))
    requested ← get_in "5432/tcp" (or_dict (get "port_bindings" inspected))
    restart ← get_in "Name" (or_dict (get "restart_policy" inspected))
    some (
        when
          (not (
            eq (or_list (get "binds" inspected)) (
              list
                (cons (text "supabase_db_fp-hosted-replay-ro-001:/var/lib/postgresql/data") nil))))
          database_bind_mismatch
        ++ (when (not mounted) database_mount_mismatch
            ++ (when (not (eq requested (binding "") || eq requested (binding "127.0.0.1")))
                  database_port_request_mismatch
                ++ (when (is_start phase && not (actual_db_binding inspected))
                      database_port_binding_mismatch
                    ++ when (not (is_text_of "unless-stopped" restart))
                        database_restart_policy_mismatch))))

  -- `value in (None, "", "no")`
  abbrev is_no_restart : Value → Bool
  is_no_restart null = true
  is_no_restart (text s) = str_eq s "" || str_eq s "no"
  is_no_restart _ = false

  gotrue_violations : Fields → EventPhase → Option (List Violation)
  unfolding has_published_binding
  gotrue_violations inspected phase = do
    restart ← get_in "Name" (or_dict (get "restart_policy" inspected))
    some (
        when (not (is_blank (get "binds" inspected)) || not (is_blank (get "mounts" inspected)))
          gotrue_mount_rejected
        ++ (when
              (not (is_blank (get "port_bindings" inspected))
                || (is_start phase && has_published_binding inspected))
              gotrue_port_rejected
            ++ when (not (is_no_restart restart)) gotrue_restart_policy_mismatch))

  pub role_violations : Role → Fields → EventPhase → Option (List Violation)
  unfolding database_violations gotrue_violations
  role_violations database_role inspected phase = database_violations inspected phase
  role_violations gotrue_migration_role inspected phase = gotrue_violations inspected phase
  role_violations unexpected_role inspected phase = some []

  abbrev name_of : Fields → Bytes
  name_of inspected = strip_slashes (str_or "name" inspected)

  pub role_of : Fields → Expected → Role
  unfolding eq
  role_of inspected expected =
      if equal (name_of inspected) (codes db_name)
        && is_text_of expected.postgres_image_id (get "image_id" inspected)
      then database_role
      else if is_text_of expected.gotrue_image_id (get "image_id" inspected)
          && eq (or_list (get "cmd" inspected))
              (list (cons (text "gotrue") (cons (text "migrate") nil)))
      then gotrue_migration_role
      else unexpected_role

  abbrev is_unexpected : Role → Bool
  is_unexpected unexpected_role = true
  is_unexpected _ = false

  -- the checks that every role shares, in the order of the code
  common_violations : Role → Fields → Expected → Option (List Violation)
  unfolding only_network has_socket_mount eq
  common_violations role inspected expected = do
    labels ← label_violations project_labels (or_dict (get "labels" inspected))
    attached ← attachment inspected expected
    socket ← has_socket_mount inspected
    some (
        when (is_unexpected role) unexpected_packet_container
        ++ (labels
            ++ (when (not attached) network_attachment_mismatch
                ++ (when (not (is_false (get "privileged" inspected))) privileged_mode_rejected
                    ++ (when (not (quiet_modes (get "pid_mode" inspected))) pid_mode_rejected
                        ++ (when (not (quiet_modes (get "ipc_mode" inspected))) ipc_mode_rejected
                            ++ (when
                                  (not (is_blank (get "devices" inspected))
                                    || not (is_blank (get "device_requests" inspected)))
                                  device_access_rejected
                                ++ (when (not (is_blank (get "cap_add" inspected)))
                                      added_capability_rejected
                                    ++ (when (not (is_blank (get "security_opt" inspected)))
                                          security_option_rejected
                                        ++ (when socket docker_socket_rejected
                                            ++ when
                                                (not (
                                                  eq (or_list (get "extra_hosts" inspected)) (
                                                    list (
                                                      cons
                                                        (text "host.docker.internal:host-gateway")
                                                        nil))))
                                                extra_host_contract_mismatch))))))))))

  pub classify_and_validate : Fields → EventPhase → Expected → Option (Role × List Violation)
  classify_and_validate inspected phase expected = do
    let role = role_of inspected expected
    common ← common_violations role inspected expected
    special ← role_violations role inspected phase
    some (role, sorted_set order (common ++ special))

-- Opens all that the two contracts compute with.
unfoldable pub run_classify : Unit {0}
unfolding classify_and_validate common_violations role_of role_violations only_network only_in
    attachment has_socket_mount sorted_set
run_classify = tt

-- What `validate_network_contract` is told.
pub record Network : Type 0 where
  pub name : String
  pub id : String
  pub subnet : String
  pub packet : String

-- `sorted(set(ids)) == [id]`: there is one, and all are equal to it.
abbrev pub names_only : String → List String → Bool
names_only id [] = false
names_only id (x ∷ xs) = str_eq x id && all (λ y. str_eq y id) xs

-- `options = data.get(…) or {}` and `{}` for what is no dict
abbrev dict_or_none : Value → Fields
dict_or_none v = elim (as_dict (or_dict v)) [ none ↦ end | some fs ↦ fs ]

abbrev has_label : Fields → String × String → Bool
has_label labels (k, v) = is_text_of v (get k labels)

abbrev pub network_labels : Network → List (String × String)
network_labels n =
    ("io.fawxzzy.packet", n.packet)
    ∷ ("io.fawxzzy.role", "containment-network")
    ∷ ("com.supabase.cli.project", project)
    ∷ ("com.docker.compose.project", project)
    ∷ []

pub network_violations : Fields → List String → List String → Network → List Violation
network_violations inspected resolved correlated n =
    let options = dict_or_none (get "options" inspected) in
    let labels = dict_or_none (get "labels" inspected) in
    when (not (names_only n.id resolved)) network_name_id_mapping_failed
    ++ (when (not (names_only n.id correlated)) second_packet_network_detected
        ++ (when
              (not (is_text_of n.id (get "id" inspected))
                || not (is_text_of n.name (get "name" inspected)))
              network_name_id_mapping_failed
            ++ (when (not (is_text_of "bridge" (get "driver" inspected))) network_driver_mismatch
                ++ (when (not (is_text_of "local" (get "scope" inspected))) network_scope_mismatch
                    ++ (when (not (is_true (get "internal" inspected))) network_not_internal
                        ++ (when (not (is_false (get "enable_ipv6" inspected))) network_ipv6_enabled
                            ++ (when (not (is_text_of n.subnet (get "subnet" inspected)))
                                  network_subnet_mismatch
                                ++ (when
                                      (not (
                                        is_text_of "127.0.0.1" (
                                          get "com.docker.network.bridge.host_binding_ipv4"
                                            options)))
                                      network_host_binding_mismatch
                                    ++ (when
                                          (not (
                                            is_text_of "isolated" (
                                              get "com.docker.network.bridge.gateway_mode_ipv4"
                                                options)))
                                          network_gateway_mode_mismatch
                                        ++ when
                                            (any (λ kv. not (has_label labels kv))
                                              (network_labels n))
                                            network_label_mismatch)))))))))

pub validate_network_contract : Fields → List String → List String → Network → List Violation
validate_network_contract inspected resolved correlated n =
    sorted_set order (network_violations inspected resolved correlated n)

-- Opens all that `validate_network_contract` computes with.
unfoldable pub run_network : Unit {0}
unfolding validate_network_contract network_violations sorted_set
run_network = tt
