-- ===== src/DirectPort/Inspection.antt =====
-- `validate_inspection`, `legacy_tmpfs_matches` and `_contains_docker_socket`.
pub mod Verdict
use hosted_replay_harness.DirectPort.Publication.{
  is_nil, PublicationClass, classify_publication, schema_rejected,
}
use hosted_replay_harness.ContainerWatch.Contracts.{strip_slashes}
use hosted_replay_harness.Prelude.{
  Bool, Bytes, List, String, [], all, any, codes, equal, false, has_infix, if◌then◌else◌, none, not,
  one_of, some, str_eq, true, ℕ, ◌&&◌, ◌++◌, ◌==◌, ◌||◌, ◌∷◌,
}
use hosted_replay_harness.Value.{
  Fields, Items, Value, as_text, boolean, cons, dict, end, eq, field, get, get?, is_text_of, list,
  nil, null, num, text,
}
use hosted_replay_harness.DockerApi.Json.{has_exactly}
use hosted_replay_harness.SortedSet.{sorted_set}
use hosted_replay_harness.TextOrder.{place}

-- The codes, in the order of their texts, which `sorted` gives.
pub data Finding : Type 0 where
  added_capability bind_mount container_identity container_not_healthy : Finding
  container_not_running container_oom_killed container_restarting device_access : Finding
  docker_socket extra_host health_schema image_identity inspection_schema : Finding
  ipc_mode label_contract mount_contract network_attachment network_mode : Finding
  pid_mode port_binding port_request privileged_mode publication_schema : Finding
  publish_all_ports restart_count restart_policy security_option tmpfs_contract : Finding

-- the place of a code among the sorted texts
unfoldable pub order : Finding → ℕ
order added_capability = 0
order bind_mount = 1
order container_identity = 2
order container_not_healthy = 3
order container_not_running = 4
order container_oom_killed = 5
order container_restarting = 6
order device_access = 7
order docker_socket = 8
order extra_host = 9
order health_schema = 10
order image_identity = 11
order inspection_schema = 12
order ipc_mode = 13
order label_contract = 14
order mount_contract = 15
order network_attachment = 16
order network_mode = 17
order pid_mode = 18
order port_binding = 19
order port_request = 20
order privileged_mode = 21
order publication_schema = 22
order publish_all_ports = 23
order restart_count = 24
order restart_policy = 25
order security_option = 26
order tmpfs_contract = 27

abbrev pub is_blank : Value → Bool
is_blank null = true
is_blank (list nil) = true
is_blank (dict end) = true
is_blank _ = false

-- `s.split(",")`, which ends by the length of the text
split_commas : Bytes → List Bytes
split_commas [] = [] ∷ []
split_commas (c ∷ s) = onto (c == b',') c (split_commas s)
  where
    onto : Bool → ℕ → List Bytes → List Bytes
    onto true c parts = [] ∷ parts
    onto false c [] = (c ∷ []) ∷ []
    onto false c (p ∷ parts) = (c ∷ p) ∷ parts

abbrev has_repeats : List Bytes → Bool
has_repeats [] = false
has_repeats (s ∷ ss) = one_of s ss || has_repeats ss

-- `set(options) == {…}`
abbrev are_exactly : List Bytes → List Bytes → Bool
are_exactly expected ss = all (λ s. one_of s expected) ss && all (λ s. one_of s ss) expected

abbrev db_destination : String
db_destination = "/var/lib/postgresql/data"

abbrev tmpfs_options : List Bytes
tmpfs_options = codes "rw" ∷ codes "nosuid" ∷ codes "nodev" ∷ codes "noexec" ∷ codes "size=1g" ∷ []

are_tmpfs_options : String → Bool
unfolding split_commas
are_tmpfs_options raw =
    let options = split_commas (codes raw) in
    not (any is_nil options) && (not (has_repeats options) && are_exactly tmpfs_options options)

pub legacy_tmpfs_matches : Value → Bool
unfolding are_tmpfs_options
legacy_tmpfs_matches (dict fs) =
    has_exactly (db_destination ∷ []) fs
    && elim (as_text (get db_destination fs)) [ none ↦ false | some raw ↦ are_tmpfs_options raw ]
legacy_tmpfs_matches _ = false

unfoldable mutual
  pub contains_docker_socket : Value → Bool
  contains_docker_socket (text s) = has_infix (codes "docker.sock") (codes s)
  contains_docker_socket (list xs) = some_socket xs
  contains_docker_socket (dict fs) = some_socket_field fs
  contains_docker_socket v = false

  pub some_socket : Items → Bool
  some_socket nil = false
  some_socket (cons v xs) = contains_docker_socket v || some_socket xs

  pub some_socket_field : Fields → Bool
  some_socket_field end = false
  some_socket_field (field k v fs) =
      (has_infix (codes "docker.sock") (codes k) || contains_docker_socket v)
      || some_socket_field fs

-- `value in (None, "", a)`
abbrev quiet : String → Value → Bool
quiet a null = true
quiet a (text s) = str_eq s "" || str_eq s a
quiet a _ = false

abbrev is_true : Value → Bool
is_true (boolean b) = b
is_true _ = false

abbrev pub is_false : Value → Bool
is_false (boolean b) = not b
is_false _ = false

-- What the container is to be.
pub record Subject : Type 0 where
  pub network_id : String
  pub image_id : String
  pub image_reference : String
  pub container_name : String
  pub labels : List (String × String)

abbrev has_labels : List (String × String) → Value → Bool
has_labels expected (dict fs) = all (λ (k, v). is_text_of v (get k fs)) expected
has_labels expected _ = false

abbrev is_on_network : String → Value → Bool
is_on_network network_id (dict fs) = is_text_of network_id (get "NetworkID" fs)
is_on_network network_id _ = false

-- one network, whatever its name, with the identifier
abbrev pub only_network : String → Value → Bool
only_network network_id (dict (field k v end)) = is_on_network network_id v
only_network network_id _ = false

abbrev published_on : String → Value
published_on ip = dict (
    field "5432/tcp"
      (list (cons (dict (field "HostIp" (text ip) (field "HostPort" (text "56422") end))) nil)) end)

abbrev is_rejected : PublicationClass → Bool
is_rejected schema_rejected = true
is_rejected _ = false

-- the argument that `validate_inspection` classifies
abbrev publication_fields : Fields → Fields
publication_fields fs = field "schema_version" (num 1) (
    field "config" (dict (field "exposed_ports" (get "config_exposed_ports" fs) end)) (
      field "host_config"
        (dict (
          field "port_bindings" (get "port_bindings" fs)
            (field "publish_all_ports" (get "publish_all_ports" fs) end)))
        (field "network_settings" (dict (field "ports" (get "published_ports" fs) end)) end)))

abbrev has_restart_policy : Value → Bool
has_restart_policy (dict fs) = quiet "no" (get "Name" fs)
has_restart_policy _ = false

-- `if not test: violations.append(code)`
abbrev pub unless : Bool → Finding → List Finding
unless true c = []
unless false c = c ∷ []

-- the four tests of the state and the health
health_findings : Value → Value → List Finding
unfolding eq
health_findings (dict state) (dict health) =
    unless (is_true (get "Running" state) && is_text_of "running" (get "Status" state))
      container_not_running
    ++ (unless (is_false (get "Restarting" state)) container_restarting
        ++ (unless (is_false (get "OOMKilled" state)) container_oom_killed
            ++ unless
                (is_text_of "healthy" (get "Status" health)
                  && eq (get "FailingStreak" health) (num 0))
                container_not_healthy))
health_findings _ _ = health_schema ∷ []

-- nothing that can be mounted holds the socket
abbrev no_socket : Fields → Bool
no_socket fs = not (
    any (λ k. contains_docker_socket (get k fs))
      ("binds" ∷ "host_mounts" ∷ "volumes_from" ∷ "mounts" ∷ []))

abbrev gathered : List (List Finding) → List Finding
gathered [] = []
gathered (cs ∷ rest) = cs ++ gathered rest

module _ (str_of : Value → Bytes) where
  -- `str(data.get("name", "")).lstrip("/")`
  abbrev name_of : Fields → Bytes
  name_of fs = strip_slashes (elim (get? "name" fs) [ none ↦ [] | some v ↦ str_of v ])

  findings : Subject → Fields → List Finding
  unfolding eq legacy_tmpfs_matches classify_publication health_findings contains_docker_socket
  findings subject fs = gathered (
      unless (equal (name_of fs) (codes subject.container_name)) container_identity
      ∷ unless
          (is_text_of subject.image_id (get "image_id" fs)
            && is_text_of subject.image_reference (get "config_image" fs))
          image_identity
      ∷ unless (has_labels subject.labels (get "labels" fs)) label_contract
      ∷ unless (only_network subject.network_id (get "networks" fs)) network_attachment
      ∷ unless (is_text_of subject.network_id (get "network_mode" fs)) network_mode
      ∷ unless (is_false (get "privileged" fs)) privileged_mode
      ∷ unless (quiet "private" (get "pid_mode" fs)) pid_mode
      ∷ unless (quiet "private" (get "ipc_mode" fs)) ipc_mode
      ∷ unless (is_blank (get "devices" fs) && is_blank (get "device_requests" fs)) device_access
      ∷ unless (is_blank (get "cap_add" fs)) added_capability
      ∷ unless (is_blank (get "security_opt" fs)) security_option
      ∷ unless (is_blank (get "extra_hosts" fs)) extra_host
      ∷ unless (is_blank (get "binds" fs)) bind_mount
      ∷ unless
          (is_blank (get "host_mounts" fs)
            && (is_blank (get "volumes_from" fs) && is_blank (get "mounts" fs)))
          mount_contract
      ∷ unless (no_socket fs) docker_socket
      ∷ unless (legacy_tmpfs_matches (get "tmpfs" fs)) tmpfs_contract
      ∷ unless (not (is_rejected (classify_publication (publication_fields fs)).class))
          publication_schema
      ∷ unless (is_false (get "publish_all_ports" fs)) publish_all_ports
      ∷ unless (eq (get "port_bindings" fs) (published_on "")) port_request
      ∷ unless (eq (get "published_ports" fs) (published_on "127.0.0.1")) port_binding
      ∷ unless (has_restart_policy (get "restart_policy" fs)) restart_policy
      ∷ health_findings (get "state" fs) (get "health" fs)
      ∷ unless (eq (get "restart_count" fs) (num 0)) restart_count
      ∷ [])

  pub validate_inspection : Subject → Fields → List Finding
  unfolding findings sorted_set order
  validate_inspection subject fs =
      if eq (get "schema_version" fs) (num 1)
      then sorted_set order (findings subject fs)
      else inspection_schema ∷ []

-- opens the definitions to tests
unfoldable pub run_inspection : Unit {0}
unfolding validate_inspection findings place
run_inspection = tt
