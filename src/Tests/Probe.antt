-- ===== src/Tests/Probe.antt =====
-- Runs of the theorems on the direct port probe: a sound container, and groups that compose.
use hosted_replay_harness.DirectPort.Safe.{
  Library, Completed, Loaded, Template, decode_error, loaded, whole, diagnosed, diagnostic_envelope,
  safe_inspect,
}
use hosted_replay_harness.DirectPort.Inspection.{Subject, run_inspection, validate_inspection}
use hosted_replay_harness.DirectPort.Publication.{
  Bindings, Summary, absent_class, classify_publication, run_publication, shape_safe,
}
use hosted_replay_harness.Prelude.{
  Bytes, List, Option, String, [], all, codes, false, none, refl, some, true, ◌++◌, ◌↔◌, ◌∷◌, ◌≡◌,
  ℕ,
}
use hosted_replay_harness.Value.{
  Fields, Value, among, boolean, cons, dict, end, field, get?, list, nil, null, num, pos, text,
}
use hosted_replay_harness.DirectPort.Inspection.Verdict.{IsIsolated, validate_inspection-IsIsolated}
use hosted_replay_harness.DirectPort.Publication.Safety.{
  IsUnpublished, classify_publication-IsUnpublished,
}
use hosted_replay_harness.DirectPort.Groups.{
  Parts, Payloads, compose_payloads, composed, flat_keys, groups, hostconfig_security,
  identity_config, network_runtime, part_of, parts_in, publication_group, run_groups, state_health,
  validate_group,
}
use hosted_replay_harness.DirectPort.Groups.Composing.{compose-eq-composed, host_group_keys}
use hosted_replay_harness.DockerApi.Json.{has_exactly}
use hosted_replay_harness.Tests.Samples.{hash_a, obj}
use hosted_replay_harness.DirectPort.Watch.Stability.{
  AtLastWell, watch-AtLastWell, SawWell, watch-Finals,
}
use hosted_replay_harness.DirectPort.Watch.{Attempt, final, watch}
use hosted_replay_harness.DirectPort.Safe.Agreement.{IsPrinted}
use hosted_replay_harness.DirectPort.Safe.Diagnosed.{safe_inspect-IsPrinted}

abbrev probed_network : String
probed_network = "net1"

abbrev subject : Subject
subject = record {
  network_id = "net1";
  image_id = "sha256:pg";
  image_reference = "postgres:17";
  container_name = "fp-direct-postgres";
  labels = ("io.fawxzzy.role", "direct-postgres") ∷ [];
}

abbrev port_map : String → Value
port_map ip = dict (
    obj (
      (
        "5432/tcp",
        list (cons (dict (obj (("HostIp", text ip) ∷ ("HostPort", text "56422") ∷ []))) nil),
      )
      ∷ []))

abbrev identity_fields : List (String × Value)
identity_fields =
    ("id", text hash_a)
    ∷ ("name", text "/fp-direct-postgres")
    ∷ ("image_id", text "sha256:pg")
    ∷ ("config_image", text "postgres:17")
    ∷ ("labels", dict (obj (("io.fawxzzy.role", text "direct-postgres") ∷ [])))
    ∷ []

abbrev host_fields : List (String × Value)
host_fields =
    ("network_mode", text "net1")
    ∷ ("privileged", boolean false)
    ∷ ("pid_mode", text "")
    ∷ ("ipc_mode", text "private")
    ∷ ("binds", null)
    ∷ ("host_mounts", null)
    ∷ ("volumes_from", null)
    ∷ (
      "tmpfs",
      dict (obj (("/var/lib/postgresql/data", text "rw,nosuid,nodev,noexec,size=1g") ∷ [])),
    )
    ∷ ("devices", list nil)
    ∷ ("device_requests", null)
    ∷ ("cap_add", null)
    ∷ ("security_opt", null)
    ∷ ("extra_hosts", list nil)
    ∷ ("restart_policy", dict (obj (("Name", text "no") ∷ [])))
    ∷ []

abbrev network_fields : List (String × Value)
network_fields =
    ("mounts", list nil)
    ∷ ("networks", dict (obj (("packet", dict (obj (("NetworkID", text "net1") ∷ []))) ∷ [])))
    ∷ []

abbrev state_fields : List (String × Value)
state_fields =
    ("restart_count", num 0)
    ∷ (
      "state",
      dict (
          obj (
            ("Status", text "running")
            ∷ ("Running", boolean true)
            ∷ ("Restarting", boolean false)
            ∷ ("OOMKilled", boolean false)
            ∷ [])),
    )
    ∷ ("health", dict (obj (("Status", text "healthy") ∷ ("FailingStreak", num 0) ∷ [])))
    ∷ []

abbrev versioned : List (String × Value) → Fields
versioned rest = field "schema_version" (num 1) (obj rest)

abbrev publication_fields : Fields
publication_fields = versioned (
    ("config", dict (obj (("exposed_ports", dict (obj (("5432/tcp", dict end) ∷ []))) ∷ [])))
    ∷ (
      "host_config",
      dict (obj (("port_bindings", port_map "") ∷ ("publish_all_ports", boolean false) ∷ [])),
    )
    ∷ ("network_settings", dict (obj (("ports", port_map "127.0.0.1") ∷ [])))
    ∷ [])

abbrev parts : Parts
parts = record {
  identity = versioned identity_fields;
  host = versioned host_fields;
  publication = publication_fields;
  runtime = versioned network_fields;
  health = versioned state_fields;
}

abbrev payloads : Payloads
payloads =
    (identity_config, parts.identity)
    ∷ (hostconfig_security, parts.host)
    ∷ (publication_group, parts.publication)
    ∷ (network_runtime, parts.runtime)
    ∷ (state_health, parts.health)
    ∷ []

abbrev container : Fields
container = versioned (
    identity_fields
    ++ (host_fields
        ++ (("config_exposed_ports", dict (obj (("5432/tcp", dict end) ∷ [])))
            ∷ ("port_bindings", port_map "")
            ∷ ("publish_all_ports", boolean false)
            ∷ ("published_ports", port_map "127.0.0.1")
            ∷ (network_fields ++ state_fields))))

groups_are_valid : all (λ g. validate_group g (part_of parts g)) groups ≡ true
unfolding run_groups
groups_are_valid = refl

parts_are_in : parts_in payloads ≡ some parts
unfolding run_groups
parts_are_in = refl

compose-eq-composed_example :
    (fs : Fields) × (compose_payloads hash_a payloads ≡ composed fs)
    × (has_exactly flat_keys fs ≡ true)
    × ((k : String) → among k host_group_keys ≡ true → get? k fs ≡ get? k parts.host)
compose-eq-composed_example =
    compose-eq-composed hash_a payloads parts refl parts_are_in groups_are_valid refl

-- `str` on the values that are texts
abbrev text_of : Value → Bytes
text_of (text s) = codes s
text_of v = []

container_is_clean : validate_inspection text_of subject container ≡ []
unfolding run_inspection
container_is_clean = refl

validate_inspection-IsIsolated_example : IsIsolated text_of subject container
validate_inspection-IsIsolated_example =
    validate_inspection-IsIsolated text_of subject container container_is_clean

-- A publication that asks for all its ports.
abbrev open_publication : Fields
open_publication = versioned (
    ("config", dict (obj (("exposed_ports", null) ∷ [])))
    ∷ (
      "host_config",
      dict (obj (("port_bindings", null) ∷ ("publish_all_ports", boolean true) ∷ [])),
    )
    ∷ ("network_settings", dict (obj (("ports", dict end) ∷ [])))
    ∷ [])

abbrev no_bindings : Bindings
no_bindings = record {
  key_count = 0;
  port_5432_present = false;
  port_5432_binding_count = 0;
  total_binding_count = 0;
  signatures = [];
}

abbrev open_summary : Summary
open_summary = record {
  config_exposed_ports_key_count = 0;
  config_exposed_ports_5432_present = false;
  requested = no_bindings;
  host_publish_all_ports = true;
  value_class = absent_class;
  published = no_bindings;
}

open_is_summed : (classify_publication open_publication).summary ≡ some open_summary
unfolding run_publication
open_is_summed = refl

classify_publication-IsUnpublished_example :
    ((classify_publication open_publication).class ≡ shape_safe) ↔ IsUnpublished open_summary
classify_publication-IsUnpublished_example =
    classify_publication-IsUnpublished open_publication open_summary open_is_summed

-- A Docker whose first template prints the container, and one that answers nothing.
abbrev zeros : String
zeros = "0000000000000000000000000000000000000000000000000000000000000000"

abbrev answered : Template → Option Completed
answered whole = some (record { returncode = pos 0; stdout = 1 ∷ []; stderr = [] })
answered _ = none

abbrev silent : Template → Option Completed
silent t = none

abbrev loads : (Fields → Option Fields) → Bytes → Loaded
loads hook [] = decode_error
loads hook (_ ∷ raw) = loaded (dict container)

abbrev sample_library : Library
sample_library = record {
  utf8_decode = λ raw. some raw;
  json_loads = loads;
  json_dumps = λ v. [];
  sha256 = λ raw. zeros;
  docker = silent;
}

abbrev failure : Fields
failure =
    diagnostic_envelope sample_library (record { returncode = pos 127; stdout = []; stderr = [] }) 1
      "DIRECT_INSPECT_OBJECT_UNAVAILABLE"
      (record { utf8_status = "VALID"; parse_class = "JSON_SYNTAX"; payload = none })
      "IDENTITY_CONFIG" 0

silence_fails : safe_inspect sample_library hash_a 1 ≡ diagnosed failure
unfolding safe_inspect
silence_fails = refl

safe_inspect-IsPrinted_example : IsPrinted sample_library failure
safe_inspect-IsPrinted_example =
    safe_inspect-IsPrinted sample_library hash_a 1 failure (record { at = λ raw. refl }) refl
      silence_fails

-- Two turns, ten units of the clock apart.
abbrev first_attempt : Attempt
first_attempt = record { started = 1; docker = answered; marked = 2; checked = 3 }

abbrev second_attempt : Attempt
second_attempt = record { started = 12; docker = answered; marked = 13; checked = 14 }

abbrev later_attempts : List Attempt
later_attempts = second_attempt ∷ []

abbrev attempts : List Attempt
attempts = first_attempt ∷ later_attempts

watch_ends : watch sample_library hash_a 120 10 attempts ≡ final container
unfolding watch run_inspection
watch_ends = refl

watch-AtLastWell_example : AtLastWell sample_library hash_a 120 10 0 attempts container
watch-AtLastWell_example =
    watch-AtLastWell sample_library hash_a 120 10 attempts container watch_ends

abbrev SeenAt : (i : ℕ) (attempt : Attempt) → Type 0
SeenAt i attempt = SawWell sample_library hash_a 120 10 i attempt container

first_is_well : SeenAt 0 first_attempt
unfolding watch run_inspection
first_is_well = record { in_time = refl; seen_fields = refl; was_well = refl }

second_is_well : SeenAt 1 second_attempt
unfolding watch run_inspection
second_is_well = record { in_time = refl; seen_fields = refl; was_well = refl }

watch-Finals_example :
    (fs : Fields) × (watch sample_library hash_a 120 10 (first_attempt ∷ later_attempts) ≡ final fs)
watch-Finals_example =
    watch-Finals sample_library hash_a 120 10 first_attempt later_attempts 1
      ((container, first_is_well), ((container, second_is_well), tt)) refl refl
