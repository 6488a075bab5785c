-- ===== src/ContainerWatch/Violations.antt =====
-- ALLOWED_VIOLATIONS, in alphabetical order, and `sorted(set(…))` on violations.
use hosted_replay_harness.Prelude.{Bool, List, [], false, true, ℕ, ◌∷◌}

pub data Violation : Type 0 where
  added_capability_rejected container_inspection_missed database_bind_mismatch : Violation
  database_mount_mismatch database_port_binding_mismatch database_port_request_mismatch : Violation
  database_restart_policy_mismatch device_access_rejected docker_socket_rejected : Violation
  extra_host_contract_mismatch gotrue_mount_rejected gotrue_port_rejected : Violation
  gotrue_restart_policy_mismatch ipc_mode_rejected network_attachment_mismatch : Violation
  network_driver_mismatch network_gateway_mode_mismatch network_host_binding_mismatch : Violation
  network_ipv6_enabled network_label_mismatch network_name_id_mapping_failed : Violation
  network_not_internal network_scope_mismatch network_subnet_mismatch : Violation
  observer_failure_unclassified packet_label_mismatch pid_mode_rejected : Violation
  privileged_mode_rejected second_packet_network_detected security_option_rejected : Violation
  unexpected_packet_container : Violation

-- The place in the alphabet.
abbrev pub order : Violation → ℕ
order added_capability_rejected = 0
order container_inspection_missed = 1
order database_bind_mismatch = 2
order database_mount_mismatch = 3
order database_port_binding_mismatch = 4
order database_port_request_mismatch = 5
order database_restart_policy_mismatch = 6
order device_access_rejected = 7
order docker_socket_rejected = 8
order extra_host_contract_mismatch = 9
order gotrue_mount_rejected = 10
order gotrue_port_rejected = 11
order gotrue_restart_policy_mismatch = 12
order ipc_mode_rejected = 13
order network_attachment_mismatch = 14
order network_driver_mismatch = 15
order network_gateway_mode_mismatch = 16
order network_host_binding_mismatch = 17
order network_ipv6_enabled = 18
order network_label_mismatch = 19
order network_name_id_mapping_failed = 20
order network_not_internal = 21
order network_scope_mismatch = 22
order network_subnet_mismatch = 23
order observer_failure_unclassified = 24
order packet_label_mismatch = 25
order pid_mode_rejected = 26
order privileged_mode_rejected = 27
order second_packet_network_detected = 28
order security_option_rejected = 29
order unexpected_packet_container = 30

-- `if test: violations.append(code)`
abbrev pub when : Bool → Violation → List Violation
when true v = v ∷ []
when false v = []
