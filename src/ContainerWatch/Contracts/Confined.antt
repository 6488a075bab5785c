-- ===== src/ContainerWatch/Contracts/Confined.antt =====
-- What a verdict with no violation says of the container.
use hosted_replay_harness.ContainerWatch.Contracts.{
  has_label, is_false, EventPhase, Expected, Role, is_blank, is_unexpected, or_dict, quiet_modes,
  project_labels, loop_items, or_list,
}
use hosted_replay_harness.Prelude.{All, List, String, false, true, ◌≡◌, Bytes, some, all}
use hosted_replay_harness.Value.{Fields, get, is_text_of, Value, dict, end, field}
use hosted_replay_harness.ContainerWatch.Contracts.Roles.{RoleConfined}
use hosted_replay_harness.ContainerWatch.Contracts.Sockets.{is_socketless, is_socketless_bind}

-- What every compliant container has.
pub record IsConfined (str_of : Value → Bytes) (inspected : Fields) (phase : EventPhase)
    (expected : Expected) (role : Role) : Type 0 where
  pub known : is_unexpected str_of role ≡ false
  pub role_confined : RoleConfined str_of inspected phase expected role
  pub labels : Fields
  pub labels_at : or_dict (get "labels" inspected) ≡ dict labels
  pub labelled : All (λ kv. has_label labels kv ≡ true) project_labels
  pub mode : is_text_of expected.network_name (get "network_mode" inspected) ≡ true
  pub endpoint_name : String
  pub endpoint : Fields
  pub one_network : get "networks" inspected ≡ dict (field endpoint_name (dict endpoint) end)
  pub network : is_text_of expected.network_id (get "NetworkID" endpoint) ≡ true
  pub unprivileged : is_false (get "privileged" inspected) ≡ true
  pub own_pids : quiet_modes (get "pid_mode" inspected) ≡ true
  pub own_ipc : quiet_modes (get "ipc_mode" inspected) ≡ true
  pub no_devices : is_blank (get "devices" inspected) ≡ true
  pub no_device_requests : is_blank (get "device_requests" inspected) ≡ true
  pub no_capabilities : is_blank (get "cap_add" inspected) ≡ true
  pub no_security_options : is_blank (get "security_opt" inspected) ≡ true
  pub binds : List Value
  pub binds_at : loop_items (or_list (get "binds" inspected)) ≡ some binds
  pub socketless_binds : all (is_socketless_bind str_of) binds ≡ true
  pub mounts : List Value
  pub mounts_at : loop_items (or_list (get "mounts" inspected)) ≡ some mounts
  pub socketless_mounts : all (is_socketless str_of) mounts ≡ true
