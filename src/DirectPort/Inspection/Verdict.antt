-- ===== src/DirectPort/Inspection/Verdict.antt =====
-- What an inspection without findings says of the container.
use hosted_replay_harness.DirectPort.Inspection.{
  order, only_network, is_blank, Finding, Subject, added_capability, bind_mount, container_identity,
  container_not_healthy, container_not_running, container_oom_killed, container_restarting,
  device_access, docker_socket, extra_host, findings, has_labels, has_restart_policy,
  health_findings, image_identity, inspection_schema, ipc_mode, is_false, is_rejected, is_true,
  label_contract, legacy_tmpfs_matches, mount_contract, name_of, network_attachment, network_mode,
  no_socket, pid_mode, port_binding, port_request, privileged_mode, publication_fields,
  publication_schema, publish_all_ports, published_on, quiet, restart_count, restart_policy,
  security_option, tmpfs_contract, unless, validate_inspection,
}
use hosted_replay_harness.Prelude.{
  Bool, Bytes, List, [], codes, equal, false, if◌then◌else◌, not, refl, true, ◌&&◌, ◌++◌, ◌∷◌, ◌≡◌,
  append-nil_left,
}
use hosted_replay_harness.Value.{Fields, Value, dict, eq, get, is_text_of, num}
use hosted_replay_harness.DirectPort.Publication.{classify_publication}
use hosted_replay_harness.SortedSet.{sorted_set, sorted_set-nil}

unless-nil :
    (t : Bool) (c : Finding) (rest : List Finding)
    → unless t c ++ rest ≡ []
    → (t ≡ true) × (rest ≡ [])
unless-nil true c rest h = (refl, h)
unless-nil false c rest h = cc

unless-nil_last : (t : Bool) (c : Finding) → unless t c ≡ [] → t ≡ true
unless-nil_last true c h = refl
unless-nil_last false c h = cc

-- The state and the health of a container that runs well.
pub record IsHealthy (state health : Value) : Type 0 where
  pub state_fields : Fields
  pub health_fields : Fields
  pub is_state : state ≡ dict state_fields
  pub is_health : health ≡ dict health_fields
  pub running :
      (is_true (get "Running" state_fields) && is_text_of "running" (get "Status" state_fields))
      ≡ true
  pub not_restarting : is_false (get "Restarting" state_fields) ≡ true
  pub not_killed : is_false (get "OOMKilled" state_fields) ≡ true
  pub healthy :
      (is_text_of "healthy" (get "Status" health_fields)
        && eq (get "FailingStreak" health_fields) (num 0))
      ≡ true

health_findings-nil :
    (state health : Value) → health_findings state health ≡ [] → IsHealthy state health
unfolding health_findings
health_findings-nil (dict state) (dict health) h =
    let (a, h₁) = unless-nil _ container_not_running _ h in
    let (b, h₂) = unless-nil _ container_restarting _ h₁ in
    let (c, h₃) = unless-nil _ container_oom_killed _ h₂ in
    record {
      state_fields = state;
      health_fields = health;
      is_state = refl;
      is_health = refl;
      running = a;
      not_restarting = b;
      not_killed = c;
      healthy = unless-nil_last _ container_not_healthy h₃;
    }
health_findings-nil _ _ h = cc

-- The container as the harness wants it.
pub record IsIsolated (str_of : Value → Bytes) (subject : Subject) (fs : Fields) : Type 0 where
  pub version : eq (get "schema_version" fs) (num 1) ≡ true
  pub name : equal (name_of str_of fs) (codes subject.container_name) ≡ true
  pub image :
      (is_text_of subject.image_id (get "image_id" fs)
        && is_text_of subject.image_reference (get "config_image" fs))
      ≡ true
  pub labels : has_labels subject.labels (get "labels" fs) ≡ true
  pub one_network : only_network subject.network_id (get "networks" fs) ≡ true
  pub mode : is_text_of subject.network_id (get "network_mode" fs) ≡ true
  pub unprivileged : is_false (get "privileged" fs) ≡ true
  pub own_pids : quiet "private" (get "pid_mode" fs) ≡ true
  pub own_ipc : quiet "private" (get "ipc_mode" fs) ≡ true
  pub no_device : (is_blank (get "devices" fs) && is_blank (get "device_requests" fs)) ≡ true
  pub no_capability : is_blank (get "cap_add" fs) ≡ true
  pub no_option : is_blank (get "security_opt" fs) ≡ true
  pub no_host : is_blank (get "extra_hosts" fs) ≡ true
  pub no_bind : is_blank (get "binds" fs) ≡ true
  pub no_mount :
      (is_blank (get "host_mounts" fs)
        && (is_blank (get "volumes_from" fs) && is_blank (get "mounts" fs)))
      ≡ true
  pub socketless : no_socket fs ≡ true
  pub tmpfs : legacy_tmpfs_matches (get "tmpfs" fs) ≡ true
  pub published_shape :
      not (is_rejected (classify_publication (publication_fields fs)).class) ≡ true
  pub not_all_ports : is_false (get "publish_all_ports" fs) ≡ true
  pub requested : eq (get "port_bindings" fs) (published_on "") ≡ true
  pub loopback_only : eq (get "published_ports" fs) (published_on "127.0.0.1") ≡ true
  pub no_restart : has_restart_policy (get "restart_policy" fs) ≡ true
  pub healthy : IsHealthy (get "state" fs) (get "health" fs)
  pub no_restarts : eq (get "restart_count" fs) (num 0) ≡ true

findings-nil :
    (str_of : Value → Bytes) (subject : Subject) (fs : Fields)
    → eq (get "schema_version" fs) (num 1) ≡ true
    → findings str_of subject fs ≡ []
    → IsIsolated str_of subject fs
unfolding findings
findings-nil str_of subject fs v h =
    let (t0, h0) = unless-nil _ container_identity _ h in
    let (t1, h1) = unless-nil _ image_identity _ h0 in
    let (t2, h2) = unless-nil _ label_contract _ h1 in
    let (t3, h3) = unless-nil _ network_attachment _ h2 in
    let (t4, h4) = unless-nil _ network_mode _ h3 in
    let (t5, h5) = unless-nil _ privileged_mode _ h4 in
    let (t6, h6) = unless-nil _ pid_mode _ h5 in
    let (t7, h7) = unless-nil _ ipc_mode _ h6 in
    let (t8, h8) = unless-nil _ device_access _ h7 in
    let (t9, h9) = unless-nil _ added_capability _ h8 in
    let (t10, h10) = unless-nil _ security_option _ h9 in
    let (t11, h11) = unless-nil _ extra_host _ h10 in
    let (t12, h12) = unless-nil _ bind_mount _ h11 in
    let (t13, h13) = unless-nil _ mount_contract _ h12 in
    let (t14, h14) = unless-nil _ docker_socket _ h13 in
    let (t15, h15) = unless-nil _ tmpfs_contract _ h14 in
    let (t16, h16) = unless-nil _ publication_schema _ h15 in
    let (t17, h17) = unless-nil _ publish_all_ports _ h16 in
    let (t18, h18) = unless-nil _ port_request _ h17 in
    let (t19, h19) = unless-nil _ port_binding _ h18 in
    let (t20, h20) = unless-nil _ restart_policy _ h19 in
    let (g, last) = append-nil_left _ _ h20 in
    record {
      version = v;
      name = t0;
      image = t1;
      labels = t2;
      one_network = t3;
      mode = t4;
      unprivileged = t5;
      own_pids = t6;
      own_ipc = t7;
      no_device = t8;
      no_capability = t9;
      no_option = t10;
      no_host = t11;
      no_bind = t12;
      no_mount = t13;
      socketless = t14;
      tmpfs = t15;
      published_shape = t16;
      not_all_ports = t17;
      requested = t18;
      loopback_only = t19;
      no_restart = t20;
      healthy = health_findings-nil _ _ g;
      no_restarts = (unless-nil _ restart_count _ last).0;
    }

-- If validate_inspection returns no code, then the container is the expected one of the expected
-- image with the expected labels, is attached to the one network, is not privileged, has its own
-- PID and IPC namespaces, has no device, capability, option, host, bind or mount and no Docker
-- socket, publishes its one port on loopback alone, does not restart, and runs and is healthy.
pub validate_inspection-IsIsolated :
    (str_of : Value → Bytes) (subject : Subject) (fs : Fields)
    → validate_inspection str_of subject fs ≡ []
    → IsIsolated str_of subject fs
unfolding validate_inspection
validate_inspection-IsIsolated str_of subject fs h =
    by_version (eq (get "schema_version" fs) (num 1)) refl h
  where
    by_version :
        (t : Bool)
        → eq (get "schema_version" fs) (num 1) ≡ t
        → (if◌then◌else◌ {A = List Finding} t
            (sorted_set order (findings str_of subject fs))
            (inspection_schema ∷ []))
          ≡ []
        → IsIsolated str_of subject fs
    by_version true e h = findings-nil str_of subject fs e (sorted_set-nil order _ h)
    by_version false e h = cc
