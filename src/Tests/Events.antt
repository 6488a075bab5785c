-- ===== src/Tests/Events.antt =====
-- A run of the event history's theorems: a database that was created and started on the network.
use hosted_replay_harness.Prelude.{
  Bytes, List, String, [], codes, cut, decimal_from, length, lower_all, none, refl, some, true,
  ◌++◌, ◌+◌, ◌∷◌, ◌≡◌, ◌≤◌,
}
use hosted_replay_harness.Value.{Fields, Value, as_text, dict, pos, text}
use hosted_replay_harness.DockerEvents.{
  HistoryReceipt, Python, Run, analyze, history_consistent, read_json_lines, run_analyze,
}
use hosted_replay_harness.DockerEvents.Tallies.{analyze-counts}
use hosted_replay_harness.Tests.Samples.{lookup, obj}
use hosted_replay_harness.DockerEvents.Correlation.{IsCorrelated, analyze-IsCorrelated}

abbrev container_event_of : String → Value
container_event_of action = dict (
    obj (
      ("Type", text "container")
      ∷ ("Action", text action)
      ∷ (
        "Actor",
        dict (
            obj (
              ("ID", text "db1")
              ∷ (
                "Attributes",
                dict (
                    obj (
                      ("com.supabase.cli.project", text "packet")
                      ∷ ("image", text "postgres:17")
                      ∷ [])),
              )
              ∷ [])),
      )
      ∷ []))

abbrev network_event_of : Value
network_event_of = dict (
    obj (
      ("Type", text "network")
      ∷ ("Action", text "connect")
      ∷ (
        "Actor",
        dict (
            obj (
              ("ID", text "net1")
              ∷ (
                "Attributes",
                dict (obj (("name", text "packet_net") ∷ ("container", text "db1") ∷ [])),
              )
              ∷ [])),
      )
      ∷ []))

abbrev audit_of : String → Value
audit_of phase = dict (obj (("phase", text phase) ∷ ("container_id", text "sha256:db1") ∷ []))

abbrev event_lines : List (Bytes × Value)
event_lines =
    (codes "create", container_event_of "create")
    ∷ (codes "start", container_event_of "start")
    ∷ (codes "connect", network_event_of)
    ∷ (codes "saw_create", audit_of "create")
    ∷ (codes "saw_start", audit_of "start")
    ∷ []

-- Knows the lines above, up to two of them; the hash of a text is the text.
abbrev sample_python : Python
sample_python = record {
  json_loads = λ line. lookup line event_lines;
  str_of = λ v. elim (as_text v) [ none ↦ [] | some s ↦ codes s ];
  lower = λ s. lower_all s;
  splitlines = λ raw. elim (cut b'\n' raw) [ none ↦ raw ∷ [] | some (a, b) ↦ a ∷ b ∷ [] ];
  sha256 = λ raw. raw;
  utf8 = λ s. s;
  int_of = λ s. some (pos (decimal_from 0 s));
}

abbrev sample_run : Run
sample_run = record {
  project = codes "packet";
  network_name = codes "packet_net";
  network_id = codes "net1";
  db_volume = codes "packet_vol";
  postgres_image = codes "postgres:17";
  postgres_image_id = codes "sha256:postgres";
  gotrue_image = codes "gotrue:v2";
  gotrue_image_id = codes "sha256:gotrue";
}

abbrev sample_history : HistoryReceipt sample_python
sample_history = record {
  classification = history_consistent;
  container_create_count = 1;
  container_start_count = 1;
  container_die_count = 0;
  container_destroy_count = 0;
  volume_create_count = 0;
  network_connect_count = 1;
  database_nonzero_exit_count = 0;
  gotrue_nonzero_exit_count = 0;
  container_id_set_sha256 = codes "sha256:db1";
  volume_id_set_sha256 = [];
  network_container_id_set_sha256 = codes "sha256:db1";
  pinned_image_identity_correlated = true;
  frozen_network_id_correlated = true;
  live_observer_correlated = true;
  raw_byte_count = 21;
  raw_line_count = 4;
  raw_sha256 = codes "create\nstart" ++ (0 ∷ (0 ∷ codes "connect"));
}

history_is_consistent :
    analyze sample_python
      (codes "create\nstart")
      []
      (codes "connect")
      (codes "saw_create\nsaw_start")
      sample_run
    ≡ some sample_history
unfolding run_analyze
history_is_consistent = refl

analyze-IsCorrelated_example :
    IsCorrelated sample_python
      (codes "create\nstart")
      (codes "saw_create\nsaw_start")
      sample_history
analyze-IsCorrelated_example =
    analyze-IsCorrelated sample_python (codes "create\nstart") [] (codes "connect")
      (codes "saw_create\nsaw_start") sample_run sample_history history_is_consistent refl

analyze-counts_example :
    (events : List Fields) × (read_json_lines sample_python (codes "create\nstart") ≡ some events)
    × (sample_history.container_create_count
          + (sample_history.container_start_count
              + (sample_history.container_die_count + sample_history.container_destroy_count))
        ≡ length events)
    × (sample_history.database_nonzero_exit_count + sample_history.gotrue_nonzero_exit_count
        ≤ sample_history.container_die_count)
analyze-counts_example =
    analyze-counts sample_python (codes "create\nstart") [] (codes "connect")
      (codes "saw_create\nsaw_start") sample_run sample_history history_is_consistent
