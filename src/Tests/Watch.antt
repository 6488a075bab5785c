-- ===== src/Tests/Watch.antt =====
-- Runs of the observer's theorems on a compliant network and a compliant container.
use hosted_replay_harness.Prelude.{Bytes, [], codes, false, refl, true, ◌∷◌, ◌≡◌}
use hosted_replay_harness.ContainerWatch.Contracts.{
  Expected, Network, project, run_network, validate_network_contract,
}
use hosted_replay_harness.Value.{Fields, Value, boolean, cons, dict, list, nil, text}
use hosted_replay_harness.ContainerWatch.Contracts.Verdicts.{IsContained, network-IsContained}
use hosted_replay_harness.Tests.Samples.{obj}

abbrev watched_network : Network
watched_network = record {
  name = "packet_net";
  id = "net1";
  subnet = "10.0.0.0/24";
  packet = "packet";
}

abbrev network_fields : Fields
network_fields = obj (
    ("id", text "net1")
    ∷ ("name", text "packet_net")
    ∷ ("driver", text "bridge")
    ∷ ("scope", text "local")
    ∷ ("internal", boolean true)
    ∷ ("enable_ipv6", boolean false)
    ∷ ("subnet", text "10.0.0.0/24")
    ∷ (
      "options",
      dict (
          obj (
            ("com.docker.network.bridge.host_binding_ipv4", text "127.0.0.1")
            ∷ ("com.docker.network.bridge.gateway_mode_ipv4", text "isolated")
            ∷ [])),
    )
    ∷ (
      "labels",
      dict (
          obj (
            ("io.fawxzzy.packet", text "packet")
            ∷ ("io.fawxzzy.role", text "containment-network")
            ∷ ("com.supabase.cli.project", text project)
            ∷ ("com.docker.compose.project", text project)
            ∷ [])),
    )
    ∷ [])

network_is_clean :
    validate_network_contract network_fields ("net1" ∷ []) ("net1" ∷ []) watched_network ≡ []
unfolding run_network
network_is_clean = refl

network-IsContained_example : IsContained network_fields ("net1" ∷ []) ("net1" ∷ []) watched_network
network-IsContained_example =
    network-IsContained network_fields ("net1" ∷ []) ("net1" ∷ []) watched_network network_is_clean

abbrev expected_containers : Expected
expected_containers = record {
  network_name = "packet_net";
  network_id = "net1";
  postgres_image_id = "sha256:postgres";
  gotrue_image_id = "sha256:gotrue";
}

abbrev text_of : Value → Bytes
text_of (text s) = codes s
text_of _ = []

abbrev migration_fields : Fields
migration_fields = obj (
    ("name", text "/gotrue")
    ∷ ("image_id", text "sha256:gotrue")
    ∷ ("cmd", list (cons (text "gotrue") (cons (text "migrate") nil)))
    ∷ (
      "labels",
      dict (
          obj (
            ("com.supabase.cli.project", text project)
            ∷ ("com.docker.compose.project", text project)
            ∷ [])),
    )
    ∷ ("network_mode", text "packet_net")
    ∷ ("networks", dict (obj (("packet_net", dict (obj (("NetworkID", text "net1") ∷ []))) ∷ [])))
    ∷ ("privileged", boolean false)
    ∷ ("ipc_mode", text "private")
    ∷ ("extra_hosts", list (cons (text "host.docker.internal:host-gateway") nil))
    ∷ [])
