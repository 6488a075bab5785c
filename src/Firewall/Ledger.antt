-- ===== src/Firewall/Ledger.antt =====
-- The ledger that the firewall commands share, and `_validated_current_owned`.
use hosted_replay_harness.Firewall.Rules.{
  Library, Counts, canonical_json_sha256, canonical_snapshot, marker_entries,
}
use hosted_replay_harness.Firewall.Checked.{◌>>=◌, Checked, passed, require}
use hosted_replay_harness.Prelude.{Bool, List, String, [], if◌then◌else◌, none, str_eq, ◌&&◌, ◌∷◌}
use hosted_replay_harness.Value.{Fields, boolean, dict, end, field, num, text}
use hosted_replay_harness.Firewall.Owned.{packet_table, same_counts, validate_owned}

-- A ledger that `read_ledger` accepts, without its schema and its table, which are constants.
pub record Ledger : Type 0 where
  pub interface : String
  pub subnet : String
  pub preimage_sha256 : String
  pub preimage_semantic_sha256 : String
  pub preimage_counts : Counts
  pub installation_sha256 : String
  pub installation_semantic_sha256 : String
  pub installation_counts : Counts
  pub installed : Bool
  pub owned_sha256 : String
  pub markers_installed : Bool
  pub marker_sha256 : String
  pub combined_sha256 : String

abbrev pub count_fields : Counts → Fields
count_fields [] = end
count_fields ((k, n) ∷ rest) = field k (num n) (count_fields rest)

abbrev pub ledger_fields : Ledger → Fields
ledger_fields l = field "schema" (text "fawxzzy.hosted-replay-harness.firewall-boundary.v4") (
    field "table" (text packet_table) (
      field "interface" (text l.interface) (
        field "subnet" (text l.subnet) (
          field "preimage_sha256" (text l.preimage_sha256) (
            field "preimage_semantic_sha256" (text l.preimage_semantic_sha256) (
              field "preimage_counts" (dict (count_fields l.preimage_counts)) (
                field "installation_sha256" (text l.installation_sha256) (
                  field "installation_semantic_sha256" (text l.installation_semantic_sha256) (
                    field "installation_counts" (dict (count_fields l.installation_counts)) (
                      field "installed" (boolean l.installed) (
                        field "owned_sha256" (text l.owned_sha256) (
                          field "markers_installed" (boolean l.markers_installed) (
                            field "marker_sha256" (text l.marker_sha256)
                              (field "combined_sha256" (text l.combined_sha256) end))))))))))))))

abbrev marker_counts : Counts
marker_counts = ("chain", 3) ∷ ("counter", 7) ∷ ("rule", 7) ∷ []

module _ (lib : Library) where
  abbrev pub ledger_sha256 : Ledger → String
  ledger_sha256 l = canonical_json_sha256 lib (dict (ledger_fields l))

  abbrev markers_pass : List Fields → Ledger → String × Counts → Checked (String × Counts)
  markers_pass entries ledger snapshot =
      let (digest, counts) = canonical_snapshot lib none (marker_entries entries packet_table) in
      require (str_eq digest ledger.marker_sha256 && same_counts counts marker_counts)
        "FIREWALL_MARKER_INSTALLATION_MISMATCH" (passed snapshot)

  unfoldable pub validated_current_owned : List Fields → Ledger → Checked (String × Counts)
  unfolding validate_owned require canonical_snapshot marker_entries
  validated_current_owned entries ledger =
      let expected =
        if ledger.markers_installed then ledger.combined_sha256 else ledger.owned_sha256 in
      validate_owned lib entries packet_table ledger.markers_installed >>= λ snapshot.
      require (str_eq snapshot.0 expected) "FIREWALL_INSTALLATION_MISMATCH"
        (if ledger.markers_installed then markers_pass entries ledger snapshot else passed snapshot)
