-- ===== src/Tests/Rules.antt =====
-- Runs of the firewall's theorems on a small rule set.
use hosted_replay_harness.Firewall.Rules.{Library, Counts, semantic_snapshot}
use hosted_replay_harness.Firewall.Owned.{packet_table, validate_owned}
use hosted_replay_harness.Value.{
  Fields, Items, Value, cons, dict, end, field, int, list, negsuc, nil, num, text,
}
use hosted_replay_harness.Firewall.Owned.Exact.{IsExact, validate_owned-IsExact}
use hosted_replay_harness.Firewall.Restoration.Waiting.{IsRestored, wait-IsRestored, wait-bounded}
use hosted_replay_harness.Firewall.Ledger.{Ledger}
use hosted_replay_harness.Prelude.{
  List, Option, String, [], false, length, none, refl, some, suc, true, zero, ℕ, ◌∷◌, ◌≡◌, ◌≤◌,
}
use hosted_replay_harness.Firewall.Rules.Reordering.{
  Reordered, swapped, semantic_snapshot-Reordered,
}
use hosted_replay_harness.Firewall.Completion.{
  build_completion, completion_of, counts_sha256, validate_completion_against_ledger,
}
use hosted_replay_harness.Firewall.Completion.Evidence.{
  build_completion-eq-some, build_completion-restored,
}
use hosted_replay_harness.Tests.Samples.{obj}
use hosted_replay_harness.Firewall.Checked.{passed}
use hosted_replay_harness.Firewall.Restoration.{
  poll_attempts, restored, wait_for_restoration_preimage,
}

abbrev zeros : String
zeros = "0000000000000000000000000000000000000000000000000000000000000000"

-- A stand-in for JSON: a list is its last text.
mutual
  dump : Value → String
  dump (text s) = s
  dump (list xs) = dump_last xs
  dump v = "value"

  dump_last : Items → String
  dump_last nil = "nothing"
  dump_last (cons v nil) = dump v
  dump_last (cons v (cons w xs)) = dump_last (cons w xs)

abbrev plain_library : Library
plain_library = record { json_loads = λ raw. none; json_dumps = dump; sha256 = λ raw. raw }

abbrev hashed_library : Library
hashed_library = record {
  json_loads = λ raw. none;
  json_dumps = λ v. "value";
  sha256 = λ raw. zeros;
}

abbrev entry : String → List (String × Value) → Fields
entry kind fs = field kind (dict (obj fs)) end

abbrev table_entry : Fields
table_entry = entry "table" (("family", text "inet") ∷ ("name", text packet_table) ∷ [])

abbrev counter_entry : String → Fields
counter_entry name = entry "counter" (
    ("family", text "inet")
    ∷ ("table", text packet_table)
    ∷ ("name", text name)
    ∷ ("packets", num 0)
    ∷ ("bytes", num 0)
    ∷ [])

abbrev chain_entry : String → String → Fields
chain_entry name hook = entry "chain" (
    ("family", text "inet")
    ∷ ("table", text packet_table)
    ∷ ("name", text name)
    ∷ ("type", text "filter")
    ∷ ("hook", text hook)
    ∷ ("prio", int (negsuc 9))
    ∷ ("policy", text "accept")
    ∷ [])

abbrev rule_entry : String → String → Fields
rule_entry chain expression = entry "rule" (
    ("family", text "inet")
    ∷ ("table", text packet_table)
    ∷ ("chain", text chain)
    ∷ ("expr", list (cons (text expression) nil))
    ∷ [])

abbrev other_entry : Fields
other_entry = entry "chain" (("family", text "ip") ∷ ("table", text "nat") ∷ [])

abbrev packet_entries : List Fields
packet_entries =
    table_entry
    ∷ counter_entry "packet_input_deny"
    ∷ counter_entry "packet_forward_deny"
    ∷ counter_entry "packet_output_deny"
    ∷ chain_entry "packet_input" "input"
    ∷ chain_entry "packet_forward" "forward"
    ∷ chain_entry "packet_output" "output"
    ∷ rule_entry "packet_input" "a"
    ∷ rule_entry "packet_input" "b"
    ∷ rule_entry "packet_forward" "a"
    ∷ rule_entry "packet_forward" "b"
    ∷ rule_entry "packet_forward" "c"
    ∷ rule_entry "packet_output" "a"
    ∷ rule_entry "packet_output" "b"
    ∷ other_entry
    ∷ []

abbrev packet_snapshot : String × Counts
packet_snapshot = ("value", ("chain", 3) ∷ ("counter", 3) ∷ ("rule", 7) ∷ ("table", 1) ∷ [])

packet_is_valid :
    validate_owned plain_library packet_entries packet_table false ≡ passed packet_snapshot
unfolding validate_owned dump
packet_is_valid = refl

validate_owned-IsExact_example : IsExact packet_table false packet_entries
validate_owned-IsExact_example =
    validate_owned-IsExact plain_library packet_entries packet_table false packet_snapshot
      packet_is_valid

-- Rules of two chains change places.
abbrev first_order : List Fields
first_order = rule_entry "packet_input" "a" ∷ rule_entry "packet_output" "b" ∷ []

abbrev second_order : List Fields
second_order = rule_entry "packet_output" "b" ∷ rule_entry "packet_input" "a" ∷ []

orders_differ : Reordered plain_library first_order second_order
unfolding semantic_snapshot dump
orders_differ = swapped refl

semantic_snapshot-Reordered_example :
    semantic_snapshot plain_library none first_order
    ≡ semantic_snapshot plain_library none second_order
semantic_snapshot-Reordered_example =
    semantic_snapshot-Reordered plain_library none first_order second_order orders_differ

abbrev sample_ledger : Ledger
sample_ledger = record {
  interface = "br0";
  subnet = "10.0.0.0/24";
  preimage_sha256 = zeros;
  preimage_semantic_sha256 = zeros;
  preimage_counts = [];
  installation_sha256 = zeros;
  installation_semantic_sha256 = zeros;
  installation_counts = ("chain", 1) ∷ [];
  installed = true;
  owned_sha256 = zeros;
  markers_installed = false;
  marker_sha256 = "";
  combined_sha256 = "";
}

-- Docker's chain is gone at the second look.
abbrev second_look : ℕ → Option (List Fields)
second_look zero = some []
second_look (suc k) = none

wait_ends :
    (wait_for_restoration_preimage hashed_library sample_ledger second_look
      (other_entry ∷ [])).ending
    ≡ restored [] []
unfolding wait_for_restoration_preimage
wait_ends = refl

wait-IsRestored_example :
    IsRestored hashed_library sample_ledger second_look (other_entry ∷ []) [] []
wait-IsRestored_example =
    wait-IsRestored hashed_library sample_ledger second_look (other_entry ∷ []) [] [] wait_ends

wait-bounded_example :
    length
      (wait_for_restoration_preimage hashed_library sample_ledger second_look
        (other_entry ∷ [])).observations
    ≤ poll_attempts
wait-bounded_example = wait-bounded hashed_library sample_ledger second_look (other_entry ∷ [])

abbrev sample_completion : Fields
sample_completion = completion_of hashed_library sample_ledger zeros []

completion_is_built :
    build_completion hashed_library sample_ledger zeros [] ≡ some sample_completion
unfolding build_completion
completion_is_built = refl

build_completion-eq-some_example :
    (validate_completion_against_ledger hashed_library sample_completion sample_ledger zeros []
      ≡ true)
    × (zeros ≡ sample_ledger.preimage_sha256)
    × (counts_sha256 hashed_library [] ≡ counts_sha256 hashed_library sample_ledger.preimage_counts)
build_completion-eq-some_example =
    build_completion-eq-some hashed_library sample_ledger zeros [] sample_completion
      completion_is_built

build_completion-restored_example :
    build_completion hashed_library sample_ledger sample_ledger.preimage_sha256 []
    ≡ some (completion_of hashed_library sample_ledger sample_ledger.preimage_sha256 [])
build_completion-restored_example =
    build_completion-restored hashed_library sample_ledger [] (record { at = λ s. refl }) refl refl
