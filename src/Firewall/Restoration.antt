-- ===== src/Firewall/Restoration.antt =====
-- `wait_for_restoration_preimage`: the wait for the foreign rules to be those of before.
pub mod Waiting
use hosted_replay_harness.Firewall.Rules.{
  Library, Counts, canonical_snapshot, owned_entries, semantic_snapshot,
}
use hosted_replay_harness.Firewall.Checked.{type_error, ◌>>=◌, Checked, passed, rejected}
use hosted_replay_harness.Prelude.{
  Bool, List, Option, String, [], all, any, drop, false, if◌then◌else◌, none, not, some, str_eq,
  suc, true, zero, ℕ, ◌&&◌, ◌++◌, ◌||◌, ◌∷◌,
}
use hosted_replay_harness.Value.{Fields}
use hosted_replay_harness.Firewall.Ledger.{Ledger, validated_current_owned}
use hosted_replay_harness.Firewall.Owned.{packet_table, same_counts, validate_owned}
use hosted_replay_harness.TextOrder.{same}

abbrev pub poll_attempts : ℕ
poll_attempts = 20

pub data Class : Type 0 where
  owned_shape_failed pre_network persistent_installation serialization_variance : Class
  stable_drift unstable_drift query_failed : Class

pub record Observation : Type 0 where
  pub ordinal : ℕ
  pub query_succeeded : Bool
  pub owned_shape_valid : Bool
  pub owned_table_present : Bool
  pub classification : Class
  pub foreign_sha256 : String
  pub foreign_semantic_sha256 : String
  pub foreign_counts : Counts
  pub equals_pre_network : Bool
  pub semantic_equals_pre_network : Bool
  pub equals_installation : Bool
  pub semantic_equals_installation : Bool
  pub equals_prior : Bool
  pub semantic_equals_prior : Bool
  pub error_class : String

abbrev zeros : String
zeros = "0000000000000000000000000000000000000000000000000000000000000000"

-- An observation of an error.
abbrev failed_observation : ℕ → Bool → Bool → Class → String → Observation
failed_observation ordinal queried present class code = record {
  ordinal = ordinal;
  query_succeeded = queried;
  owned_shape_valid = false;
  owned_table_present = present;
  classification = class;
  foreign_sha256 = zeros;
  foreign_semantic_sha256 = zeros;
  foreign_counts = [];
  equals_pre_network = false;
  semantic_equals_pre_network = false;
  equals_installation = false;
  semantic_equals_installation = false;
  equals_prior = false;
  semantic_equals_prior = false;
  error_class = code;
}

-- What one look at the foreign rules gives.
pub record Foreign : Type 0 where
  pub sha256 : String
  pub semantic_sha256 : String
  pub counts : Counts

-- `bool(observations and …)`
abbrev same_as_prior : Option Foreign → (Foreign → Bool) → Bool
same_as_prior none test = false
same_as_prior (some prior) test = test prior

abbrev classify : Bool → Bool → Bool → Bool → Bool → Bool → Class
classify pre semantic_pre installation semantic_installation prior semantic_prior =
    if pre
    then pre_network
    else if installation
    then persistent_installation
    else if semantic_pre || (semantic_installation || (semantic_prior && not prior))
    then serialization_variance
    else if prior
    then stable_drift
    else unstable_drift

abbrev pub is_preimage : Ledger → Foreign → Bool
is_preimage ledger f =
    str_eq f.sha256 ledger.preimage_sha256 && same_counts f.counts ledger.preimage_counts

abbrev observe : ℕ → Ledger → Bool → Option Foreign → Foreign → Observation
observe ordinal ledger present prior f =
    let equals_pre = is_preimage ledger f in
    let semantic_pre =
      str_eq f.semantic_sha256 ledger.preimage_semantic_sha256
      && same_counts f.counts ledger.preimage_counts in
    let installation =
      str_eq f.sha256 ledger.installation_sha256
      && same_counts f.counts ledger.installation_counts in
    let semantic_installation =
      str_eq f.semantic_sha256 ledger.installation_semantic_sha256
      && same_counts f.counts ledger.installation_counts in
    let same = same_as_prior prior λ p. str_eq f.sha256 p.sha256 && same_counts f.counts p.counts in
    let semantic_same =
      same_as_prior prior
        λ p. str_eq f.semantic_sha256 p.semantic_sha256 && same_counts f.counts p.counts in
    record {
      ordinal = ordinal;
      query_succeeded = true;
      owned_shape_valid = true;
      owned_table_present = present;
      classification =
          classify equals_pre semantic_pre installation semantic_installation same semantic_same;
      foreign_sha256 = f.sha256;
      foreign_semantic_sha256 = f.semantic_sha256;
      foreign_counts = f.counts;
      equals_pre_network = equals_pre;
      semantic_equals_pre_network = semantic_pre;
      equals_installation = installation;
      semantic_equals_installation = semantic_installation;
      equals_prior = same;
      semantic_equals_prior = semantic_same;
      error_class = "NONE";
    }

-- The class of the summary where the attempts are over.
abbrev terminal_class : List Observation → Class
terminal_class observations =
    let rest = drop 1 observations in
    if all (λ o. o.equals_installation) observations
    then persistent_installation
    else if all (λ o. o.semantic_equals_pre_network || o.semantic_equals_installation) observations
    then serialization_variance
    else if all (λ o. o.semantic_equals_prior) rest && any (λ o. not o.equals_prior) rest
    then serialization_variance
    else if all (λ o. o.equals_prior) rest
    then stable_drift
    else unstable_drift

pub data Ending : Type 0 where
  -- the entries, and those of the table
  restored : List Fields → List Fields → Ending
  refused : String → Ending
  broken : Ending

-- The observations that are printed, the class of the summary, and how the wait ends.
pub record Waited : Type 0 where
  pub observations : List Observation
  pub summary : Option Class
  pub ending : Ending

abbrev waited : List Observation → Class → Ending → Waited
waited observations class ending = record {
  observations = observations;
  summary = some class;
  ending = ending;
}

abbrev drifted : List Observation → Waited
drifted observations =
    waited observations (terminal_class observations) (refused "FIREWALL_FOREIGN_STATE_DRIFT")

abbrev is_nil : List Fields → Bool
is_nil [] = true
is_nil (x ∷ xs) = false

-- `reads k` is what `read_ruleset` gives behind attempt `k`; `none` is its `BoundaryError`.
module _ (lib : Library) (ledger : Ledger) (reads : ℕ → Option (List Fields)) where
  -- The check of the table, where it is there.
  unfoldable pub owned_check : List Fields → Checked (Unit {0})
  unfolding validated_current_owned validate_owned owned_entries
  owned_check entries =
      if is_nil (owned_entries entries packet_table)
      then passed tt
      else if ledger.markers_installed
      then (validated_current_owned lib entries ledger >>= λ _. passed tt)
      else validate_owned lib entries packet_table false >>= λ _. passed tt

  unfoldable pub foreign : List Fields → Foreign
  unfolding canonical_snapshot semantic_snapshot
  foreign entries =
      let snapshot = canonical_snapshot lib (some packet_table) entries in
      record {
        sha256 = snapshot.0;
        semantic_sha256 = semantic_snapshot lib (some packet_table) entries;
        counts = snapshot.1;
      }

  -- Behind an observation that is not of the preimage: the last attempt, or one more read.
  abbrev after_observation : ℕ → ℕ → List Observation → (List Fields → Waited) → Waited
  after_observation zero attempt observations again = drifted observations
  after_observation (suc left) attempt observations again = elim (reads attempt) [
    | none ↦
        waited
          (observations
            ++ (failed_observation (suc (suc attempt)) false false query_failed
                  "FIREWALL_INSPECTION_FAILED"
                ∷ []))
          query_failed (refused "FIREWALL_INSPECTION_FAILED")
    | some entries ↦ again entries
  ]

  abbrev checked_turn :
      ℕ
      → ℕ
      → List Fields
      → Option Foreign
      → List Observation
      → (Foreign → List Observation → List Fields → Waited)
      → Checked (Unit {0})
      → Waited
  checked_turn left attempt entries prior observations again type_error = record {
    observations = observations;
    summary = none;
    ending = broken;
  }
  checked_turn left attempt entries prior observations again (rejected code) =
      waited
        (observations
          ++ (failed_observation (suc attempt) true
                (not (is_nil (owned_entries entries packet_table))) owned_shape_failed code
              ∷ []))
        owned_shape_failed (refused code)
  checked_turn left attempt entries prior observations again (passed _) =
      let f = foreign entries in
      let o =
        observe (suc attempt) ledger (not (is_nil (owned_entries entries packet_table))) prior f in
      let more = observations ++ (o ∷ []) in
      if is_preimage ledger f
      then waited more pre_network (restored entries (owned_entries entries packet_table))
      else after_observation left attempt more (again f more)

  -- `left` attempts are left behind `attempt` of them.
  unfoldable pub wait_from : ℕ → ℕ → List Fields → Option Foreign → List Observation → Waited
  unfolding owned_check foreign owned_entries
  wait_from zero attempt entries prior observations = drifted observations
  wait_from (suc left) attempt entries prior observations =
      checked_turn left attempt entries prior observations
        (λ f more next. wait_from left (suc attempt) next (some f) more) (owned_check entries)

  unfoldable pub wait_for_restoration_preimage : List Fields → Waited
  unfolding wait_from
  wait_for_restoration_preimage entries = wait_from poll_attempts 0 entries none []
