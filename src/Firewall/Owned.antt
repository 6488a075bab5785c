-- ===== src/Firewall/Owned.antt =====
-- `validate_owned`: the table of the packet has the expected objects and no other.
pub mod Counting
pub mod Exact
use hosted_replay_harness.Firewall.Rules.{
  Library, Counts, canonical_json_sha256, canonical_snapshot, marker_counters, owned_entries,
}
use hosted_replay_harness.Firewall.Checked.{◌>>=◌, Checked, passed, rejected, require, hashed}
use hosted_replay_harness.Prelude.{
  Bool, List, Option, String, [], all, any, false, if◌then◌else◌, length, none, not, some, str_eq,
  suc, true, ℕ, ◌&&◌, ◌++◌, ◌==◌, ◌∷◌,
}
use hosted_replay_harness.Value.{
  Fields, Value, among, as_dict, boolean, cons, dict, end, eq, field, get, has, int, is_text_of,
  list, negsuc, pos, ℤ, is_text_in,
}
use hosted_replay_harness.DockerApi.Json.{has_only}

abbrev pub packet_table : String
packet_table = "fp_hosted_replay_ro_001"

abbrev mismatch : String
mismatch = "FIREWALL_INSTALLATION_MISMATCH"

abbrev expected_counts : Bool → Counts
expected_counts true = ("chain", 6) ∷ ("counter", 10) ∷ ("rule", 14) ∷ ("table", 1) ∷ []
expected_counts false = ("chain", 3) ∷ ("counter", 3) ∷ ("rule", 7) ∷ ("table", 1) ∷ []

abbrev pub count_at : String → Counts → Option ℕ
count_at k [] = none
count_at k ((j, n) ∷ rest) = if str_eq j k then some n else count_at k rest

abbrev is_count : Option ℕ → ℕ → Bool
is_count none n = false
is_count (some m) n = m == n

-- `a == b` on dicts of counts
abbrev pub same_counts : Counts → Counts → Bool
same_counts a b = (length a == length b) && all (λ (k, n). is_count (count_at k b) n) a

abbrev kinds : List String
kinds = "chain" ∷ "counter" ∷ "rule" ∷ "table" ∷ []

-- An entry of one kind, with a dict.
abbrev is_single : Fields → Bool
is_single (field kind (dict payload) end) = among kind kinds
is_single _ = false

abbrev pub of_kind : String → List Fields → List Fields
of_kind kind [] = []
of_kind kind (entry ∷ entries) =
    let rest = of_kind kind entries in
    elim (as_dict (get kind entry)) [ none ↦ rest | some payload ↦ payload ∷ rest ]

-- `_require_exact_keys`
abbrev exact_keys : List String → List String → Fields → Bool
exact_keys required optional payload =
    all (λ k. has k payload) required && has_only (required ++ optional) payload

abbrev is_of : String → Fields → Bool
is_of table_name payload =
    is_text_of "inet" (get "family" payload) && is_text_of table_name (get "table" payload)

-- An `int` that is not negative; a `bool` is one.
abbrev is_natural : Value → Bool
is_natural (int (pos n)) = true
is_natural (boolean b) = true
is_natural _ = false

abbrev is_hashable : Value → Bool
is_hashable (list xs) = false
is_hashable (dict fs) = false
is_hashable v = true

abbrev is_counter : String → Fields → Bool
is_counter table_name counter =
    exact_keys ("family" ∷ "table" ∷ "name" ∷ "packets" ∷ "bytes" ∷ []) ("handle" ∷ []) counter
    && (is_of table_name counter
        && (is_natural (get "packets" counter) && is_natural (get "bytes" counter)))

abbrev pub expected_counters : Bool → List String
expected_counters true =
    "packet_input_deny" ∷ "packet_forward_deny" ∷ "packet_output_deny" ∷ marker_counters
expected_counters false = "packet_input_deny" ∷ "packet_forward_deny" ∷ "packet_output_deny" ∷ []

abbrev pub names_of : String → List Fields → List Value
names_of k [] = []
names_of k (payload ∷ payloads) = get k payload ∷ names_of k payloads

-- `len(names) == len(expected) and set(names) == expected`
abbrev pub are_named : List String → List Value → Bool
are_named expected names =
    (length names == length expected)
    && (all (is_text_in expected) names && all (λ s. any (is_text_of s) names) expected)

abbrev counters_pass : String → Bool → List Fields → Checked (Unit {0})
counters_pass table_name markers counters =
    let names = names_of "name" counters in
    require (all (is_counter table_name) counters) mismatch (
      require (length names == length (expected_counters markers)) mismatch (
        hashed (all is_hashable names)
          (require (are_named (expected_counters markers) names) mismatch (passed tt))))

-- A chain's hook and priority.
pub record Hook : Type 0 where
  pub name : String
  pub hook : String
  pub prio : ℤ

abbrev hook_of : String → String → ℤ → Hook
hook_of name hook prio = record { name = name; hook = hook; prio = prio }

abbrev base_hooks : List Hook
base_hooks =
    hook_of "packet_input" "input" (negsuc 9)
    ∷ hook_of "packet_forward" "forward" (negsuc 9)
    ∷ hook_of "packet_output" "output" (negsuc 9)
    ∷ []

abbrev marker_hooks : List Hook
marker_hooks =
    hook_of "canary_input" "input" (negsuc 19)
    ∷ hook_of "canary_forward" "forward" (negsuc 19)
    ∷ hook_of "canary_output" "output" (negsuc 19)
    ∷ []

abbrev pub expected_hooks : Bool → List Hook
expected_hooks markers = if markers then base_hooks ++ marker_hooks else base_hooks

abbrev hook_names : List Hook → List String
hook_names [] = []
hook_names (h ∷ hs) = h.name ∷ hook_names hs

abbrev is_hooked : Fields → Hook → Bool
is_hooked chain h =
    is_text_of h.name (get "name" chain)
    && (is_text_of h.hook (get "hook" chain) && eq (get "prio" chain) (int h.prio))

abbrev pub is_chain : List Hook → Fields → Bool
is_chain hooks chain =
    is_text_of "filter" (get "type" chain)
    && (any (is_hooked chain) hooks && is_text_of "accept" (get "policy" chain))

abbrev chain_passes : String → List Hook → Fields → Checked (Unit {0})
chain_passes table_name hooks chain =
    require
      (exact_keys ("family" ∷ "table" ∷ "name" ∷ "type" ∷ "hook" ∷ "prio" ∷ "policy" ∷ [])
        ("handle" ∷ []) chain)
      mismatch
      (require (is_of table_name chain) mismatch (
        hashed (is_hashable (get "name" chain))
          (require (is_chain hooks chain) mismatch (passed tt))))

abbrev chains_pass : String → List Hook → List Fields → Checked (Unit {0})
chains_pass table_name hooks [] = passed tt
chains_pass table_name hooks (chain ∷ chains) =
    let rest = chains_pass table_name hooks chains in
    chain_passes table_name hooks chain >>= λ _. rest

abbrev pub expected_rules : Bool → Counts
expected_rules markers =
    let base = ("packet_input", 2) ∷ ("packet_forward", 3) ∷ ("packet_output", 2) ∷ [] in
    if markers
    then base ++ (("canary_input", 2) ∷ ("canary_forward", 4) ∷ ("canary_output", 1) ∷ [])
    else base

-- A rule that was read: its chain and the digest of its expressions.
abbrev pub Seen : Type 0
Seen = List (String × String)

abbrev is_seen : String → String → Seen → Bool
is_seen chain digest seen = any (λ (c, d). str_eq c chain && str_eq d digest) seen

-- `observed_rule_counts[chain]`
abbrev pub rules_of : String → Seen → ℕ
rules_of chain [] = 0
rules_of chain ((c, d) ∷ seen) =
    let rest = rules_of chain seen in if str_eq c chain then suc rest else rest

abbrev is_nonempty : Value → Bool
is_nonempty (list (cons _ _)) = true
is_nonempty _ = false

abbrev text_among : List (String × ℕ) → Value → Option String
text_among [] v = none
text_among ((k, _) ∷ rest) v = if is_text_of k v then some k else text_among rest v

module _ (lib : Library) where
  -- the tests behind that of the chain
  abbrev chain_rule_passes : Option String → Value → Seen → Checked Seen
  chain_rule_passes none expressions seen = rejected mismatch
  chain_rule_passes (some chain) expressions seen =
      let digest = canonical_json_sha256 lib expressions in
      require (is_nonempty expressions) mismatch
        (require (not (is_seen chain digest seen)) mismatch (passed ((chain, digest) ∷ seen)))

  abbrev rule_passes : String → Counts → Fields → Seen → Checked Seen
  rule_passes table_name expected rule seen =
      require (exact_keys ("family" ∷ "table" ∷ "chain" ∷ "expr" ∷ []) ("handle" ∷ []) rule)
        mismatch
        (require (is_of table_name rule) mismatch (
          hashed (is_hashable (get "chain" rule))
            (chain_rule_passes (text_among expected (get "chain" rule)) (get "expr" rule) seen)))

  abbrev rules_pass : String → Counts → List Fields → Seen → Checked Seen
  rules_pass table_name expected [] seen = passed seen
  rules_pass table_name expected (rule ∷ rules) seen =
      rule_passes table_name expected rule seen >>= λ more.
      rules_pass table_name expected rules more

  abbrev is_table : String → Fields → Bool
  is_table table_name payload =
      exact_keys ("family" ∷ "name" ∷ []) ("handle" ∷ []) payload
      && (is_text_of "inet" (get "family" payload) && is_text_of table_name (get "name" payload))

  abbrev table_passes : String → List Fields → Bool
  table_passes table_name [] = false
  table_passes table_name (payload ∷ _) = is_table table_name payload

  unfoldable pub validate_owned : List Fields → String → Bool → Checked (String × Counts)
  unfolding owned_entries canonical_snapshot eq require hashed
  validate_owned entries table_name markers =
      let selected = owned_entries entries table_name in
      let snapshot = canonical_snapshot lib none selected in
      let hooks = expected_hooks markers in
      require (same_counts snapshot.1 (expected_counts markers)) mismatch (
        require (all is_single selected) mismatch (
          require (table_passes table_name (of_kind "table" selected)) mismatch (
            counters_pass table_name markers (of_kind "counter" selected) >>= λ _.
            chains_pass table_name hooks (of_kind "chain" selected) >>= λ _.
            require (are_named (hook_names hooks) (names_of "name" (of_kind "chain" selected)))
              mismatch
              (rules_pass table_name (expected_rules markers) (of_kind "rule" selected) []
                >>= λ seen.
                    require (all (λ (chain, n). rules_of chain seen == n) (expected_rules markers))
                      mismatch (passed snapshot)))))
