-- ===== src/Firewall/Rules.antt =====
-- `parse_ruleset`, the entries of a table, and the two snapshots of a rule set.
pub mod Reordering
use hosted_replay_harness.Options.{◌>>=◌}
use hosted_replay_harness.Prelude.{
  Bool, List, Option, String, [], any, false, if◌then◌else◌, none, not, some, str_eq, suc, ℕ, ◌&&◌,
  ◌++◌, ◌||◌, ◌∷◌,
}
use hosted_replay_harness.Value.{
  Fields, Items, Value, among, as_dict, as_list, as_text, cons, dict, end, field, get, has,
  is_text_of, list, nil, text, is_text_in,
}
use hosted_replay_harness.TextOrder.Groups.{Groups, append_at, sorted_groups}
use hosted_replay_harness.TextOrder.{is_before, sorted}

-- What firewall_boundary.py takes from `json` and `hashlib`.
pub record Library : Type 0 where
  -- `json.loads`; `none` is `JSONDecodeError` or `TypeError`. Other exceptions are not modelled.
  pub json_loads : String → Option Value
  -- `json.dumps(value, sort_keys=True, separators=(",", ":"))`
  pub json_dumps : Value → String
  -- `hashlib.sha256(text.encode("utf-8")).hexdigest()`
  pub sha256 : String → String

abbrev dicts_in : Items → Option (List Fields)
dicts_in nil = some []
dicts_in (cons (dict fs) xs) = let more = dicts_in xs in more >>= λ rest. some (fs ∷ rest)
dicts_in (cons _ xs) = none

-- `none` is FIREWALL_INSPECTION_FAILED.
unfoldable pub parse_ruleset : Library → String → Option (List Fields)
parse_ruleset lib raw = do
  parsed ← lib.json_loads raw
  fs ← as_dict parsed
  xs ← as_list (get "nftables" fs)
  dicts_in xs

unfoldable pub table_identity : Fields → Option (String × String)
table_identity entry = do
  table ← as_dict (get "table" entry)
  family ← as_text (get "family" table)
  name ← as_text (get "name" table)
  some (family, name)

-- The values of an entry that are of the table.
abbrev is_of_table : String → Value → Bool
is_of_table table_name (dict payload) =
    is_text_of "inet" (get "family" payload) && is_text_of table_name (get "table" payload)
is_of_table table_name _ = false

abbrev any_of_table : String → Fields → Bool
any_of_table table_name end = false
any_of_table table_name (field _ v fs) = is_of_table table_name v || any_of_table table_name fs

abbrev is_inet : String → Option (String × String) → Bool
is_inet table_name none = false
is_inet table_name (some (family, name)) = str_eq family "inet" && str_eq name table_name

unfoldable pub belongs_to_table : String → Fields → Bool
unfolding table_identity
belongs_to_table table_name entry =
    any_of_table table_name entry || is_inet table_name (table_identity entry)

abbrev volatile : List String
volatile = "handle" ∷ "packets" ∷ "bytes" ∷ []

-- One item put into its place among the items that are sorted by key.
unfoldable place_field : String → Value → Fields → Fields
place_field k v end = field k v end
place_field k v (field j w fs) =
    let more = place_field k v fs in
    if is_before j k then field j w more else field k v (field j w fs)

unfoldable mutual
  unfolding place_field

  pub canonicalize : Value → Value
  canonicalize (dict fs) = dict (canonical_fields fs)
  canonicalize (list xs) = list (canonical_items xs)
  canonicalize v = v

  pub canonical_items : Items → Items
  canonical_items nil = nil
  canonical_items (cons v xs) = cons (canonicalize v) (canonical_items xs)

  pub canonical_fields : Fields → Fields
  canonical_fields end = end
  canonical_fields (field k v fs) =
      if among k volatile
      then canonical_fields fs
      else place_field k (canonicalize v) (canonical_fields fs)

-- A dict from kinds to counts.
abbrev pub Counts : Type 0
Counts = List (String × ℕ)

-- `counts[kind] = counts.get(kind, 0) + 1`
abbrev counted : String → Counts → Counts
counted kind [] = (kind, 1) ∷ []
counted kind ((k, n) ∷ rest) =
    let more = counted kind rest in if str_eq k kind then (k, suc n) ∷ rest else (k, n) ∷ more

abbrev count_kinds : Fields → Counts → Counts
count_kinds end counts = counts
count_kinds (field kind _ fs) counts = count_kinds fs (counted kind counts)

abbrev place_count : String × ℕ → Counts → Counts
place_count c [] = c ∷ []
place_count c (d ∷ ds) =
    let more = place_count c ds in if is_before d.0 c.0 then d ∷ more else c ∷ (d ∷ ds)

-- `dict(sorted(counts.items()))`
abbrev sorted_counts : Counts → Counts
sorted_counts [] = []
sorted_counts (c ∷ cs) = place_count c (sorted_counts cs)

abbrev is_excluded : Option String → Fields → Bool
is_excluded none entry = false
is_excluded (some table_name) entry = belongs_to_table table_name entry

-- The entries that a snapshot reads.
abbrev pub is_retained : Option String → Fields → Bool
is_retained exclude entry = not (has "metainfo" entry) && not (is_excluded exclude entry)

abbrev retained_in : Option String → List Fields → List Fields
retained_in exclude [] = []
retained_in exclude (entry ∷ entries) =
    let rest = retained_in exclude entries in
    if is_retained exclude entry then entry ∷ rest else rest

abbrev canonical_list : List Fields → Items
canonical_list [] = nil
canonical_list (entry ∷ entries) = cons (dict (canonical_fields entry)) (canonical_list entries)

abbrev counts_of : List Fields → Counts → Counts
counts_of [] counts = counts
counts_of (entry ∷ entries) counts = counts_of entries (count_kinds entry counts)

-- The lists that `semantic_snapshot` builds.
pub record Gathered : Type 0 where
  pub non_rules : List String
  pub rule_groups : Groups Value

abbrev texts : List String → Items
texts [] = nil
texts (s ∷ ss) = cons (text s) (texts ss)

abbrev values : List Value → Items
values [] = nil
values (v ∷ vs) = cons v (values vs)

abbrev group_items : Groups Value → Items
group_items [] = nil
group_items ((identity, rules) ∷ rest) =
    cons (dict (field "identity" (text identity) (field "rules" (list (values rules)) end)))
      (group_items rest)

abbrev pub normalized : List String → Groups Value → Value
normalized non_rules rule_groups = dict (
    field "non_rules" (list (texts non_rules))
      (field "rule_groups" (list (group_items rule_groups)) end))

abbrev pub nothing_gathered : Gathered
nothing_gathered = record { non_rules = []; rule_groups = [] }

module _ (lib : Library) where
  abbrev pub canonical_json_sha256 : Value → String
  canonical_json_sha256 v = lib.sha256 (lib.json_dumps v)

  unfoldable pub canonical_snapshot : Option String → List Fields → String × Counts
  unfolding belongs_to_table canonicalize
  canonical_snapshot exclude entries =
      let retained = retained_in exclude entries in
      (
        canonical_json_sha256 (list (canonical_list retained)),
        sorted_counts (counts_of retained []),
      )

  -- The chain of a rule, as JSON; `none` where the entry has no rule.
  abbrev pub rule_key : Fields → Option String
  rule_key entry = elim (as_dict (get "rule" (canonical_fields entry))) [
    | none ↦ none
    | some rule ↦ some (
        lib.json_dumps
          (list (cons (get "family" rule) (cons (get "table" rule) (cons (get "chain" rule) nil)))))
  ]

  abbrev pub canonical_entry : Fields → Value
  canonical_entry entry = dict (canonical_fields entry)

  abbrev note_in : Option String → Fields → Gathered → Gathered
  note_in none entry g = record g {
    non_rules = g.non_rules ++ (lib.json_dumps (canonical_entry entry) ∷ []);
  }
  note_in (some k) entry g = record g {
    rule_groups = append_at k (canonical_entry entry) g.rule_groups;
  }

  abbrev pub note_entry : Fields → Gathered → Gathered
  note_entry entry g = note_in (rule_key entry) entry g

  -- The loop of `semantic_snapshot`.
  unfoldable pub gather : Option String → List Fields → Gathered → Gathered
  unfolding belongs_to_table canonicalize append_at
  gather exclude [] g = g
  gather exclude (entry ∷ entries) g =
      gather exclude entries (if is_retained exclude entry then note_entry entry g else g)

  unfoldable pub semantic_snapshot : Option String → List Fields → String
  unfolding gather sorted sorted_groups
  semantic_snapshot exclude entries =
      let g = gather exclude entries nothing_gathered in
      canonical_json_sha256 (normalized (sorted g.non_rules) (sorted_groups g.rule_groups))

unfoldable pub owned_entries : List Fields → String → List Fields
unfolding belongs_to_table
owned_entries [] table_name = []
owned_entries (entry ∷ entries) table_name =
    let rest = owned_entries entries table_name in
    if belongs_to_table table_name entry then entry ∷ rest else rest

abbrev marker_chains : List String
marker_chains = "canary_input" ∷ "canary_forward" ∷ "canary_output" ∷ []

abbrev pub marker_counters : List String
marker_counters =
    "marker_same_network" ∷ "marker_external_dns" ∷ "marker_literal_ip" ∷ "marker_metadata"
    ∷ "marker_gateway" ∷ "marker_host_listener" ∷ "marker_foreign_network" ∷ []

-- `isinstance(value, dict) and value.get(k) in names`; a list or a dict there, at which the code
-- raises TypeError, is not among the names.
abbrev names_one : String → List String → Value → Bool
names_one k names (dict fs) = is_text_in names (get k fs)
names_one k names _ = false

abbrev is_marker : Fields → Bool
is_marker entry =
    names_one "name" marker_chains (get "chain" entry)
    || (names_one "name" marker_counters (get "counter" entry)
        || names_one "chain" marker_chains (get "rule" entry))

abbrev markers_in : List Fields → List Fields
markers_in [] = []
markers_in (entry ∷ entries) =
    let rest = markers_in entries in if is_marker entry then entry ∷ rest else rest

unfoldable pub marker_entries : List Fields → String → List Fields
unfolding owned_entries
marker_entries entries table_name = markers_in (owned_entries entries table_name)
