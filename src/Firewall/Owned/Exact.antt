-- ===== src/Firewall/Owned/Exact.antt =====
-- What a table that passes `validate_owned` holds.
use hosted_replay_harness.Firewall.Rules.{Library, Counts, owned_entries, canonical_json_sha256}
use hosted_replay_harness.Firewall.Checked.{
  >>=-eq-passed, passed, require-eq-passed, hashed-eq-passed,
}
use hosted_replay_harness.Prelude.{
  Bool, List, String, [], all, arith, false, if◌then◌else◌, refl, some, true, ◌+◌, ◌==◌, ◌∷◌, ◌≡◌,
  Option, ap, eq_iff, none, str_eq, sym, ◌∙◌, ℕ,
}
use hosted_replay_harness.Value.{Fields, Value, among, get, is_text_of, text}
use hosted_replay_harness.Firewall.Owned.{
  names_of, Hook, Seen, are_named, chain_passes, chains_pass, counters_pass, expected_counters,
  expected_hooks, expected_rules, hook_names, is_chain, is_single, mismatch, of_kind, rule_passes,
  rules_of, rules_pass, text_among, chain_rule_passes, validate_owned,
}
use hosted_replay_harness.Firewall.Owned.Counting.{are_distinct, occurrences, bit, are_named-once}

-- The objects of the table are the expected ones.
pub record IsExact (table_name : String) (markers : Bool) (entries : List Fields) : Type 0 where
  pub are_single : all is_single (owned_entries entries table_name) ≡ true
  pub chain_once :
      (s : String)
      → among s (hook_names (expected_hooks markers)) ≡ true
      → occurrences s (names_of "name" (of_kind "chain" (owned_entries entries table_name))) ≡ 1
  pub are_chains :
      all (is_chain (expected_hooks markers)) (of_kind "chain" (owned_entries entries table_name))
      ≡ true
  pub counter_once :
      (s : String)
      → among s (expected_counters markers) ≡ true
      → occurrences s (names_of "name" (of_kind "counter" (owned_entries entries table_name))) ≡ 1
  pub rules_in :
      all
        (λ (chain, n).
          occurrences chain (names_of "chain" (of_kind "rule" (owned_entries entries table_name)))
          == n)
        (expected_rules markers)
      ≡ true

distinct_hooks : (markers : Bool) → are_distinct (hook_names (expected_hooks markers)) ≡ true
distinct_hooks true = refl
distinct_hooks false = refl

distinct_counters : (markers : Bool) → are_distinct (expected_counters markers) ≡ true
distinct_counters true = refl
distinct_counters false = refl

chain_passes-is_chain :
    (table_name : String) (hooks : List Hook) (chain : Fields) (u : Unit {0})
    → chain_passes table_name hooks chain ≡ passed u
    → is_chain hooks chain ≡ true
chain_passes-is_chain table_name hooks chain u h =
    let (_, h₁) = require-eq-passed _ mismatch _ h in
    let (_, h₂) = require-eq-passed _ mismatch _ h₁ in
    (require-eq-passed _ mismatch _ (hashed-eq-passed _ _ h₂)).0

chains_pass-all :
    (table_name : String) (hooks : List Hook) (chains : List Fields) (u : Unit {0})
    → chains_pass table_name hooks chains ≡ passed u
    → all (is_chain hooks) chains ≡ true
chains_pass-all table_name hooks [] u h = refl
chains_pass-all table_name hooks (chain ∷ chains) u h =
    let (v, first, rest) = >>=-eq-passed (chain_passes table_name hooks chain) _ h in
    rw (chain_passes-is_chain table_name hooks chain v first)
      (chains_pass-all table_name hooks chains u rest)

counters_pass-named :
    (table_name : String) (markers : Bool) (counters : List Fields) (u : Unit {0})
    → counters_pass table_name markers counters ≡ passed u
    → are_named (expected_counters markers) (names_of "name" counters) ≡ true
counters_pass-named table_name markers counters u h =
    let (_, h₁) = require-eq-passed _ mismatch _ h in
    let (_, h₂) = require-eq-passed _ mismatch _ h₁ in
    (require-eq-passed _ mismatch _ (hashed-eq-passed _ _ h₂)).0

is_text_of-eq : (s : String) (v : Value) → is_text_of s v ≡ true → v ≡ text s
is_text_of-eq s (text t) h = ap text (sym ((eq_iff s t).0 h))
is_text_of-eq s _ h = cc

some_same : {k j : String} → some j ≡ some k → j ≡ k
some_same h = cc

recounted :
    (f g : String → ℕ)
    → ((s : String) → g s ≡ f s)
    → (expected : Counts) → all (λ (s, n). f s == n) expected ≡ true
    → all (λ (s, n). g s == n) expected ≡ true
recounted f g e [] h = refl
recounted f g e ((s, n) ∷ rest) h = ground (arith, e s, recounted f g e rest)

passed_same {ℓ} : {A : Type ℓ} {a b : A} → passed a ≡ passed b → a ≡ b
passed_same h = cc

text_among-is_text_of :
    (expected : Counts) (v : Value) (k : String) → text_among expected v ≡ some k → v ≡ text k
text_among-is_text_of [] v k h = cc
text_among-is_text_of ((j, n) ∷ rest) v k h =
    by_test (is_text_of j v) refl h (text_among-is_text_of rest v k)
  where
    by_test :
        (t : Bool)
        → is_text_of j v ≡ t
        → (if t then some j else text_among rest v) ≡ some k
        → (text_among rest v ≡ some k → v ≡ text k)
        → v ≡ text k
    by_test true e h f = is_text_of-eq j v e ∙ ap text (some_same h)
    by_test false e h f = f h

module _ (lib : Library) (table_name : String) (expected : Counts) where
  rule_passes-adds :
      (rule : Fields) (seen more : Seen) (chain : String)
      → rule_passes lib table_name expected rule seen ≡ passed more
      → rules_of chain more ≡ bit (is_text_of chain (get "chain" rule)) + rules_of chain seen
  rule_passes-adds rule seen more chain h =
      let (_, h₁) = require-eq-passed _ mismatch _ h in
      let (_, h₂) = require-eq-passed _ mismatch _ h₁ in
      by_chain (text_among expected (get "chain" rule)) refl (hashed-eq-passed _ _ h₂)
    where
      digest : String
      digest = canonical_json_sha256 lib (get "expr" rule)

      added :
          (k : String)
          → rules_of chain ((k, digest) ∷ seen) ≡ bit (str_eq chain k) + rules_of chain seen
      added k = ground (arith, eq_iff chain k, eq_iff k chain)

      by_chain :
          (m : Option String)
          → text_among expected (get "chain" rule) ≡ m
          → chain_rule_passes lib m (get "expr" rule) seen ≡ passed more
          → rules_of chain more ≡ bit (is_text_of chain (get "chain" rule)) + rules_of chain seen
      by_chain none e g = cc
      by_chain (some k) e g =
          let (_, g₁) = require-eq-passed _ mismatch _ g in
          let (_, g₂) = require-eq-passed _ mismatch _ g₁ in
          ap (rules_of chain) (sym (passed_same g₂))
          ∙ added k
          ∙ ap (λ v. bit (is_text_of chain v) + rules_of chain seen)
              (sym (text_among-is_text_of expected (get "chain" rule) k e))

  rules_pass-count :
      (rules : List Fields) (seen last : Seen) (chain : String)
      → rules_pass lib table_name expected rules seen ≡ passed last
      → rules_of chain last ≡ occurrences chain (names_of "chain" rules) + rules_of chain seen
  rules_pass-count [] seen last chain h = omega (arith, ap (rules_of chain) (sym (passed_same h)))
  rules_pass-count (rule ∷ rules) seen last chain h =
      let (more, first, rest) = >>=-eq-passed (rule_passes lib table_name expected rule seen) _ h in
      omega (
        arith,
        rule_passes-adds rule seen more chain first,
        rules_pass-count rules more last chain rest,
      )

  rules_pass-recounted :
      (rules : List Fields) (last : Seen)
      → rules_pass lib table_name expected rules [] ≡ passed last
      → all (λ (s, n). rules_of s last == n) expected ≡ true
      → all (λ (s, n). occurrences s (names_of "chain" rules) == n) expected ≡ true
  rules_pass-recounted rules last e h =
      recounted (λ s. rules_of s last) (λ s. occurrences s (names_of "chain" rules))
        (λ s. omega (arith, rules_pass-count rules [] last s e)) expected h

module _ (lib : Library) where
  -- If validate_owned accepts the entries, then each entry of the table is a dict of one known
  -- kind, each expected chain and each expected counter is there exactly once, every chain has the
  -- filter type, the hook and the priority of its name and the policy accept, and each chain has
  -- its expected number of rules.
  pub validate_owned-IsExact :
      (entries : List Fields) (table_name : String) (markers : Bool) (snapshot : String × Counts)
      → validate_owned lib entries table_name markers ≡ passed snapshot
      → IsExact table_name markers entries
  unfolding validate_owned
  validate_owned-IsExact entries table_name markers snapshot h =
      let (_, h₁) = require-eq-passed _ mismatch _ h in
      let selected = owned_entries entries table_name in
      let (single, h₂) = require-eq-passed _ mismatch _ h₁ in
      let (_, h₃) = require-eq-passed _ mismatch _ h₂ in
      let (u, counters, h₄) =
        >>=-eq-passed (counters_pass table_name markers (of_kind "counter" selected)) _ h₃ in
      let (v, chains, h₅) =
        >>=-eq-passed (chains_pass table_name (expected_hooks markers) (of_kind "chain" selected)) _
          h₄ in
      let (named, h₆) = require-eq-passed _ mismatch _ h₅ in
      let (last, rules, h₇) =
        >>=-eq-passed
          (rules_pass lib table_name (expected_rules markers) (of_kind "rule" selected) []) _ h₆ in
      let (counts, _) = require-eq-passed _ mismatch _ h₇ in
      record {
        are_single = single;
        chain_once = are_named-once _ _ (distinct_hooks markers) named;
        are_chains =
            chains_pass-all table_name (expected_hooks markers) (of_kind "chain" selected) v chains;
        counter_once =
            are_named-once _ _ (distinct_counters markers)
              (counters_pass-named table_name markers (of_kind "counter" selected) u counters);
        rules_in =
            rules_pass-recounted lib table_name (expected_rules markers) (of_kind "rule" selected)
              last rules counts;
      }
