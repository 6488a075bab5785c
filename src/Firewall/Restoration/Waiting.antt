-- ===== src/Firewall/Restoration/Waiting.antt =====
-- When the wait ends, and what it has seen then.
use mathlib.Core.Path.{subst}
use hosted_replay_harness.Firewall.Rules.{Library, owned_entries}
use hosted_replay_harness.Firewall.Checked.{type_error, Checked, passed, rejected}
use hosted_replay_harness.Value.{Fields}
use hosted_replay_harness.Firewall.Restoration.{
  is_nil, Foreign, Observation, Waited, after_observation, checked_turn, foreign, is_preimage,
  owned_check, restored, failed_observation, observe, poll_attempts, pre_network, query_failed,
  refused, wait_for_restoration_preimage, wait_from, waited,
}
use hosted_replay_harness.Firewall.Ledger.{Ledger}
use hosted_replay_harness.Prelude.{
  List, Option, ap, inl, inr, some, sym, true, ℕ, ◌∙◌, ◌≡◌, ◌⊎◌, Bool, [], false, if◌then◌else◌,
  length, none, not, refl, suc, zero, ◌++◌, ◌+◌, ◌∷◌, ◌≤◌, arith, length-append,
}
use hosted_replay_harness.Firewall.Owned.{packet_table}

restored_same :
    {es fs ss ts : List Fields} → restored es ss ≡ restored fs ts → (es ≡ fs) × (ss ≡ ts)
restored_same h = (cc, cc)

module _ (lib : Library) (ledger : Ledger) (reads : ℕ → Option (List Fields)) where
  -- What holds of the entries that the wait returns.
  pub record IsRestored (first es selected : List Fields) : Type 0 where
    pub is_read : (es ≡ first) ⊎ ((k : ℕ) × (reads k ≡ some es))
    pub owned : owned_check lib ledger reads es ≡ passed tt
    pub foreign_is_back : is_preimage ledger (foreign lib ledger reads es) ≡ true
    pub is_selected : selected ≡ owned_entries es packet_table

  abbrev Goal : List Fields → Waited → Type 0
  Goal first w =
      (es selected : List Fields) → w.ending ≡ restored es selected → IsRestored first es selected

  from_read :
      {first next es selected : List Fields} (k : ℕ)
      → reads k ≡ some next
      → IsRestored next es selected
      → IsRestored first es selected
  from_read {first} {next} {es} k h r = record {
    is_read = by_origin r.is_read;
    owned = r.owned;
    foreign_is_back = r.foreign_is_back;
    is_selected = r.is_selected;
  }
    where
      by_origin :
          (es ≡ next) ⊎ ((k : ℕ) × (reads k ≡ some es))
          → (es ≡ first) ⊎ ((k : ℕ) × (reads k ≡ some es))
      by_origin (inl e) = inr (k, h ∙ ap some (sym e))
      by_origin (inr o) = inr o

  module _ (attempt : ℕ) (entries : List Fields) (prior : Option Foreign)
      (observations : List Observation) where
    after-IsRestored :
        (left : ℕ) (more : List Observation) (again : List Fields → Waited)
        → ((next : List Fields) → Goal next (again next))
        → Goal entries (after_observation lib ledger reads left attempt more again)
    after-IsRestored zero more again ih es selected h = cc
    after-IsRestored (suc left) more again ih es selected h = by_read (reads attempt) refl h
      where
        by_read :
            (m : Option (List Fields))
            → reads attempt ≡ m
            → (elim m as (λ _. Waited) [
              | none ↦
                  waited
                    (more
                      ++ (failed_observation
                            (suc (suc attempt))
                            false
                            false
                            query_failed
                            "FIREWALL_INSPECTION_FAILED"
                          ∷ []))
                    query_failed
                    (refused "FIREWALL_INSPECTION_FAILED")
              | some next ↦ again next
            ]).ending
              ≡ restored es selected
            → IsRestored entries es selected
        by_read none e g = cc
        by_read (some next) e g = from_read attempt e (ih next es selected g)

    turn-IsRestored :
        (left : ℕ) (again : Foreign → List Observation → List Fields → Waited)
        → ((f : Foreign) (more : List Observation) (next : List Fields)
            → Goal next (again f more next))
        → (c : Checked (Unit {0})) → owned_check lib ledger reads entries ≡ c
        → Goal entries
            (checked_turn lib ledger reads left attempt entries prior observations again c)
    turn-IsRestored left again ih type_error e es selected h = cc
    turn-IsRestored left again ih (rejected code) e es selected h = cc
    turn-IsRestored left again ih (passed u) e es selected h =
        by_preimage (is_preimage ledger f) refl h
      where
        f : Foreign
        f = foreign lib ledger reads entries

        more : List Observation
        more =
            observations
            ++ (observe (suc attempt) ledger (not (is_nil (owned_entries entries packet_table)))
                  prior f
                ∷ [])

        by_preimage :
            (t : Bool)
            → is_preimage ledger f ≡ t
            → (if t
                then waited more pre_network (restored entries (owned_entries entries packet_table))
                else after_observation lib ledger reads left attempt more (again f more)).ending
              ≡ restored es selected
            → IsRestored entries es selected
        by_preimage true g h =
            let (path, path_selected) = restored_same h in
            subst (λ es. IsRestored entries es selected) path
              (record {
                is_read = inl refl;
                owned = e;
                foreign_is_back = g;
                is_selected = sym path_selected;
              })
        by_preimage false g h = after-IsRestored left more (again f more) (ih f more) es selected h

  wait_from-IsRestored :
      (left attempt : ℕ) (entries : List Fields) (prior : Option Foreign)
      (observations : List Observation)
      → Goal entries (wait_from lib ledger reads left attempt entries prior observations)
  unfolding wait_from
  wait_from-IsRestored zero attempt entries prior observations = λ es selected h. cc
  wait_from-IsRestored (suc left) attempt entries prior observations =
      turn-IsRestored attempt entries prior observations left
        (λ f more next. wait_from lib ledger reads left (suc attempt) next (some f) more)
        (λ f more next. wait_from-IsRestored left (suc attempt) next (some f) more)
        (owned_check lib ledger reads entries) refl

  -- If the wait for the restoration returns entries, then they are the first ones or those of a
  -- later read, the table of the packet is missing from them or has passed its check, the digest
  -- and the counts of all other entries are those of the ledger's preimage, and the entries
  -- returned beside them are those of the table.
  pub wait-IsRestored :
      (first es selected : List Fields)
      → (wait_for_restoration_preimage lib ledger reads first).ending ≡ restored es selected
      → IsRestored first es selected
  unfolding wait_for_restoration_preimage
  wait-IsRestored first es selected h =
      wait_from-IsRestored poll_attempts 0 first none [] es selected h

  abbrev seen_by : Waited → ℕ
  seen_by w = length w.observations

  one_more : (os : List Observation) (o : Observation) → length (os ++ (o ∷ [])) ≡ suc (length os)
  one_more os o = omega (arith, length-append os (o ∷ []))

  module _ (n : ℕ) where
    after-bounded :
        (left attempt : ℕ) (more : List Observation) (again : List Fields → Waited)
        → length more + left ≤ n
        → ((next : List Fields) → seen_by (again next) ≤ n)
        → seen_by (after_observation lib ledger reads left attempt more again) ≤ n
    after-bounded zero attempt more again b ih = omega (arith, b)
    after-bounded (suc left) attempt more again b ih = by_read (reads attempt)
      where
        by_read :
            (m : Option (List Fields))
            → seen_by (elim m [
              | none ↦
                  waited
                    (more
                      ++ (failed_observation
                            (suc (suc attempt))
                            false
                            false
                            query_failed
                            "FIREWALL_INSPECTION_FAILED"
                          ∷ []))
                    query_failed
                    (refused "FIREWALL_INSPECTION_FAILED")
              | some next ↦ again next
            ])
              ≤ n
        by_read none = omega (arith, b, one_more more _)
        by_read (some next) = ih next

    turn-bounded :
        (left attempt : ℕ) (entries : List Fields) (prior : Option Foreign)
        (observations : List Observation)
        (again : Foreign → List Observation → List Fields → Waited)
        → length observations + suc left ≤ n
        → ((f : Foreign) (more : List Observation) (next : List Fields)
            → length more + left ≤ n
            → seen_by (again f more next) ≤ n)
        → (c : Checked (Unit {0}))
        → seen_by (checked_turn lib ledger reads left attempt entries prior observations again c)
          ≤ n
    turn-bounded left attempt entries prior observations again b ih type_error = omega (arith, b)
    turn-bounded left attempt entries prior observations again b ih (rejected code) =
        omega (arith, b, one_more observations _)
    turn-bounded left attempt entries prior observations again b ih (passed u) =
        by_preimage (is_preimage ledger f)
      where
        f : Foreign
        f = foreign lib ledger reads entries

        more : List Observation
        more =
            observations
            ++ (observe (suc attempt) ledger (not (is_nil (owned_entries entries packet_table)))
                  prior f
                ∷ [])

        by_preimage :
            (t : Bool)
            → seen_by (
                if t
                then waited more pre_network (restored entries (owned_entries entries packet_table))
                else after_observation lib ledger reads left attempt more (again f more))
              ≤ n
        by_preimage true = omega (arith, b, one_more observations _)
        by_preimage false =
            let longer : length more + left ≤ n = omega (arith, b, one_more observations _) in
            after-bounded left attempt more (again f more) longer (λ next. ih f more next longer)

    wait_from-bounded :
        (left attempt : ℕ) (entries : List Fields) (prior : Option Foreign)
        (observations : List Observation)
        → length observations + left ≤ n
        → seen_by (wait_from lib ledger reads left attempt entries prior observations) ≤ n
    unfolding wait_from
    wait_from-bounded zero attempt entries prior observations b = omega (arith, b)
    wait_from-bounded (suc left) attempt entries prior observations b =
        turn-bounded left attempt entries prior observations
          (λ f more next. wait_from lib ledger reads left (suc attempt) next (some f) more) b
          (λ f more next. wait_from-bounded left (suc attempt) next (some f) more)
          (owned_check lib ledger reads entries)

  -- Whatever the reads give, the wait for the restoration makes at most twenty observations.
  pub wait-bounded :
      (entries : List Fields)
      → length (wait_for_restoration_preimage lib ledger reads entries).observations ≤ poll_attempts
  unfolding wait_for_restoration_preimage
  wait-bounded entries = wait_from-bounded 20 poll_attempts 0 entries none [] (omega arith)
