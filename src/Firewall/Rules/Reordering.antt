-- ===== src/Firewall/Rules/Reordering.antt =====
-- Which reorderings of a rule set keep its semantic snapshot.
use hosted_replay_harness.Firewall.Rules.{
  Library, Gathered, canonical_entry, canonical_json_sha256, gather, is_retained, normalized,
  note_entry, note_in, nothing_gathered, rule_key, semantic_snapshot,
}
use hosted_replay_harness.Prelude.{
  Bool, List, Option, String, [], ap, false, if◌then◌else◌, none, not, refl, some, str_eq, sym,
  true, ◌++◌, ◌∙◌, ◌∷◌, ◌≡◌, arith,
}
use hosted_replay_harness.Value.{Fields, Value}
use hosted_replay_harness.TextOrder.Groups.{
  Groups, insert_at, place-place, sorted_groups, sorted_groups-append_at, insert_at-insert_at,
}
use hosted_replay_harness.TextOrder.{place, sorted}

-- A sorted list with one more text.
sorted-append : (ss : List String) (x : String) → sorted (ss ++ (x ∷ [])) ≡ place x (sorted ss)
unfolding sorted
sorted-append [] x = refl
sorted-append (s ∷ ss) x = ap (place s) (sorted-append ss x) ∙ place-place s x (sorted ss)

not-true : (t : Bool) → not t ≡ true → t ≡ false
not-true t h = ground arith

module _ (lib : Library) where
  -- Two entries whose order says nothing: not both are rules, or their chains differ.
  abbrev are_apart : Option String → Option String → Bool
  are_apart none k = true
  are_apart (some j) none = true
  are_apart (some j) (some k) = not (str_eq j k)

  abbrev pub are_independent : Fields → Fields → Bool
  are_independent a b = are_apart (rule_key lib a) (rule_key lib b)

  -- Entries that are independent may change places, one pair at a time.
  pub data Reordered : List Fields → List Fields → Type 0 where
    swapped :
        {a b : Fields} {rest : List Fields}
        → are_independent a b ≡ true
        → Reordered (a ∷ (b ∷ rest)) (b ∷ (a ∷ rest))
    behind : {a : Fields} {l m : List Fields} → Reordered l m → Reordered (a ∷ l) (a ∷ m)
    in_turn : {l m n : List Fields} → Reordered l m → Reordered m n → Reordered l n
    unchanged : {l : List Fields} → Reordered l l

  -- What the snapshot hashes of the two lists, and what one entry does to it.
  abbrev Normal : Type 0
  Normal = List String × Groups Value

  abbrev normal : Gathered → Normal
  normal g = (sorted g.non_rules, sorted_groups g.rule_groups)

  abbrev note_normal : Option String → Fields → Normal → Normal
  note_normal none entry n = (place (lib.json_dumps (canonical_entry lib entry)) n.0, n.1)
  note_normal (some k) entry n = (n.0, insert_at k (canonical_entry lib entry) n.1)

  noted :
      (k : Option String) (entry : Fields) (g : Gathered)
      → normal (note_in lib k entry g) ≡ note_normal k entry (normal g)
  noted none entry g = ap (λ ss. (ss, sorted_groups g.rule_groups)) (sorted-append g.non_rules _)
  noted (some k) entry g =
      ap (λ gs. (sorted g.non_rules, gs)) (sorted_groups-append_at k _ g.rule_groups)

  swapped_notes :
      (j k : Option String) (a b : Fields) (n : Normal)
      → are_apart j k ≡ true
      → note_normal k b (note_normal j a n) ≡ note_normal j a (note_normal k b n)
  swapped_notes none none a b n h = ap (λ ss. (ss, n.1)) (place-place _ _ n.0)
  swapped_notes none (some k) a b n h = refl
  swapped_notes (some j) none a b n h = refl
  swapped_notes (some j) (some k) a b n h =
      ap (λ gs. (n.0, gs)) (sym (insert_at-insert_at j k _ _ n.1 (not-true (str_eq j k) h)))

  abbrev step : Option String → Fields → Normal → Normal
  step exclude entry n =
      if is_retained exclude entry then note_normal (rule_key lib entry) entry n else n

  steps : Option String → List Fields → Normal → Normal
  steps exclude [] n = n
  steps exclude (entry ∷ entries) n = steps exclude entries (step exclude entry n)

  gather-steps :
      (exclude : Option String) (entries : List Fields) (g : Gathered)
      → normal (gather lib exclude entries g) ≡ steps exclude entries (normal g)
  unfolding gather steps
  gather-steps exclude [] g = refl
  gather-steps exclude (entry ∷ entries) g =
      gather-steps exclude entries _
      ∙ ap (steps exclude entries) (by_test (is_retained exclude entry))
    where
      by_test :
          (t : Bool)
          → normal (if t then note_entry lib entry g else g)
            ≡ (if t then note_normal (rule_key lib entry) entry (normal g) else normal g)
      by_test true = noted (rule_key lib entry) entry g
      by_test false = refl

  steps-swap :
      (exclude : Option String) (a b : Fields) (n : Normal)
      → are_independent a b ≡ true
      → step exclude b (step exclude a n) ≡ step exclude a (step exclude b n)
  steps-swap exclude a b n h = by_test (is_retained exclude a) (is_retained exclude b)
    where
      by_test :
          (s t : Bool)
          → (if t
              then note_normal
                  (rule_key lib b)
                  b
                  (if s then note_normal (rule_key lib a) a n else n)
              else if s
              then note_normal (rule_key lib a) a n
              else n)
            ≡ (if s
                then note_normal
                    (rule_key lib a)
                    a
                    (if t then note_normal (rule_key lib b) b n else n)
                else if t
                then note_normal (rule_key lib b) b n
                else n)
      by_test true true = swapped_notes (rule_key lib a) (rule_key lib b) a b n h
      by_test true false = refl
      by_test false t = refl

  Reordered-steps :
      (exclude : Option String) {l m : List Fields} (n : Normal)
      → Reordered l m
      → steps exclude l n ≡ steps exclude m n
  unfolding steps
  Reordered-steps exclude n (swapped {a} {b} {rest} h) =
      ap (steps exclude rest) (steps-swap exclude _ _ n h)
  Reordered-steps exclude n (behind r) = Reordered-steps exclude _ r
  Reordered-steps exclude n (in_turn r s) =
      Reordered-steps exclude n r ∙ Reordered-steps exclude n s
  Reordered-steps exclude n unchanged = refl

  -- The semantic snapshot of a rule set stays the same where entries change places, one
  -- neighbouring pair after the other, of which not both are rules or which are rules of different
  -- chains.
  pub semantic_snapshot-Reordered :
      (exclude : Option String) (l m : List Fields)
      → Reordered l m
      → semantic_snapshot lib exclude l ≡ semantic_snapshot lib exclude m
  unfolding semantic_snapshot
  semantic_snapshot-Reordered exclude l m r =
      let start = normal nothing_gathered in
      ap (λ n. canonical_json_sha256 lib (normalized n.0 n.1))
        (gather-steps exclude l nothing_gathered
          ∙ Reordered-steps exclude start r
          ∙ sym (gather-steps exclude m nothing_gathered))
