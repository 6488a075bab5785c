-- ===== src/SortedSet.antt =====
-- `sorted(set(codes))` on the codes of an enumeration, by their place among the sorted texts.
use hosted_replay_harness.Prelude.{
  List, [], arith, if◌then◌else◌, ltb, refl, ℕ, ◌==◌, ◌∷◌, ◌≡◌, ◌≢◌,
}

module _ {A : Type 0} (order : A → ℕ) where
  -- Keeps an ordered list ordered, and adds nothing that is there.
  unfoldable pub insert : A → List A → List A
  insert v [] = v ∷ []
  insert v (w ∷ ws) =
      if ltb (order v) (order w)
      then v ∷ (w ∷ ws)
      else if order v == order w
      then w ∷ ws
      else w ∷ insert v ws

  -- `sorted(set(violations))`
  unfoldable pub sorted_set : List A → List A
  unfolding insert
  sorted_set [] = []
  sorted_set (v ∷ vs) = insert v (sorted_set vs)

  insert-ne-nil : (v : A) (vs : List A) → insert v vs ≢ []
  unfolding insert
  insert-ne-nil v [] h = cc
  insert-ne-nil v (w ∷ ws) h = ground arith

  pub sorted_set-nil : (vs : List A) → sorted_set vs ≡ [] → vs ≡ []
  unfolding sorted_set
  sorted_set-nil [] h = refl
  sorted_set-nil (v ∷ vs) h = absurd (insert-ne-nil v (sorted_set vs) h)
