-- ===== src/TextOrder/Groups.antt =====
-- Values in groups by a text, and the groups sorted; texts and values come in any order that keeps
-- that of each group.
use hosted_replay_harness.Prelude.{
  Bool, List, String, [], arith, false, if◌then◌else◌, refl, str_eq, sym, true, ◌++◌, ◌∷◌, ◌≡◌, ap,
  eq_iff, ◌∙◌,
}
use hosted_replay_harness.TextOrder.{
  is_before-asymmetric, is_before-total, is_before-transitive, place, is_before,
  is_before-irreflexive, str_eq_self, Below, Compared, above, below, compared, same,
  is_before-Below,
}

-- `place` in two orders.
between-place :
    (a b : String) (ts : List String)
    → is_before a b ≡ true
    → place a (place b ts) ≡ place b (place a ts)
unfolding place
between-place a b [] h = rw (is_before-asymmetric a b h) (rw h refl)
between-place a b (t ∷ ts) h =
    ground (arith, is_before-asymmetric a b h, is_before-transitive t a b, between-place a b ts h)

pub place-place : (a b : String) (ts : List String) → place a (place b ts) ≡ place b (place a ts)
place-place a b ts = by_cases (is_before a b) (is_before b a) refl refl
  where
    by_cases :
        (x y : Bool)
        → is_before a b ≡ x
        → is_before b a ≡ y
        → place a (place b ts) ≡ place b (place a ts)
    by_cases true y e f = between-place a b ts e
    by_cases false true e f = sym (between-place b a ts f)
    by_cases false false e f = rw (is_before-total a b e f) refl

-- A dict from texts to lists.
abbrev pub Groups : Type 0 → Type 0
Groups V = List (String × List V)

module _ {V : Type 0} where
  -- `groups.setdefault(k, []).append(v)`
  unfoldable pub append_at : String → V → Groups V → Groups V
  append_at k v [] = (k, v ∷ []) ∷ []
  append_at k v ((j, vs) ∷ rest) =
      let more = append_at k v rest in
      if str_eq j k then (j, vs ++ (v ∷ [])) ∷ rest else (j, vs) ∷ more

  unfoldable pub place_group : String → List V → Groups V → Groups V
  place_group k vs [] = (k, vs) ∷ []
  place_group k vs ((j, ws) ∷ rest) =
      let more = place_group k vs rest in
      if is_before j k then (j, ws) ∷ more else (k, vs) ∷ ((j, ws) ∷ rest)

  -- The groups of `sorted(groups)`.
  unfoldable pub sorted_groups : Groups V → Groups V
  unfolding place_group
  sorted_groups [] = []
  sorted_groups ((k, vs) ∷ rest) = place_group k vs (sorted_groups rest)

  -- A value put into its group among sorted groups.
  unfoldable pub insert_at : String → V → Groups V → Groups V
  insert_at k v [] = (k, v ∷ []) ∷ []
  insert_at k v ((j, vs) ∷ rest) =
      let more = insert_at k v rest in
      if is_before j k
      then (j, vs) ∷ more
      else if str_eq j k
      then (j, vs ++ (v ∷ [])) ∷ rest
      else (k, v ∷ []) ∷ ((j, vs) ∷ rest)

  insert_at-place_group :
      (k : String) (v : V) (vs : List V) (l : Groups V)
      → insert_at k v (place_group k vs l) ≡ place_group k (vs ++ (v ∷ [])) l
  unfolding insert_at place_group
  insert_at-place_group k v vs [] = rw (is_before-irreflexive k) (rw (str_eq_self k) refl)
  insert_at-place_group k v vs ((j, ws) ∷ l) =
      by_cases (is_before j k) refl (insert_at-place_group k v vs l)
    where
      by_cases :
          (x : Bool)
          → is_before j k ≡ x
          → insert_at k v (place_group k vs l) ≡ place_group k (vs ++ (v ∷ [])) l
          → insert_at k v (place_group k vs ((j, ws) ∷ l))
            ≡ place_group k (vs ++ (v ∷ [])) ((j, ws) ∷ l)
      by_cases true e ih = rw e (rw e (ap (λ m. (j, ws) ∷ m) ih))
      by_cases false e ih = rw e (rw (is_before-irreflexive k) (rw (str_eq_self k) refl))

  place_group-insert_at :
      (j k : String) (v : V) (vs : List V) (l : Groups V)
      → str_eq j k ≡ false
      → place_group j vs (insert_at k v l) ≡ insert_at k v (place_group j vs l)
  unfolding insert_at place_group
  place_group-insert_at j k v vs [] h = at_end (compared j k)
    where
      at_end :
          Compared j k → place_group j vs (insert_at k v []) ≡ insert_at k v (place_group j vs [])
      at_end (below b) = simp (b.lt, b.not_gt)
      at_end (same e) = cc (sym h ∙ (eq_iff j k).1 e)
      at_end (above b) = simp (b.lt, b.not_gt, h)
  place_group-insert_at j k v vs ((i, ws) ∷ l) h =
      by_place (compared j k) (compared i j) (compared i k) (place_group-insert_at j k v vs l h)
    where
      by_place :
          Compared j k
          → Compared i j
          → Compared i k
          → place_group j vs (insert_at k v l) ≡ insert_at k v (place_group j vs l)
          → place_group j vs (insert_at k v ((i, ws) ∷ l))
            ≡ insert_at k v (place_group j vs ((i, ws) ∷ l))
      by_place (same e) x y ih = cc (sym h ∙ (eq_iff j k).1 e)
      by_place (below b) (below x) y ih = simp (x.lt, is_before-transitive i j k x.lt b.lt, ih)
      by_place (below b) (same x) y ih = simp (x, b.lt, is_before-irreflexive j)
      by_place (below b) (above x) (below y) ih = simp (x.not_gt, y.lt, b.lt)
      by_place (below b) (above x) (same y) ih =
          simp (y, is_before-irreflexive k, str_eq_self k, b.lt, b.not_gt)
      by_place (below b) (above x) (above y) ih =
          simp (x.not_gt, y.not_gt, y.not_same_back, b.lt, b.not_gt)
      by_place (above b) (below x) (below y) ih = simp (x.lt, y.lt, ih)
      by_place (above b) (below x) (same y) ih =
          simp (y, is_before-irreflexive k, str_eq_self k, b.lt)
      by_place (above b) (below x) (above y) ih = simp (x.lt, y.not_gt, y.not_same_back, b.lt)
      by_place (above b) (same x) y ih =
          simp (x, b.not_gt, b.not_same_back, b.lt, is_before-irreflexive j)
      by_place (above b) (above x) y ih =
          let z = is_before-Below k i (is_before-transitive k j i b.lt x.lt) in
          simp (x.not_gt, z.not_gt, z.not_same_back, b.lt, b.not_gt, b.not_same_back)

  lower-insert_at :
      (j k : String) (v w : V) (l : Groups V)
      → Below j k
      → insert_at j v (insert_at k w l) ≡ insert_at k w (insert_at j v l)
  unfolding insert_at
  lower-insert_at j k v w [] b = rw b.lt (rw b.not_gt (rw b.not_same_back refl))
  lower-insert_at j k v w ((i, ws) ∷ l) b =
      by_place (compared i j) (compared i k) (lower-insert_at j k v w l b)
    where
      by_place :
          Compared i j
          → Compared i k
          → insert_at j v (insert_at k w l) ≡ insert_at k w (insert_at j v l)
          → insert_at j v (insert_at k w ((i, ws) ∷ l))
            ≡ insert_at k w (insert_at j v ((i, ws) ∷ l))
      by_place (below a) c ih =
          let through = is_before-transitive i j k a.lt b.lt in
          rw a.lt (rw through (rw a.lt (ap (λ m. (i, ws) ∷ m) ih)))
      by_place (same a) c ih = simp (a, b.lt, is_before-irreflexive j, str_eq_self j)
      by_place (above a) (below c) ih = simp (a.not_gt, a.not_same_back, c.lt, b.lt)
      by_place (above a) (same c) ih =
          simp (c, is_before-irreflexive k, str_eq_self k, b.lt, b.not_gt, b.not_same_back)
      by_place (above a) (above c) ih =
          simp
            (a.not_gt, a.not_same_back, c.not_gt, c.not_same_back, b.lt, b.not_gt, b.not_same_back)

  -- Values of different groups are put in in either order.
  pub insert_at-insert_at :
      (j k : String) (v w : V) (l : Groups V)
      → str_eq j k ≡ false
      → insert_at j v (insert_at k w l) ≡ insert_at k w (insert_at j v l)
  insert_at-insert_at j k v w l h = by_place (compared j k)
    where
      by_place : Compared j k → insert_at j v (insert_at k w l) ≡ insert_at k w (insert_at j v l)
      by_place (below b) = lower-insert_at j k v w l b
      by_place (same e) = cc (sym h ∙ (eq_iff j k).1 e)
      by_place (above b) = sym (lower-insert_at k j w v l b)

  pub sorted_groups-append_at :
      (k : String) (v : V) (l : Groups V)
      → sorted_groups (append_at k v l) ≡ insert_at k v (sorted_groups l)
  unfolding sorted_groups append_at insert_at place_group
  sorted_groups-append_at k v [] = refl
  sorted_groups-append_at k v ((j, vs) ∷ l) =
      by_test (str_eq j k) refl (sorted_groups-append_at k v l)
    where
      by_test :
          (t : Bool)
          → str_eq j k ≡ t
          → sorted_groups (append_at k v l) ≡ insert_at k v (sorted_groups l)
          → sorted_groups (append_at k v ((j, vs) ∷ l))
            ≡ insert_at k v (sorted_groups ((j, vs) ∷ l))
      by_test true e ih =
          rw e (rw ((eq_iff j k).0 e) (sym (insert_at-place_group k v vs (sorted_groups l))))
      by_test false e ih =
          rw e (ap (place_group j vs) ih ∙ place_group-insert_at j k v vs (sorted_groups l) e)
