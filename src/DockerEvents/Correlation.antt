-- ===== src/DockerEvents/Correlation.antt =====
-- Which containers the event history and the observer agree on.
use mathlib.Core.Path.{subst}
use hosted_replay_harness.DockerEvents.{
  Action, is_zero, ContainerRole, Event, HistoryReceipt, Python, Run, Tally, action_of,
  after_action, analyze, container_event, container_events, create_action, database_container,
  destroy_action, die_action, event_fields, gotrue_container, history_consistent, identity_digest,
  in_set, live_phase_ids, no_tally, note_action, note_container, note_exit, note_role,
  read_json_lines, role_of_event, same_set, start_action, subset,
}
use hosted_replay_harness.Options.{>>=-eq-some, only_if, only_if-eq-some}
use hosted_replay_harness.Prelude.{
  Bool, Bytes, List, Option, [], ap, arith, codes, equal, equal_iff, false, if◌then◌else◌, length,
  none, refl, some, sym, true, ◌&&◌, ◌+◌, ◌||◌, ◌∙◌, ◌∷◌, ◌≡◌, ◌≤◌,
}
use hosted_replay_harness.Value.{Fields}
use hosted_replay_harness.DockerEvents.Tallies.{
  analyzed, consistent, events-Tallied, some_injective,
}

-- The identifiers of the events with one action, in their order.
abbrev prepended : Option Bytes → List Bytes → List Bytes
prepended none ids = ids
prepended (some id) ids = id ∷ ids

abbrev onto_if : Bool → Bytes → List Bytes → List Bytes
onto_if true id ids = id ∷ ids
onto_if false id ids = ids

abbrev action_name : Action → Bytes
action_name create_action = codes "create"
action_name start_action = codes "start"
action_name die_action = codes "die"
action_name destroy_action = codes "destroy"

-- The first list, turned around, in front of the second.
onto : List Bytes → List Bytes → List Bytes
onto [] ids = ids
onto (id ∷ more) ids = onto more (id ∷ ids)

onto-length : (xs ys : List Bytes) → length (onto xs ys) ≡ length xs + length ys
unfolding onto
onto-length [] ys = omega arith
onto-length (x ∷ xs) ys = omega (arith, onto-length xs (x ∷ ys))

in_set-onto :
    (id : Bytes) (xs ys : List Bytes) → in_set id (onto xs ys) ≡ (in_set id xs || in_set id ys)
unfolding onto
in_set-onto id [] ys = refl
in_set-onto id (x ∷ xs) ys = ground (arith, in_set-onto id xs (x ∷ ys))

and_true : (a b : Bool) → (a && b) ≡ true → (a ≡ true) × (b ≡ true)
and_true a b h = ground arith

in_set-subset :
    (id : Bytes) (xs ys : List Bytes)
    → subset xs ys ≡ true
    → in_set id xs ≡ true
    → in_set id ys ≡ true
in_set-subset id [] ys h k = cc
in_set-subset id (x ∷ xs) ys h k =
    let (here, there) = and_true _ _ h in
    by_test (equal id x) refl here (in_set-subset id xs ys there) k
  where
    by_test :
        (t : Bool)
        → equal id x ≡ t
        → in_set x ys ≡ true
        → (in_set id xs ≡ true → in_set id ys ≡ true)
        → (t || in_set id xs) ≡ true
        → in_set id ys ≡ true
    by_test true e here rest j = subst (λ i. in_set i ys ≡ true) (sym ((equal_iff id x).0 e)) here
    by_test false e here rest j = rest j

same_bool : (a b : Bool) → (a ≡ true → b ≡ true) → (b ≡ true → a ≡ true) → a ≡ b
same_bool true b f g = sym (f refl)
same_bool false true f g = g refl
same_bool false false f g = refl

in_set-same_set :
    (id : Bytes) (xs ys : List Bytes) → same_set xs ys ≡ true → in_set id xs ≡ in_set id ys
in_set-same_set id xs ys h =
    let (there, back) = and_true _ _ h in
    same_bool _ _ (in_set-subset id xs ys there) (in_set-subset id ys xs back)

module _ (py : Python) where
  id_of : Bytes → Option Event → Option Bytes
  id_of name none = none
  id_of name (some e) = if equal e.action name then some (identity_digest py e.object_id) else none

  -- the containers of the events with one action
  pub ids_of : Bytes → List Fields → List Bytes
  ids_of name [] = []
  ids_of name (fs ∷ rest) = prepended (id_of name (event_fields py fs)) (ids_of name rest)

  action_of-name : (s : Bytes) (a : Action) → action_of py s ≡ some a → s ≡ action_name a
  unfolding action_of
  action_of-name s create_action h = ground (arith, equal_iff s (codes "create"))
  action_of-name s start_action h = ground (arith, equal_iff s (codes "start"))
  action_of-name s die_action h = ground (arith, equal_iff s (codes "die"))
  action_of-name s destroy_action h = ground (arith, equal_iff s (codes "destroy"))

  -- What one event adds to the created and the started containers.
  abbrev Adds : Bytes → Bytes → Tally → Tally → Type 0
  Adds name id t u =
      (u.created_ids ≡ onto_if (equal name (codes "create")) id t.created_ids)
      × (u.started_ids ≡ onto_if (equal name (codes "start")) id t.started_ids)

  note_exit-ids :
      (b : Bool) (r : Option ContainerRole) (t : Tally)
      → ((note_exit py b r t).created_ids ≡ t.created_ids)
        × ((note_exit py b r t).started_ids ≡ t.started_ids)
  unfolding note_exit
  note_exit-ids false (some database_container) t = (refl, refl)
  note_exit-ids false (some gotrue_container) t = (refl, refl)
  note_exit-ids false none t = (refl, refl)
  note_exit-ids true none t = (refl, refl)
  note_exit-ids true (some r) t = (refl, refl)

  action-Adds :
      (a : Action) (id : Bytes) (e : Event) (r : Option ContainerRole) (t : Tally) {u : Tally}
      → after_action py a e r (note_action py a id t) ≡ some u
      → Adds (action_name a) id t u
  unfolding after_action note_action
  action-Adds create_action id e r t {u} h =
      subst (λ v. Adds (codes "create") id t v) (some_injective h) (refl, refl)
  action-Adds start_action id e r t {u} h =
      subst (λ v. Adds (codes "start") id t v) (some_injective h) (refl, refl)
  action-Adds destroy_action id e r t {u} h =
      subst (λ v. Adds (codes "destroy") id t v) (some_injective h) (refl, refl)
  action-Adds die_action id e r t {u} h =
      let (z, _, k) = >>=-eq-some (py.int_of _) _ h in
      subst (λ v. Adds (codes "die") id t v) (some_injective k) (note_exit-ids (is_zero py z) r _)

  note_role-ids :
      (id : Bytes) (r : Option ContainerRole) (t : Tally)
      → ((note_role py id r t).created_ids ≡ t.created_ids)
        × ((note_role py id r t).started_ids ≡ t.started_ids)
  unfolding note_role
  note_role-ids id none t = (refl, refl)
  note_role-ids id (some r) t = (refl, refl)

  onto_if-id_of :
      (name : Bytes) (e : Event) (ids : List Bytes)
      → onto_if (equal e.action name) (identity_digest py e.object_id) ids
        ≡ prepended (id_of name (some e)) ids
  unfolding id_of
  onto_if-id_of name e ids = by_test (equal e.action name)
    where
      id : Bytes
      id = identity_digest py e.object_id

      by_test : (t : Bool) → onto_if t id ids ≡ prepended (if t then some id else none) ids
      by_test true = refl
      by_test false = refl

  event-ids :
      (run : Run) (t : Tally) (fs : Fields) {u : Tally}
      → container_event py run t fs ≡ some u
      → (u.created_ids ≡ prepended (id_of (codes "create") (event_fields py fs)) t.created_ids)
        × (u.started_ids ≡ prepended (id_of (codes "start") (event_fields py fs)) t.started_ids)
  unfolding container_event note_container
  event-ids run t fs {u} h =
      let (e, p, h₁) = >>=-eq-some (event_fields py fs) _ h in
      let (a, q, h₂) = >>=-eq-some (only_if _ (action_of py e.action)) _ h₁ in
      let (_, q₁) = only_if-eq-some _ (action_of py e.action) q in
      let (_, h₃) = only_if-eq-some _ (note_container py run e a t) h₂ in
      let id = identity_digest py e.object_id in
      let role = role_of_event py run t e id in
      let named = action_of-name e.action a q₁ in
      let (c, s) =
        subst (λ n. Adds n id (note_role py id role t) u) (sym named)
          (action-Adds a id e role (note_role py id role t) h₃) in
      let (c₀, s₀) = note_role-ids id role t in
      (
        c
            ∙ (ap (onto_if (equal e.action (codes "create")) id) c₀
                ∙ (onto_if-id_of (codes "create") e t.created_ids
                    ∙ ap (λ o. prepended (id_of (codes "create") o) t.created_ids) (sym p))),
        s
            ∙ (ap (onto_if (equal e.action (codes "start")) id) s₀
                ∙ (onto_if-id_of (codes "start") e t.started_ids
                    ∙ ap (λ o. prepended (id_of (codes "start") o) t.started_ids) (sym p))),
      )

  prepended-onto :
      (o : Option Bytes) (xs ys : List Bytes) → onto xs (prepended o ys) ≡ onto (prepended o xs) ys
  unfolding onto
  prepended-onto none xs ys = refl
  prepended-onto (some id) xs ys = refl

  events-ids :
      (run : Run) (events : List Fields) (t : Tally) {u : Tally}
      → container_events py run events t ≡ some u
      → (u.created_ids ≡ onto (ids_of (codes "create") events) t.created_ids)
        × (u.started_ids ≡ onto (ids_of (codes "start") events) t.started_ids)
  unfolding container_events onto ids_of
  events-ids run [] t h = (
    ap (λ (v : Tally). v.created_ids) (some_injective (sym h)),
    ap (λ (v : Tally). v.started_ids) (some_injective (sym h)),
  )
  events-ids run (fs ∷ rest) t h =
      let (v, h₁, h₂) = >>=-eq-some (container_event py run t fs) _ h in
      let (c, s) = events-ids run rest v h₂ in
      let (c₀, s₀) = event-ids run t fs h₁ in
      (
        c
            ∙ (ap (onto (ids_of (codes "create") rest)) c₀
                ∙ prepended-onto (id_of (codes "create") (event_fields py fs)) _ t.created_ids),
        s
            ∙ (ap (onto (ids_of (codes "start") rest)) s₀
                ∙ prepended-onto (id_of (codes "start") (event_fields py fs)) _ t.started_ids),
      )

  -- What a consistent history says of the events and of the observer's audit.
  pub record IsCorrelated (container_raw live_raw : Bytes) (r : HistoryReceipt py) : Type 0 where
    pub events : List Fields
    pub created : List Bytes
    pub started : List Bytes
    pub parsed : read_json_lines py container_raw ≡ some events
    pub audited : live_phase_ids py live_raw ≡ some (created, started)
    pub same_created : (id : Bytes) → in_set id (ids_of (codes "create") events) ≡ in_set id created
    pub same_started : (id : Bytes) → in_set id (ids_of (codes "start") events) ≡ in_set id started
    pub creations : r.container_create_count ≡ length (ids_of (codes "create") events)
    pub starts : r.container_start_count ≡ length (ids_of (codes "start") events)
    pub some_created : 1 ≤ length (ids_of (codes "create") events)
    pub all_started :
        length (ids_of (codes "create") events) ≤ length (ids_of (codes "start") events)
    pub no_database_exit : r.database_nonzero_exit_count ≡ 0
    pub no_gotrue_exit : r.gotrue_nonzero_exit_count ≡ 0

  in_set-nil : (id : Bytes) (xs : List Bytes) → in_set id (onto xs []) ≡ in_set id xs
  in_set-nil id xs = ground (arith, in_set-onto id xs [])

  -- If the analysis of the event history returns a receipt that is classified as consistent, then
  -- the container events and the observer's audit parse, an identifier is among those of the
  -- create events exactly where the audit has it as created, and among those of the start events
  -- exactly where the audit has it as started; the counts of creations and starts are the numbers
  -- of those events, there is at least one creation and no more creations than starts, and none of
  -- the database or the migration is counted with an exit code other than zero.
  pub analyze-IsCorrelated :
      (container_raw volume_raw network_raw live_raw : Bytes) (run : Run) (r : HistoryReceipt py)
      → analyze py container_raw volume_raw network_raw live_raw run ≡ some r
      → r.classification ≡ history_consistent
      → IsCorrelated container_raw live_raw r
  analyze-IsCorrelated container_raw volume_raw network_raw live_raw run r h k =
      let (events, t, volumes, created, started, e, c, j, a, b, d, f, g, i, l, m) =
        analyzed py container_raw volume_raw network_raw live_raw run r h in
      let (k₀, k₁, k₂, k₃, k₄) = consistent py r.live_observer_correlated volumes t (sym j ∙ k) in
      let (same_c, same_s) = and_true _ _ (sym m ∙ k₀) in
      let (cs, ss) = events-ids run events no_tally c in
      let w = events-Tallied py 0 run events no_tally (ground arith) c in
      let n = onto-length (ids_of (codes "create") events) [] in
      let o = onto-length (ids_of (codes "start") events) [] in
      record {
        events = events;
        created = created;
        started = started;
        parsed = e;
        audited = l;
        same_created = λ id.
            sym (in_set-nil id _)
            ∙ (ap (in_set id) (sym cs) ∙ in_set-same_set id t.created_ids created same_c);
        same_started = λ id.
            sym (in_set-nil id _)
            ∙ (ap (in_set id) (sym ss) ∙ in_set-same_set id t.started_ids started same_s);
        creations = omega (arith, a, w.created, ap length cs, n);
        starts = omega (arith, b, w.started, ap length ss, o);
        some_created = omega (arith, w.created, ap length cs, n, k₄);
        all_started = omega (arith, w.created, w.started, ap length cs, ap length ss, n, o, k₁);
        no_database_exit = g ∙ k₃;
        no_gotrue_exit = i ∙ k₂;
      }
