-- ===== src/DockerEvents/Tallies.antt =====
-- What the counts of the Docker event history say of the events.
use mathlib.Core.Path.{subst}
use hosted_replay_harness.Options.{>>=-eq-some, only_if-eq-some, only_if}
use hosted_replay_harness.DockerEvents.{
  Action, ContainerRole, Event, Python, Run, Tally, action_of, after_action, container_event,
  container_events, create_action, database_container, destroy_action, die_action, event_fields,
  gotrue_container, identity_digest, is_zero, note_action, note_container, note_exit, note_role,
  role_of_event, start_action, HistoryReceipt, analyze, classify_history, history_consistent,
  live_phase_ids, network_events, no_tally, read_json_lines, volume_events, same_set,
}
use hosted_replay_harness.Prelude.{
  Bool, Bytes, List, Option, [], arith, false, length, none, some, true, ℕ, ◌+◌, ◌<◌, ◌∷◌, ◌≡◌, ◌≤◌,
  refl, suc, ◌&&◌,
}
use hosted_replay_harness.Value.{Fields}

-- A tally of `n` container events.
pub record Tallied (n : ℕ) (t : Tally) : Type 0 where
  pub sum : t.creates + (t.starts + (t.dies + t.destroys)) ≡ n
  pub exits : t.database_exits + t.gotrue_exits ≤ t.dies
  pub created : length t.created_ids ≡ t.creates
  pub started : length t.started_ids ≡ t.starts

counted : (n m : ℕ) (t : Tally) → m ≡ n → Tallied n t → Tallied m t
counted n m t h w = record {
  sum = omega (arith, h, w.sum);
  exits = w.exits;
  created = w.created;
  started = w.started;
}

pub some_injective : {A : Type 0} {a b : A} → some a ≡ some b → a ≡ b
some_injective h = cc

module _ (py : Python) where
  note_role-Tallied :
      (n : ℕ) (id : Bytes) (r : Option ContainerRole) (t : Tally)
      → Tallied n t
      → Tallied n (note_role py id r t)
  unfolding note_role
  note_role-Tallied n id none t w = ground arith
  note_role-Tallied n id (some r) t w = ground arith

  note_exit-Tallied :
      (n : ℕ) (b : Bool) (r : Option ContainerRole) (t : Tally)
      → Tallied n t
      → t.database_exits + t.gotrue_exits < t.dies
      → Tallied n (note_exit py b r t)
  unfolding note_exit
  note_exit-Tallied n false (some database_container) t w h = ground arith
  note_exit-Tallied n false (some gotrue_container) t w h = ground arith
  note_exit-Tallied n false none t w h = w
  note_exit-Tallied n true none t w h = w
  note_exit-Tallied n true (some r) t w h = w

  action-Tallied :
      (n : ℕ) (a : Action) (id : Bytes) (e : Event) (r : Option ContainerRole) (t : Tally)
      {u : Tally}
      → Tallied n t
      → after_action py a e r (note_action py a id t) ≡ some u
      → Tallied (n + 1) u
  unfolding after_action note_action
  action-Tallied n create_action id e r t {u} w h =
      subst (λ v. Tallied (n + 1) v) (some_injective h) (ground arith)
  action-Tallied n start_action id e r t {u} w h =
      subst (λ v. Tallied (n + 1) v) (some_injective h) (ground arith)
  action-Tallied n destroy_action id e r t {u} w h =
      subst (λ v. Tallied (n + 1) v) (some_injective h) (ground arith)
  action-Tallied n die_action id e r t {u} w h =
      let (z, _, k) = >>=-eq-some (py.int_of _) _ h in
      subst (λ v. Tallied (n + 1) v) (some_injective k)
        (note_exit-Tallied (n + 1) (is_zero py z) r _ (ground arith) (omega (arith, w.exits)))

  event-Tallied :
      (n : ℕ) (run : Run) (t : Tally) (fs : Fields) {u : Tally}
      → Tallied n t
      → container_event py run t fs ≡ some u
      → Tallied (n + 1) u
  unfolding container_event note_container
  event-Tallied n run t fs w h =
      let (e, _, h₁) = >>=-eq-some (event_fields py fs) _ h in
      let (a, _, h₂) = >>=-eq-some (only_if _ (action_of py e.action)) _ h₁ in
      let (_, h₃) = only_if-eq-some _ (note_container py run e a t) h₂ in
      let id = identity_digest py e.object_id in
      let role = role_of_event py run t e id in
      action-Tallied n a id e role _ (note_role-Tallied n id role t w) h₃

  pub events-Tallied :
      (n : ℕ) (run : Run) (events : List Fields) (t : Tally) {u : Tally}
      → Tallied n t
      → container_events py run events t ≡ some u
      → Tallied (n + length events) u
  unfolding container_events
  events-Tallied n run [] t w h =
      subst (λ v. Tallied (n + 0) v) (some_injective h) (counted n (n + 0) t (omega arith) w)
  events-Tallied n run (fs ∷ rest) t w h =
      let (v, h₁, h₂) = >>=-eq-some (container_event py run t fs) _ h in
      counted ((n + 1) + length rest) (n + suc (length rest)) _ (omega arith)
        (events-Tallied (n + 1) run rest v (event-Tallied n run t fs w h₁) h₂)

  pub consistent :
      (correlated : Bool) (volumes : ℕ) (t : Tally)
      → classify_history py correlated volumes t ≡ history_consistent
      → (correlated ≡ true)
        × (t.creates ≤ t.starts)
        × (t.gotrue_exits ≡ 0)
        × (t.database_exits ≡ 0)
        × (1 ≤ t.creates)
  unfolding classify_history
  consistent correlated volumes t h = ground arith

  -- The record that `analyze` returns, taken apart.
  abbrev pub Analyzed : Run → Bytes → Bytes → HistoryReceipt py → Type 0
  Analyzed run container_raw live_raw r =
      (events : List Fields) × (t : Tally) × (volumes : ℕ) × (created started : List Bytes)
      × (read_json_lines py container_raw ≡ some events)
      × (container_events py run events no_tally ≡ some t)
      × (r.classification ≡ classify_history py r.live_observer_correlated volumes t)
      × (r.container_create_count ≡ t.creates)
      × (r.container_start_count ≡ t.starts)
      × (r.container_die_count ≡ t.dies)
      × (r.container_destroy_count ≡ t.destroys)
      × (r.database_nonzero_exit_count ≡ t.database_exits)
      × (r.gotrue_nonzero_exit_count ≡ t.gotrue_exits)
      × (live_phase_ids py live_raw ≡ some (created, started))
      × (r.live_observer_correlated
          ≡ (same_set t.created_ids created && same_set t.started_ids started))

  pub analyzed :
      (container_raw volume_raw network_raw live_raw : Bytes) (run : Run) (r : HistoryReceipt py)
      → analyze py container_raw volume_raw network_raw live_raw run ≡ some r
      → Analyzed run container_raw live_raw r
  unfolding analyze
  analyzed container_raw volume_raw network_raw live_raw run r h =
      let (containers, e₁, h₁) = >>=-eq-some (read_json_lines py container_raw) _ h in
      let (volumes, _, h₂) = >>=-eq-some (read_json_lines py volume_raw) _ h₁ in
      let (networks, _, h₃) = >>=-eq-some (read_json_lines py network_raw) _ h₂ in
      let (live, e₄, h₄) = >>=-eq-some (live_phase_ids py live_raw) _ h₃ in
      let (t, e₅, h₅) = >>=-eq-some (container_events py run containers no_tally) _ h₄ in
      let (vs, _, h₆) = >>=-eq-some (volume_events py run volumes (0, [])) _ h₅ in
      let (ns, _, h₇) = >>=-eq-some (network_events py run networks (0, [], true)) _ h₆ in
      subst (λ s. Analyzed run container_raw live_raw s) (some_injective h₇)
        (
          containers, t, vs.0, live.0, live.1, e₁, e₅, refl, refl, refl, refl, refl, refl, refl, e₄,
          refl,
        )

  -- If the analysis of the event history returns a receipt, then the container events parse, their
  -- number is the sum of the four action counts, and the exits with a code other than zero are no
  -- more than the deaths.
  pub analyze-counts :
      (container_raw volume_raw network_raw live_raw : Bytes) (run : Run) (r : HistoryReceipt py)
      → analyze py container_raw volume_raw network_raw live_raw run ≡ some r
      → (events : List Fields) × (read_json_lines py container_raw ≡ some events)
        × (r.container_create_count
              + (r.container_start_count + (r.container_die_count + r.container_destroy_count))
            ≡ length events)
        × (r.database_nonzero_exit_count + r.gotrue_nonzero_exit_count ≤ r.container_die_count)
  analyze-counts container_raw volume_raw network_raw live_raw run r h =
      let (events, t, volumes, _, _, e, c, _, a, b, d, f, g, i, _, _) =
        analyzed container_raw volume_raw network_raw live_raw run r h in
      let w = events-Tallied 0 run events no_tally (ground arith) c in
      (events, e, omega (arith, a, b, d, f, w.sum), omega (arith, g, i, d, w.exits))
