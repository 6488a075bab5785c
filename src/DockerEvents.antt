-- ===== src/DockerEvents.antt =====
-- scripts/classify_docker_events.py: the Docker event history of a run, reduced to a receipt.
-- `none` is an `EventHistoryError`. A set is a list, which may repeat its members.

-- What the script takes from Python and its libraries.
pub mod Tallies
pub mod Correlation
use hosted_replay_harness.Options.{◌>>=◌, ◌>>◌, only_if}
use hosted_replay_harness.Prelude.{
  Bool, Bytes, List, Option, String, [], all, any, codes, equal, false, if◌then◌else◌, lower, ltb,
  none, not, some, strip, true, ℕ, ◌&&◌, ◌++◌, ◌+◌, ◌==◌, ◌||◌, ◌∷◌, length, starts_with, less,
}
use hosted_replay_harness.Value.{Fields, Value, as_dict, dict, end, get?, negsuc, pos, text, ℤ}
use hosted_replay_harness.ContainerWatch.Contracts.{project}

pub record Python : Type 0 where
  -- `json.loads(line)`; `none` is a decoding error
  pub json_loads : Bytes → Option Value
  -- `str(value)`
  pub str_of : Value → Bytes
  pub lower : Bytes → Bytes
  pub splitlines : Bytes → List Bytes
  -- `hashlib.sha256(raw).hexdigest()`
  pub sha256 : Bytes → Bytes
  -- `text.encode("utf-8")`, for texts without lone surrogates
  pub utf8 : Bytes → Bytes
  -- `int(text)`; `none` is `ValueError`
  pub int_of : Bytes → Option ℤ

abbrev pub project_label : String
project_label = "com.supabase.cli.project"

pub data Action : Type 0 where
  create_action start_action die_action destroy_action : Action

pub data ContainerRole : Type 0 where
  database_container gotrue_container : ContainerRole

pub data History : Type 0 where
  history_consistent no_mutation_observed observer_coverage_gap : History
  create_failed created_not_started database_health_failed migration_failed : History

abbrev pub in_set : Bytes → List Bytes → Bool
in_set k ks = any (equal k) ks

abbrev pub subset : List Bytes → List Bytes → Bool
subset xs ys = all (λ x. in_set x ys) xs

abbrev pub same_set : List Bytes → List Bytes → Bool
same_set xs ys = subset xs ys && subset ys xs

-- `"\n".join(sorted(values))`.
abbrev place : Bytes → List Bytes → List Bytes
place s [] = s ∷ []
place s (t ∷ ts) =
    let rest = place s ts in
    if less s t then s ∷ (t ∷ ts) else if equal s t then t ∷ ts else t ∷ rest

abbrev sorted : List Bytes → List Bytes
sorted [] = []
sorted (s ∷ ss) = place s (sorted ss)

abbrev join_lines : List Bytes → Bytes
join_lines [] = []
join_lines (s ∷ []) = s
join_lines (s ∷ (t ∷ ts)) = s ++ (b'\n' ∷ join_lines (t ∷ ts))

-- The four fields of `_event_fields`.
pub record Event : Type 0 where
  pub kind : Bytes
  pub action : Bytes
  pub object_id : Bytes
  pub attributes : Fields

-- what the loops over container events build
pub record Tally : Type 0 where
  pub creates : ℕ
  pub starts : ℕ
  pub dies : ℕ
  pub destroys : ℕ
  pub created_ids : List Bytes
  pub started_ids : List Bytes
  pub died_ids : List Bytes
  pub destroyed_ids : List Bytes
  pub roles : List (Bytes × ContainerRole)
  pub database_exits : ℕ
  pub gotrue_exits : ℕ
  pub pinned : Bool

abbrev pub no_tally : Tally
no_tally = record {
  creates = 0;
  starts = 0;
  dies = 0;
  destroys = 0;
  created_ids = [];
  started_ids = [];
  died_ids = [];
  destroyed_ids = [];
  roles = [];
  database_exits = 0;
  gotrue_exits = 0;
  pinned = true;
}

-- The keyword arguments of `analyze`.
pub record Run : Type 0 where
  pub project : Bytes
  pub network_name : Bytes
  pub network_id : Bytes
  pub db_volume : Bytes
  pub postgres_image : Bytes
  pub postgres_image_id : Bytes
  pub gotrue_image : Bytes
  pub gotrue_image_id : Bytes

-- `event.get(k, later)`
abbrev get_or : String → Value → Fields → Value
get_or k later fs = elim (get? k fs) [ none ↦ later | some v ↦ v ]

module _ (py : Python) where
  abbrev identity_digest : Bytes → Bytes
  identity_digest s = codes "sha256:" ++ py.sha256 (py.utf8 s)

  abbrev set_digest : List Bytes → Bytes
  set_digest ids = py.sha256 (join_lines (sorted ids))

  read_lines : List Bytes → Option (List Fields)
  read_lines [] = some []
  read_lines (line ∷ lines) =
      let rest = read_lines lines in
      if equal (strip line) []
      then rest
      else (do v ← py.json_loads line; fs ← as_dict v; more ← rest; some (fs ∷ more))

  pub read_json_lines : Bytes → Option (List Fields)
  unfolding read_lines
  read_json_lines raw = read_lines (py.splitlines raw)

  event_fields : Fields → Option Event
  event_fields event = do
    actor ← as_dict (get_or "Actor" (get_or "actor" (dict end) event) event)
    attributes ← as_dict (get_or "Attributes" (get_or "attributes" (dict end) actor) actor)
    let kind = py.lower (py.str_of (get_or "Type" (get_or "type" (text "") event) event))
    let action = py.lower (
        py.str_of (get_or "Action" (get_or "action" (get_or "status" (text "") event) event) event))
    let object_id = py.str_of (get_or "ID" (get_or "id" (get_or "id" (text "") event) actor) actor)
    only_if (not ((equal kind [] || equal action []) || equal object_id [])) (
        some
          (record { kind = kind; action = action; object_id = object_id; attributes = attributes }))

  -- `attributes.get(k)`
  abbrev attribute : String → Event → Option Bytes
  attribute k e = elim (get? k e.attributes) [ none ↦ none | some v ↦ some (py.str_of v) ]

  abbrev attribute_or : String → Bytes → Event → Bytes
  attribute_or k later e = elim (attribute k e) [ none ↦ later | some s ↦ s ]

  abbrev attribute_is : String → Bytes → Event → Bool
  attribute_is k s e = elim (attribute k e) [ none ↦ false | some t ↦ equal t s ]

  abbrev role_for_image : Run → Bytes → Option ContainerRole
  role_for_image run image =
      if in_set image (run.postgres_image ∷ run.postgres_image_id ∷ [])
      then some database_container
      else if in_set image (run.gotrue_image ∷ run.gotrue_image_id ∷ [])
      then some gotrue_container
      else none

  abbrev role_in : Bytes → List (Bytes × ContainerRole) → Option ContainerRole
  role_in k [] = none
  role_in k ((j, r) ∷ rest) = if equal j k then some r else role_in k rest

  abbrev role_of_event : Run → Tally → Event → Bytes → Option ContainerRole
  role_of_event run t e id = elim (role_in id t.roles) [
    | none ↦ role_for_image run (attribute_or "image" [] e)
    | some r ↦ some r
  ]

  action_of : Bytes → Option Action
  action_of s =
      if equal s (codes "create")
      then some create_action
      else if equal s (codes "start")
      then some start_action
      else if equal s (codes "die")
      then some die_action
      else if equal s (codes "destroy")
      then some destroy_action
      else none

  note_role : Bytes → Option ContainerRole → Tally → Tally
  note_role id none t = record t { pinned = false }
  note_role id (some r) t = record t { roles = (id, r) ∷ t.roles }

  note_action : Action → Bytes → Tally → Tally
  note_action create_action id t = record t {
    creates = t.creates + 1;
    created_ids = id ∷ t.created_ids;
  }
  note_action start_action id t = record t {
    starts = t.starts + 1;
    started_ids = id ∷ t.started_ids;
  }
  note_action die_action id t = record t { dies = t.dies + 1; died_ids = id ∷ t.died_ids }
  note_action destroy_action id t = record t {
    destroys = t.destroys + 1;
    destroyed_ids = id ∷ t.destroyed_ids;
  }

  abbrev is_zero : ℤ → Bool
  is_zero (pos n) = n == 0
  is_zero (negsuc n) = false

  note_exit : Bool → Option ContainerRole → Tally → Tally
  note_exit false (some database_container) t = record t { database_exits = t.database_exits + 1 }
  note_exit false (some gotrue_container) t = record t { gotrue_exits = t.gotrue_exits + 1 }
  note_exit _ _ t = t

  -- only `die` reads the exit code
  after_action : Action → Event → Option ContainerRole → Tally → Option Tally
  unfolding note_exit
  after_action die_action e role t = do
    z ← py.int_of (attribute_or "exitCode" (attribute_or "exit_code" (codes "0") e) e)
    some (note_exit (is_zero z) role t)
  after_action _ e role t = some t

  note_container : Run → Event → Action → Tally → Option Tally
  unfolding note_role note_action after_action
  note_container run e a t =
      let id = identity_digest e.object_id in
      let role = role_of_event run t e id in
      after_action a e role (note_action a id (note_role id role t))

  container_event : Run → Tally → Fields → Option Tally
  unfolding event_fields action_of note_container
  container_event run t fs = do
    e ← event_fields fs
    a ← only_if (equal e.kind (codes "container")) (action_of e.action)
    only_if (attribute_is project_label run.project e) (note_container run e a t)

  pub container_events : Run → List Fields → Tally → Option Tally
  unfolding container_event
  container_events run [] t = some t
  container_events run (fs ∷ rest) t = container_event run t fs >>= λ u. container_events run rest u

  -- the counts and the identifiers of the volumes
  volume_events : Run → List Fields → ℕ × List Bytes → Option (ℕ × List Bytes)
  unfolding event_fields
  volume_events run [] (n, ids) = some (n, ids)
  volume_events run (fs ∷ rest) (n, ids) = do
    e ← event_fields fs
    only_if (equal e.kind (codes "volume") && equal e.action (codes "create")) (some tt)
    only_if (equal e.object_id run.db_volume && attribute_is project_label run.project e) (some tt)
    volume_events run rest (n + 1, identity_digest e.object_id ∷ ids)

  -- The frozen network is correlated as long as the flag is true.
  network_events : Run → List Fields → ℕ × List Bytes × Bool → Option (ℕ × List Bytes × Bool)
  unfolding event_fields
  network_events run [] t = some t
  network_events run (fs ∷ rest) (n, ids, frozen) = do
    e ← event_fields fs
    only_if (equal e.kind (codes "network") && equal e.action (codes "connect")) (some tt)
    let container_id = attribute_or "container" [] e
    only_if (not (equal container_id [])) (some tt)
    network_events run rest (
      n + 1,
      identity_digest container_id ∷ ids,
      frozen && (equal e.object_id run.network_id && attribute_is "name" run.network_name e),
    )

  -- `_live_phase_ids`: the created and the started containers of the observer's audit
  live_ids : List Fields → List Bytes × List Bytes → Option (List Bytes × List Bytes)
  live_ids [] t = some t
  live_ids (fs ∷ rest) (created, started) = do
    let phase = py.str_of (get_or "phase" (text "") fs)
    let id = py.str_of (get_or "container_id" (text "") fs)
    only_if
        ((equal phase (codes "create") || equal phase (codes "start"))
          && starts_with id (codes "sha256:"))
        (some tt)
    live_ids rest
        (if equal phase (codes "create") then (id ∷ created, started) else (created, id ∷ started))

  pub live_phase_ids : Bytes → Option (List Bytes × List Bytes)
  unfolding live_ids read_json_lines
  live_phase_ids raw = read_json_lines raw >>= λ entries. live_ids entries ([], [])

  abbrev is_some_count : ℕ → Bool
  is_some_count n = ltb 0 n

  -- the tests of `analyze` in their order
  pub classify_history : Bool → ℕ → Tally → History
  classify_history correlated volumes t =
      if not correlated
      then observer_coverage_gap
      else if is_some_count volumes && (t.creates == 0)
      then create_failed
      else if ltb t.starts t.creates
      then created_not_started
      else if is_some_count t.gotrue_exits
      then migration_failed
      else if is_some_count t.database_exits
      then database_health_failed
      else if (t.creates == 0) && (volumes == 0)
      then no_mutation_observed
      else history_consistent

  -- What `analyze` returns.
  pub record HistoryReceipt : Type 0 where
    pub classification : History
    pub container_create_count : ℕ
    pub container_start_count : ℕ
    pub container_die_count : ℕ
    pub container_destroy_count : ℕ
    pub volume_create_count : ℕ
    pub network_connect_count : ℕ
    pub database_nonzero_exit_count : ℕ
    pub gotrue_nonzero_exit_count : ℕ
    pub container_id_set_sha256 : Bytes
    pub volume_id_set_sha256 : Bytes
    pub network_container_id_set_sha256 : Bytes
    pub pinned_image_identity_correlated : Bool
    pub frozen_network_id_correlated : Bool
    pub live_observer_correlated : Bool
    pub raw_byte_count : ℕ
    pub raw_line_count : ℕ
    pub raw_sha256 : Bytes

  abbrev all_ids : Tally → List Bytes
  all_ids t = t.created_ids ++ (t.started_ids ++ (t.died_ids ++ t.destroyed_ids))

  abbrev line_count : Bytes → ℕ
  line_count raw = length (py.splitlines raw)

  pub analyze : Bytes → Bytes → Bytes → Bytes → Run → Option HistoryReceipt
  unfolding classify_history
  analyze container_raw volume_raw network_raw live_raw run = do
    containers ← read_json_lines container_raw
    volumes ← read_json_lines volume_raw
    networks ← read_json_lines network_raw
    (live_created, live_started) ← live_phase_ids live_raw
    t ← container_events run containers no_tally
    (volume_count, volume_ids) ← volume_events run volumes (0, [])
    (network_count, connected_ids, frozen) ← network_events run networks (0, [], true)
    let correlated = same_set t.created_ids live_created && same_set t.started_ids live_started
    let combined_raw = container_raw ++ (0 ∷ (volume_raw ++ (0 ∷ network_raw)))
    some (record {
      classification = classify_history correlated volume_count t;
      container_create_count = t.creates;
      container_start_count = t.starts;
      container_die_count = t.dies;
      container_destroy_count = t.destroys;
      volume_create_count = volume_count;
      network_connect_count = network_count;
      database_nonzero_exit_count = t.database_exits;
      gotrue_nonzero_exit_count = t.gotrue_exits;
      container_id_set_sha256 = set_digest (all_ids t);
      volume_id_set_sha256 = set_digest volume_ids;
      network_container_id_set_sha256 = set_digest connected_ids;
      pinned_image_identity_correlated = t.pinned;
      frozen_network_id_correlated = frozen && subset t.created_ids connected_ids;
      live_observer_correlated = correlated;
      raw_byte_count = length combined_raw;
      raw_line_count = line_count container_raw + (line_count volume_raw + line_count network_raw);
      raw_sha256 = py.sha256 combined_raw;
    })

-- Opens all that `analyze` computes with.
unfoldable pub run_analyze : Unit {0}
unfolding analyze read_json_lines container_events live_phase_ids volume_events network_events
    classify_history
run_analyze = tt
