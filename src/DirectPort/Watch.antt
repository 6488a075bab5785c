-- ===== src/DirectPort/Watch.antt =====
-- The loop of `main` that waits until the container is healthy for long enough.
pub mod Stability
use hosted_replay_harness.Options.{◌>>=◌}
use hosted_replay_harness.DirectPort.Safe.{
  Library, raised, Completed, Inspected, Template, diagnosed, observed, safe_inspect,
}
use hosted_replay_harness.Prelude.{
  Bool, List, Option, String, [], false, if◌then◌else◌, leb, ltb, none, not, some, suc, zero, ℕ,
  ◌&&◌, ◌+◌, ◌||◌, ◌∷◌,
}
use hosted_replay_harness.Value.{
  Fields, Value, as_dict, as_text, boolean, end, eq, get, is_null, is_text_of, is_truthy, num,
}
use hosted_replay_harness.DirectPort.Safe.StateLines.{inspection_state_lines}

-- A turn of the loop: the clock where the loop is tested, what Docker answers, and the clock
-- where `healthy_since` is set and where it is compared.
pub record Attempt : Type 0 where
  pub started : ℕ
  pub docker : Template → Option Completed
  pub marked : ℕ
  pub checked : ℕ

-- What the loop leaves: `final_data`, a `failure_code`, an exception, or, where the turns given
-- end first, the index of the last attempt and `healthy_since`.
pub data Watched : Type 0 where
  final : Fields → Watched
  failed_with : String → Watched
  crashed : Watched
  waiting : ℕ → Option ℕ → Watched

-- `value or {}`; what is true and no dict has no `get`.
abbrev pub or_empty : Value → Option Fields
or_empty v = if is_truthy v then as_dict v else some end

-- `healthy_since or time.monotonic()`: 0 is false.
abbrev pub since_or : Option ℕ → ℕ → ℕ
since_or none t = t
since_or (some zero) t = t
since_or (some (suc n)) t = suc n

abbrev is_true : Value → Bool
is_true (boolean b) = b
is_true _ = false

abbrev is_running : Fields → Bool
is_running state = is_true (get "Running" state) && is_text_of "running" (get "Status" state)

unfoldable pub is_healthy : Fields → Bool
unfolding eq
is_healthy health =
    is_text_of "healthy" (get "Status" health) && eq (get "FailingStreak" health) (num 0)

unfoldable pub has_no_restart : Fields → Bool
unfolding eq
has_no_restart fs = eq (get "restart_count" fs) (num 0) || is_null (get "restart_count" fs)

-- What the checks of an inspected container say, in their order; `none` is an exception.
pub data Condition : Type 0 where
  broken : String → Condition
  well unwell : Condition

-- The health is read last, so that a health that is true and no dict raises only behind the rest.
abbrev judge_health : Option Fields → Option Condition
judge_health none = none
judge_health (some health) = some (if is_healthy health then well else unwell)

abbrev judge : Fields → Fields → Option Fields → Option Condition
judge fs state health =
    if is_true (get "OOMKilled" state)
    then some (broken "DIRECT_CONTAINER_OOM_KILLED")
    else if not (has_no_restart fs)
    then some (broken "DIRECT_RESTART_COUNT_NONZERO")
    else if not (is_running state)
    then some (broken "DIRECT_CONTAINER_NOT_RUNNING")
    else judge_health health

unfoldable pub health_of : Fields → Option Condition
unfolding eq has_no_restart is_healthy
health_of fs =
    if not (eq (get "schema_version" fs) (num 1))
    then some (broken "DIRECT_INSPECTION_SCHEMA_INVALID")
    else or_empty (get "state" fs) >>= λ state. judge fs state (or_empty (get "health" fs))

-- The text of a diagnostic's terminal class, once its lines are printed.
abbrev terminal_of : Fields → String
terminal_of fs = elim (as_text (get "terminal_class" fs)) [ none ↦ "" | some s ↦ s ]

abbrev pub inspected : Library → String → Attempt → ℕ → Inspected
inspected lib container_id attempt attempt_index =
    safe_inspect (record lib { docker = attempt.docker }) container_id attempt_index

-- `deadline`, and `args.stable_seconds` in the units of the clock
module _ (lib : Library) (container_id : String) (deadline stable : ℕ) where
  -- What follows where the container is not broken.
  abbrev judged : Fields → Attempt → Option ℕ → Watched → (ℕ → Watched) → Option Condition → Watched
  judged fs attempt since again marked_at none = crashed
  judged fs attempt since again marked_at (some (broken code)) = failed_with code
  judged fs attempt since again marked_at (some unwell) = again
  judged fs attempt since again marked_at (some well) =
      if leb (since_or since attempt.marked + stable) attempt.checked
      then final fs
      else marked_at (since_or since attempt.marked)

  abbrev seen : Attempt → Option ℕ → Watched → (ℕ → Watched) → Inspected → Watched
  seen attempt since again marked_at (observed fs) =
      judged fs attempt since again marked_at (health_of fs)
  seen attempt since again marked_at (diagnosed fs) =
      elim (inspection_state_lines (record lib { docker = attempt.docker }) fs) [
        | none ↦ crashed
        | some lines ↦ failed_with (terminal_of fs)
      ]
  seen attempt since again marked_at raised = crashed

  -- `attempt_index` counts the turns before.
  unfoldable pub watch_from : ℕ → Option ℕ → List Attempt → Watched
  unfolding health_of safe_inspect inspection_state_lines
  watch_from attempt_index since [] = waiting attempt_index since
  watch_from attempt_index since (attempt ∷ attempts) =
      if ltb attempt.started deadline
      then seen attempt since (watch_from (suc attempt_index) none attempts)
          (λ s. watch_from (suc attempt_index) (some s) attempts)
          (inspected lib container_id attempt (suc attempt_index))
      else failed_with "DIRECT_HEALTH_TIMEOUT"

  unfoldable pub watch : List Attempt → Watched
  unfolding watch_from
  watch attempts = watch_from 0 none attempts
