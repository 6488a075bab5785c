-- ===== src/DockerApi/Policy/Accept/Progress.antt =====
-- What an answer does to the place of the policy in the lifecycle.
use hosted_replay_harness.Prelude.{◌+◌, ◌<◌, ◌≡◌, ◌≢◌, refl, Bool, true, ◌||◌, if◌then◌else◌, arith}
use hosted_replay_harness.DockerApi.Library.{Library}
use hosted_replay_harness.DockerApi.Outcome.{ok}
use hosted_replay_harness.DockerApi.Policy.State.{
  State, negotiate_head, negotiate_get, db_inspect, volume_inspect, pg_image_inspect, network_db,
  volume_create, db_create, db_start, db_health, db_logs, gotrue_image_inspect, network_gotrue,
  gotrue_create, gotrue_start, gotrue_logs, gotrue_inspect, gotrue_remove, completed, halted,
  state_eq, Decision, Policy, Refused,
}
use hosted_replay_harness.DockerApi.Policy.Accept.{
  Response, accept, advance, after_ping, after_named, after_create, after_health, after_migration,
  after_probe,
}

-- The lifecycle: which state may follow an accepted answer.
abbrev pub follows : State → State → Bool
follows negotiate_head s = state_eq s negotiate_get || state_eq s db_inspect
follows negotiate_get s = state_eq s db_inspect
follows db_inspect s = state_eq s volume_inspect
follows volume_inspect s = state_eq s pg_image_inspect
follows pg_image_inspect s = state_eq s network_db
follows network_db s = state_eq s volume_create
follows volume_create s = state_eq s db_create
follows db_create s = state_eq s db_start
follows db_start s = state_eq s db_health
follows db_health s =
    (state_eq s db_health || state_eq s gotrue_image_inspect) || state_eq s db_logs
follows db_logs s = state_eq s halted
follows gotrue_image_inspect s = state_eq s network_gotrue
follows network_gotrue s = state_eq s gotrue_create
follows gotrue_create s = state_eq s gotrue_start
follows gotrue_start s = state_eq s gotrue_logs
follows gotrue_logs s = state_eq s gotrue_inspect
follows gotrue_inspect s = state_eq s gotrue_remove
follows gotrue_remove s = state_eq s completed
follows completed s = state_eq s completed
follows halted s = state_eq s halted

advance-follows :
    (lib : Library) (s : State) (r : Response) (p : Policy)
    → p.state ≡ s
    → (advance lib s r p).0 ≡ ok tt
    → follows s (advance lib s r p).1.state ≡ true
unfolding advance after_ping after_named after_create after_health after_probe after_migration
advance-follows lib negotiate_head r p e h = ground arith
advance-follows lib _ r p e h = ground arith

-- If an answer is accepted, then the new state of the policy is one that the lifecycle allows
-- behind the old one.
pub accept-follows :
    (lib : Library) (p : Policy) (d : Decision) (r : Response)
    → (accept lib p d r).0 ≡ ok tt
    → follows p.state (accept lib p d r).1.state ≡ true
unfolding accept
accept-follows lib p d r h = ground (
  arith,
  advance-follows lib p.state r
      (record p { response_body_bytes = p.response_body_bytes + r.body_bytes }) refl,
)

-- What an accepted answer does to the flags and to the probe count.
pub record Kept (s : State) (p q : Policy) : Type 0 where
  pub descriptor : q.descriptor ≡ p.descriptor
  pub probes : q.health_probe_count ≡ p.health_probe_count + (if state_eq s db_health then 1 else 0)
  pub failed : q.has_failed ≡ (p.has_failed || state_eq s db_logs)
  pub complete : q.is_complete ≡ (p.is_complete || state_eq s gotrue_remove)
  pub waits : q.state ≡ db_health → s ≡ db_health → q.health_probe_count < 121

advance-Kept :
    (lib : Library) (s : State) (r : Response) (p : Policy)
    → (advance lib s r p).0 ≡ ok tt
    → Kept s p (advance lib s r p).1
unfolding advance after_ping after_named after_create after_health after_probe after_migration
advance-Kept lib negotiate_head r p h = ground arith
advance-Kept lib _ r p h = ground arith

-- If an answer is accepted, then the descriptor stays, the probe count grows by one in the state
-- of the health probe and in no other, the policy fails only behind the database logs and
-- completes only behind the removal of the migration, and the health probe is asked again only
-- below 121 probes.
pub accept-Kept :
    (lib : Library) (p : Policy) (d : Decision) (r : Response)
    → (accept lib p d r).0 ≡ ok tt
    → Kept p.state p (accept lib p d r).1
unfolding accept
accept-Kept lib p d r h = ground (
  arith,
  advance-Kept lib p.state r
      (record p { response_body_bytes = p.response_body_bytes + r.body_bytes }),
)

-- An answer that is not accepted leaves the state, or halts the policy.
advance-Refused :
    (lib : Library) (s : State) (r : Response) (p : Policy)
    → p.state ≡ s
    → (advance lib s r p).0 ≢ ok tt
    → Refused p (advance lib s r p).1
unfolding advance after_ping after_named after_create after_health after_probe after_migration
advance-Refused lib negotiate_head r p e h = ground arith
advance-Refused lib _ r p e h = ground arith

-- If an answer is not accepted, then the policy has failed, or it keeps its state and flags and
-- has no fewer probes counted.
pub accept-Refused :
    (lib : Library) (p : Policy) (d : Decision) (r : Response)
    → (accept lib p d r).0 ≢ ok tt
    → Refused p (accept lib p d r).1
unfolding accept
accept-Refused lib p d r h = ground (
  arith,
  advance-Refused lib p.state r
      (record p { response_body_bytes = p.response_body_bytes + r.body_bytes }) refl,
)
