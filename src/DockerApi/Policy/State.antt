-- ===== src/DockerApi/Policy/State.antt =====
-- The fields of a `DBStartPolicy`, and a `PolicyDecision`.
use hosted_replay_harness.Prelude.{ℕ, Bytes, String, Bool, true, List, ◌==◌, ◌≡◌, ◌≤◌, ◌⊎◌}
use hosted_replay_harness.DockerApi.Outcome.{Outcome, ok, fail, raised}
use hosted_replay_harness.DockerApi.Path.{Phase}

-- The strings of `self.data`.
pub record Descriptor : Type 0 where
  pub nonce : String
  pub api_version : String
  pub project : String
  pub network_name : String
  pub network_id : String
  pub db_name : String
  pub db_volume : String
  pub db_port : String
  pub postgres_image_ref : String
  pub postgres_image_id : String
  pub postgres_digest : String
  pub gotrue_image_ref : String
  pub gotrue_image_id : String
  pub gotrue_digest : String

pub data State : Type 0 where
  negotiate_head negotiate_get db_inspect volume_inspect pg_image_inspect network_db : State
  volume_create db_create db_start db_health db_logs gotrue_image_inspect network_gotrue : State
  gotrue_create gotrue_start gotrue_logs gotrue_inspect gotrue_remove completed halted : State

-- The place of a state in the lifecycle; `completed` is "COMPLETE" and `halted` is "FAILED".
abbrev pub rank : State → ℕ
rank negotiate_head = 0
rank negotiate_get = 1
rank db_inspect = 2
rank volume_inspect = 3
rank pg_image_inspect = 4
rank network_db = 5
rank volume_create = 6
rank db_create = 7
rank db_start = 8
rank db_health = 9
rank gotrue_image_inspect = 10
rank network_gotrue = 11
rank gotrue_create = 12
rank gotrue_start = 13
rank gotrue_logs = 14
rank gotrue_inspect = 15
rank gotrue_remove = 16
rank completed = 17
rank db_logs = 18
rank halted = 19

abbrev pub state_eq : State → State → Bool
state_eq a b = rank a == rank b

pub record Decision : Type 0 where
  pub name : State
  pub phase : Phase
  pub method : Bytes
  pub expected_statuses : List ℕ
  pub stream : Bool

pub record Policy : Type 0 where
  pub descriptor : Descriptor
  pub matrix_sha256 : String
  pub digest : String
  pub state : State
  pub step_index : ℕ
  pub health_probe_count : ℕ
  pub request_body_bytes : ℕ
  pub response_body_bytes : ℕ
  pub db_id : String
  pub gotrue_id : String
  pub is_complete : Bool
  pub has_failed : Bool

-- What `self.fail` writes before it raises.
abbrev pub mark_failed : Policy → Policy
mark_failed p = record p { has_failed = true; state = halted }

-- A method ends with its outcome and the policy that it leaves.
abbrev pub Ended {ℓ} : Type ℓ → Type ℓ
Ended A = Outcome A × Policy

abbrev pub settle {ℓ} : {A : Type ℓ} → Policy → Outcome A → Ended A
settle p (ok a) = (ok a, p)
settle p (fail c) = (fail c, mark_failed p)
settle p (raised e) = (raised e, p)

-- The rest of a method behind a check.
abbrev pub check {ℓ κ} : {A : Type ℓ} {B : Type κ} → Policy → Outcome A → (A → Ended B) → Ended B
check p (ok a) k = k a
check p (fail c) k = (fail c, mark_failed p)
check p (raised e) k = (raised e, p)

-- What `self.fail` leaves: the policy has failed and is halted, and is complete no more than it was.
pub record HasHalted (p q : Policy) : Type 0 where
  pub failed : q.has_failed ≡ true
  pub place : q.state ≡ halted
  pub complete : q.is_complete ≡ p.is_complete

-- What a refused step leaves: the place in the lifecycle, or a policy that has failed.
abbrev pub Refused : Policy → Policy → Type 0
Refused p q =
    (q.has_failed ≡ true) × (q.is_complete ≡ p.is_complete)
    ⊎ (q.state ≡ p.state)
      × (q.has_failed ≡ p.has_failed)
      × (q.is_complete ≡ p.is_complete)
      × (p.health_probe_count ≤ q.health_probe_count)
