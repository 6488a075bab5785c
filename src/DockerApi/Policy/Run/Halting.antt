-- ===== src/DockerApi/Policy/Run/Halting.antt =====
-- What is left of a run once the policy has rejected an exchange.
use hosted_replay_harness.DockerApi.Library.{Library}
use hosted_replay_harness.DockerApi.Outcome.{
  raised, type_error, value_error, FailureCode, Outcome, attribute_error, fail, ok, order_rejected,
  violation,
}
use hosted_replay_harness.DockerApi.Policy.State.{Ended, HasHalted, Policy, Refused, State, halted}
use hosted_replay_harness.DockerApi.Policy.Run.{Exchange, answered, exchange, handled, run}
use hosted_replay_harness.Prelude.{List, [], arith, inl, inr, refl, true, ◌∷◌, ◌≡◌, ◌≢◌, ◌⊎◌}
use hosted_replay_harness.DockerApi.Policy.Authorize.{authorize}
use hosted_replay_harness.DockerApi.Policy.Authorize.Decisions.{authorize-failed}
use hosted_replay_harness.DockerApi.Policy.Run.Trail.{exchange-Refused}

-- A `PolicyViolation` of this code, whichever way it was raised.
abbrev pub IsViolation : FailureCode → Outcome (Unit {0}) → Type 0
IsViolation c o = (o ≡ fail c) ⊎ (o ≡ raised (violation c))

handled-halts :
    (o : Ended (Unit {0})) (c : FailureCode)
    → IsViolation c (handled o).0
    → ((handled o).1.has_failed ≡ true) × ((handled o).1.state ≡ halted)
handled-halts (ok u, q) c (inl h) = cc
handled-halts (ok u, q) c (inr h) = cc
handled-halts (fail d, q) c h = (refl, refl)
handled-halts (raised (violation d), q) c h = (refl, refl)
handled-halts (raised value_error, q) c (inl h) = cc
handled-halts (raised value_error, q) c (inr h) = cc
handled-halts (raised attribute_error, q) c (inl h) = cc
handled-halts (raised attribute_error, q) c (inr h) = cc
handled-halts (raised type_error, q) c (inl h) = cc
handled-halts (raised type_error, q) c (inr h) = cc

not-accepted : (o : Outcome (Unit {0})) (c : FailureCode) → IsViolation c o → o ≢ ok tt
not-accepted o c (inl h) = λ e. cc
not-accepted o c (inr h) = λ e. cc

Refused-complete : (p q : Policy) → Refused p q → q.is_complete ≡ p.is_complete
Refused-complete p q (inl (f, h)) = h
Refused-complete p q (inr (s, f, h, n)) = h

exchange-halts :
    (lib : Library) (p : Policy) (x : Exchange) (c : FailureCode)
    → IsViolation c (exchange lib p x).0
    → HasHalted p (exchange lib p x).1
unfolding exchange
exchange-halts lib p x c h =
    let (f, s) = handled-halts (answered lib x.response (authorize lib p x.request)) c h in
    record {
      failed = f;
      place = s;
      complete =
          Refused-complete p (exchange lib p x).1
            (exchange-Refused lib p x (not-accepted (exchange lib p x).0 c h));
    }

exchange-failed :
    (lib : Library) (p : Policy) (x : Exchange)
    → p.has_failed ≡ true
    → p.state ≡ halted
    → exchange lib p x ≡ (fail order_rejected, p)
unfolding exchange
exchange-failed lib p x f s = rw (authorize-failed lib p x.request f s) (ground (arith, f, s))

run-failed :
    (lib : Library) (p : Policy) (log : List State) (xs : List Exchange)
    → p.has_failed ≡ true
    → p.state ≡ halted
    → run lib p log xs ≡ (p, log)
unfolding run
run-failed lib p log [] f s = refl
run-failed lib p log (x ∷ xs) f s = rw (exchange-failed lib p x f s) (run-failed lib p log xs f s)

-- If an exchange ends with a PolicyViolation, of the request or of the answer, then the policy
-- has failed and is halted and is complete no more than before, and whatever exchanges follow,
-- none of them is accepted and the policy stays as it is.
pub run-HasHalted :
    (lib : Library) (p : Policy) (x : Exchange) (log : List State) (later : List Exchange)
    (c : FailureCode)
    → IsViolation c (exchange lib p x).0
    → HasHalted p (exchange lib p x).1
      × (run lib (exchange lib p x).1 log later ≡ ((exchange lib p x).1, log))
run-HasHalted lib p x log later c h =
    let w = exchange-halts lib p x c h in
    (w, run-failed lib (exchange lib p x).1 log later w.failed w.place)
