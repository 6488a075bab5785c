-- ===== src/DockerApi/Policy/Run.antt =====
-- Runs of the policy: one exchange after the other, as `PolicyBoundaryServer.handle` drives it.
pub mod Trail
pub mod Halting
use hosted_replay_harness.DockerApi.Policy.State.{Decision, Ended, Policy, State, mark_failed}
use hosted_replay_harness.DockerApi.Library.{Library}
use hosted_replay_harness.Prelude.{
  List, [], ◌∷◌, Bool, Bytes, codes, false, if◌then◌else◌, none, not, one_of, true, ◌&&◌,
}
use hosted_replay_harness.DockerApi.Outcome.{
  Outcome, fail, ok, raised, violation, media_type_rejected, status_rejected,
}
use hosted_replay_harness.DockerApi.Policy.Authorize.{Request, authorize, run_authorize}
use hosted_replay_harness.DockerApi.Policy.Accept.{Response, accept, run_accept, is_expected}
use hosted_replay_harness.DockerApi.Headers.{media_type}

-- A request, and what Docker would answer.
pub record Exchange : Type 0 where
  pub request : Request
  pub response : Response

-- `except PolicyViolation` marks the policy; no other exception does.
abbrev handled : Ended (Unit {0}) → Ended (Unit {0})
handled (ok u, p) = (ok u, p)
handled (fail c, p) = (fail c, mark_failed p)
handled (raised (violation c), p) = (raised (violation c), mark_failed p)
handled (raised e, p) = (raised e, p)

abbrev stream_media : List Bytes
stream_media =
    codes "application/vnd.docker.raw-stream"
    ∷ codes "application/vnd.docker.multiplexed-stream"
    ∷ []

-- A streamed body is passed on as it comes, and `accept` sees none.
abbrev as_accepted : Bool → Response → Response
as_accepted true r = record r { body = none }
as_accepted false r = r

-- the checks of the handler on the head of the answer, and `accept`
received : Library → Response → Decision → Policy → Ended (Unit {0})
received lib r d p =
    if not (is_expected r.code d)
    then (raised (violation status_rejected), p)
    else if d.stream && not (one_of (media_type r.headers) stream_media)
    then (raised (violation media_type_rejected), p)
    else accept lib p d (as_accepted d.stream r)

abbrev answered : Library → Response → Ended Decision → Ended (Unit {0})
answered lib r (ok d, p) = received lib r d p
answered lib r (fail c, p) = (fail c, p)
answered lib r (raised e, p) = (raised e, p)

pub exchange : Library → Policy → Exchange → Ended (Unit {0})
exchange lib p x = handled (answered lib x.response (authorize lib p x.request))

-- The states whose exchange was accepted, the latest first.
abbrev note_accepted : State → Outcome (Unit {0}) → List State → List State
note_accepted s (ok u) log = s ∷ log
note_accepted s _ log = log

pub run : Library → Policy → List State → List Exchange → Policy × List State
run lib p log [] = (p, log)
run lib p log (x ∷ xs) = let (o, q) = exchange lib p x in run lib q (note_accepted p.state o log) xs

-- Opens all that `run` computes with.
unfoldable pub run_run : Unit {0}
unfolding run exchange received run_authorize run_accept
run_run = tt
