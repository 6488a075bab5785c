-- ===== src/DockerApi/Policy/Run/Trail.antt =====
-- The accepted exchanges of a run, and the lifecycle of the database start.
use mathlib.Core.Path.{subst}
use hosted_replay_harness.DockerApi.Policy.State.{
  volume_inspect, volume_create, State, completed, db_create, db_health, db_inspect, db_logs,
  db_start, gotrue_create, gotrue_image_inspect, gotrue_inspect, gotrue_logs, gotrue_remove,
  gotrue_start, halted, negotiate_get, negotiate_head, network_db, network_gotrue, pg_image_inspect,
  rank, state_eq, Policy, Decision, Ended, Refused,
}
use hosted_replay_harness.Prelude.{
  Bool, List, [], arith, false, if◌then◌else◌, leb, suc, true, zero, ℕ, ◌&&◌, ◌+◌, ◌<◌, ◌==◌, ◌∷◌,
  ◌≡◌, ◌≤◌, ap, refl, ◌⊎◌, inl, inr, sym, ◌∙◌, ◌≢◌, not, one_of,
}
use hosted_replay_harness.DockerApi.Policy.Accept.Progress.{
  follows, Kept, accept-Kept, accept-follows, accept-Refused,
}
use hosted_replay_harness.DockerApi.Policy.Run.{
  Exchange, answered, exchange, handled, note_accepted, run, as_accepted, received, stream_media,
}
use hosted_replay_harness.DockerApi.Library.{Library}
use hosted_replay_harness.DockerApi.Policy.Accept.{accept, Response, is_expected}
use hosted_replay_harness.DockerApi.Outcome.{
  attribute_error, fail, ok, raised, type_error, value_error, violation, Outcome, FailureCode,
  media_type_rejected, status_rejected,
}
use hosted_replay_harness.DockerApi.Policy.Authorize.{authorize}
use hosted_replay_harness.DockerApi.Policy.Authorize.Decisions.{authorize-eq-ok, authorize-Refused}
use hosted_replay_harness.Value.{eq}
use hosted_replay_harness.DockerApi.Headers.{media_type}

abbrev probes : ℕ → List State → List State
probes zero l = l
probes (suc k) l = db_health ∷ probes k l

-- `fallback` tells whether the HEAD ping was answered 405.
abbrev opening : Bool → List State
opening true = negotiate_get ∷ negotiate_head ∷ []
opening false = negotiate_head ∷ []

abbrev to_network : Bool → List State
to_network f = pg_image_inspect ∷ (volume_inspect ∷ (db_inspect ∷ opening f))

abbrev to_database : Bool → List State
to_database f = db_start ∷ (db_create ∷ (volume_create ∷ (network_db ∷ to_network f)))

abbrev to_migration : Bool → ℕ → List State
to_migration f k =
    gotrue_start
    ∷ (gotrue_create ∷ (network_gotrue ∷ (gotrue_image_inspect ∷ probes k (to_database f))))

-- The accepted states behind a policy in this state, the latest first, `k` of them health probes.
abbrev pub trail : Bool → ℕ → State → List State
trail f k negotiate_head = []
trail f k negotiate_get = negotiate_head ∷ []
trail f k db_inspect = opening f
trail f k volume_inspect = db_inspect ∷ opening f
trail f k pg_image_inspect = volume_inspect ∷ (db_inspect ∷ opening f)
trail f k network_db = to_network f
trail f k volume_create = network_db ∷ to_network f
trail f k db_create = volume_create ∷ (network_db ∷ to_network f)
trail f k db_start = db_create ∷ (volume_create ∷ (network_db ∷ to_network f))
trail f k db_health = probes k (to_database f)
trail f k db_logs = probes k (to_database f)
trail f k gotrue_image_inspect = probes k (to_database f)
trail f k network_gotrue = gotrue_image_inspect ∷ probes k (to_database f)
trail f k gotrue_create = network_gotrue ∷ (gotrue_image_inspect ∷ probes k (to_database f))
trail f k gotrue_start =
    gotrue_create ∷ (network_gotrue ∷ (gotrue_image_inspect ∷ probes k (to_database f)))
trail f k gotrue_logs = to_migration f k
trail f k gotrue_inspect = gotrue_logs ∷ to_migration f k
trail f k gotrue_remove = gotrue_inspect ∷ (gotrue_logs ∷ to_migration f k)
trail f k completed = gotrue_remove ∷ (gotrue_inspect ∷ (gotrue_logs ∷ to_migration f k))
trail f k halted = db_logs ∷ probes k (to_database f)

-- How many accepted probes lie behind a state.
abbrev pub span : State → ℕ → Bool
span negotiate_head k = k == 0
span negotiate_get k = k == 0
span db_inspect k = k == 0
span volume_inspect k = k == 0
span pg_image_inspect k = k == 0
span network_db k = k == 0
span volume_create k = k == 0
span db_create k = k == 0
span db_start k = k == 0
span db_health k = leb k 120
span _ k = leb 1 k && leb k 121

state_eq_sound : (s t : State) → state_eq t s ≡ true → t ≡ s
state_eq_sound negotiate_head t h = ground arith
state_eq_sound _ t h = ground arith

-- the log of an accepted exchange, in the state that follows
abbrev Extends : Bool → ℕ → ℕ → State → State → Type 0
Extends f k n s t =
    (g : Bool) × (j : ℕ) × (s ∷ trail f k s ≡ trail g j t) × (span t j ≡ true) × (j ≤ n)

-- `n` is the probe count behind the exchange.
trail-follows :
    (s t : State) (f : Bool) (k n : ℕ)
    → follows s t ≡ true
    → span s k ≡ true
    → k + (if state_eq s db_health then 1 else 0) ≤ n
    → (s ≡ db_health → t ≡ db_health → n < 121)
    → rank s < 17
    → Extends f k n s t
trail-follows negotiate_head t f k n e p le w u =
    (false, 0, ground arith, ground arith, ground arith)
trail-follows negotiate_get t f k n e p le w u = (true, 0, ground arith, ground arith, ground arith)
trail-follows db_health t f k n e p le w u = (f, suc k, ground arith, ground arith, ground arith)
trail-follows db_logs t f k n e p le w u = absurd (omega arith)
trail-follows completed t f k n e p le w u = absurd (omega arith)
trail-follows halted t f k n e p le w u = absurd (omega arith)
trail-follows _ t f k n e p le w u = (f, k, ground arith, ground arith, ground arith)

-- What a run has done so far, while the policy is live and once it is complete.
record Trailed (p : Policy) (log : List State) : Type 0 where
  live :
      p.has_failed ≡ false
      → (f : Bool) × (k : ℕ) × (log ≡ trail f k p.state)
        × (span p.state k ≡ true)
        × (k ≤ p.health_probe_count)
  done :
      p.is_complete ≡ true
      → (f : Bool) × (k : ℕ) × (log ≡ trail f k completed) × (span completed k ≡ true)
  closes : p.has_failed ≡ false → p.state ≡ completed → p.is_complete ≡ true
  opens : p.has_failed ≡ false → p.is_complete ≡ false → (rank p.state < 17) ⊎ (p.state ≡ db_logs)

-- An accepted exchange, from a policy that is neither failed nor complete.
pub record Accepted (p q : Policy) : Type 0 where
  pub was_live : p.has_failed ≡ false
  pub was_open : p.is_complete ≡ false
  pub next : follows p.state q.state ≡ true
  pub kept : Kept p.state p q

handled-ok : (o : Ended (Unit {0})) → (handled o).0 ≡ ok tt → (o.0 ≡ ok tt) × ((handled o).1 ≡ o.1)
handled-ok (ok u, p) h = (refl, refl)
handled-ok (fail c, p) h = cc
handled-ok (raised (violation c), p) h = cc
handled-ok (raised value_error, p) h = cc
handled-ok (raised attribute_error, p) h = cc
handled-ok (raised type_error, p) h = cc

-- The handler refuses the answer, or hands it to `accept`.
abbrev IsHandedOn : Library → Decision → Policy → Ended (Unit {0}) → Type 0
IsHandedOn lib d q o =
    ((r : Response) × (o ≡ accept lib q d r))
    ⊎ ((c : FailureCode) × (o ≡ (raised (violation c), q)))

received-cases :
    (lib : Library) (r : Response) (d : Decision) (q : Policy)
    → IsHandedOn lib d q (received lib r d q)
unfolding received
received-cases lib r d q =
    by_tests (not (is_expected r.code d))
      (d.stream && not (one_of (media_type r.headers) stream_media))
  where
    by_tests :
        (t u : Bool)
        → IsHandedOn lib d q (
            if◌then◌else◌ {A = Ended (Unit {0})} t
              (raised (violation status_rejected), q)
              (if◌then◌else◌ {A = Ended (Unit {0})} u
                (raised (violation media_type_rejected), q)
                (accept lib q d (as_accepted d.stream r))))
    by_tests true u = inr (status_rejected, refl)
    by_tests false true = inr (media_type_rejected, refl)
    by_tests false false = inl (as_accepted d.stream r, refl)

accept-Accepted :
    (lib : Library) (p : Policy) (x : Exchange) (d : Decision) (q : Policy) (r : Response)
    → authorize lib p x.request ≡ (ok d, q)
    → (handled (accept lib q d r)).0 ≡ ok tt
    → Accepted p (handled (accept lib q d r)).1
accept-Accepted lib p x d q r e h =
    let (accepted, same) = handled-ok (accept lib q d r) h in
    let asked = authorize-eq-ok lib p x.request {d = d} (ap (λ (t : Ended Decision). t.0) e) in
    ground
      (arith, asked, e, same, accept-follows lib q d r accepted, accept-Kept lib q d r accepted)

received-Accepted :
    (lib : Library) (p : Policy) (x : Exchange) (d : Decision) (q : Policy) (o : Ended (Unit {0}))
    → authorize lib p x.request ≡ (ok d, q)
    → IsHandedOn lib d q o
    → (handled o).0 ≡ ok tt
    → Accepted p (handled o).1
received-Accepted lib p x d q o e (inl (r, same)) =
    subst (λ o. (handled o).0 ≡ ok tt → Accepted p (handled o).1) (sym same)
      (accept-Accepted lib p x d q r e)
received-Accepted lib p x d q o e (inr (c, same)) =
    subst (λ o. (handled o).0 ≡ ok tt → Accepted p (handled o).1) (sym same) (λ h. cc)

answered-Accepted :
    (lib : Library) (p : Policy) (x : Exchange) (o : Ended Decision)
    → authorize lib p x.request ≡ o
    → (handled (answered lib x.response o)).0 ≡ ok tt
    → Accepted p (handled (answered lib x.response o)).1
answered-Accepted lib p x (ok d, q) e h =
    received-Accepted lib p x d q _ e (received-cases lib x.response d q) h
answered-Accepted lib p x (fail c, q) e h = cc
answered-Accepted lib p x (raised (violation c), q) e h = cc
answered-Accepted lib p x (raised value_error, q) e h = cc
answered-Accepted lib p x (raised attribute_error, q) e h = cc
answered-Accepted lib p x (raised type_error, q) e h = cc

pub exchange-Accepted :
    (lib : Library) (p : Policy) (x : Exchange)
    → (exchange lib p x).0 ≡ ok tt
    → Accepted p (exchange lib p x).1
unfolding exchange
exchange-Accepted lib p x = answered-Accepted lib p x (authorize lib p x.request) refl

handled-Refused :
    (p : Policy) (o : Ended (Unit {0}))
    → ((handled o).0 ≢ ok tt → Refused p o.1)
    → (handled o).0 ≢ ok tt
    → Refused p (handled o).1
handled-Refused p (ok u, q) k h = absurd (h refl)
handled-Refused p (fail c, q) k h = ground (arith, k h)
handled-Refused p (raised (violation c), q) k h = ground (arith, k h)
handled-Refused p (raised value_error, q) k h = k h
handled-Refused p (raised attribute_error, q) k h = k h
handled-Refused p (raised type_error, q) k h = k h

accept-ne : (o : Ended (Unit {0})) → (handled o).0 ≢ ok tt → o.0 ≢ ok tt
accept-ne (ok u, q) h = h
accept-ne (fail c, q) h = λ e. cc
accept-ne (raised e, q) h = λ e. cc

accept-Refused_run :
    (lib : Library) (p : Policy) (x : Exchange) (d : Decision) (q : Policy) (r : Response)
    → authorize lib p x.request ≡ (ok d, q)
    → (handled (accept lib q d r)).0 ≢ ok tt
    → Refused p (handled (accept lib q d r)).1
accept-Refused_run lib p x d q r e =
    let asked = authorize-eq-ok lib p x.request {d = d} (ap (λ (t : Ended Decision). t.0) e) in
    handled-Refused p (accept lib q d r)
      λ ne. ground (arith, asked, e, accept-Refused lib q d r (accept-ne (accept lib q d r) ne))

received-Refused :
    (lib : Library) (p : Policy) (x : Exchange) (d : Decision) (q : Policy) (o : Ended (Unit {0}))
    → authorize lib p x.request ≡ (ok d, q)
    → IsHandedOn lib d q o
    → (handled o).0 ≢ ok tt
    → Refused p (handled o).1
received-Refused lib p x d q o e (inl (r, same)) =
    subst (λ o. (handled o).0 ≢ ok tt → Refused p (handled o).1) (sym same)
      (accept-Refused_run lib p x d q r e)
received-Refused lib p x d q o e (inr (c, same)) =
    let asked = authorize-eq-ok lib p x.request {d = d} (ap (λ (t : Ended Decision). t.0) e) in
    subst (λ o. (handled o).0 ≢ ok tt → Refused p (handled o).1) (sym same)
      (λ h. ground (arith, asked, e))

answered-Refused :
    (lib : Library) (p : Policy) (x : Exchange) (o : Ended Decision)
    → authorize lib p x.request ≡ o
    → (handled (answered lib x.response o)).0 ≢ ok tt
    → Refused p (handled (answered lib x.response o)).1
answered-Refused lib p x (ok d, q) e =
    received-Refused lib p x d q _ e (received-cases lib x.response d q)
answered-Refused lib p x (fail c, q) e =
    handled-Refused p (fail c, q) λ ne. ground (arith, e, authorize-Refused lib p x.request)
answered-Refused lib p x (raised f, q) e =
    handled-Refused p (raised f, q) λ ne. ground (arith, e, authorize-Refused lib p x.request)

pub exchange-Refused :
    (lib : Library) (p : Policy) (x : Exchange)
    → (exchange lib p x).0 ≢ ok tt
    → Refused p (exchange lib p x).1
unfolding exchange
exchange-Refused lib p x = answered-Refused lib p x (authorize lib p x.request) refl

-- The lifecycle ends behind the removal of the migration, and nowhere else.
remove-follows :
    (s t : State)
    → follows s t ≡ true
    → rank s < 17
    → (state_eq s gotrue_remove ≡ true) × (t ≡ completed)
      ⊎ (state_eq s gotrue_remove ≡ false) × (t ≢ completed) × ((rank t < 17) ⊎ (t ≡ db_logs))
remove-follows gotrue_remove t e u = ground arith
remove-follows _ t e u = ground arith

-- An accepted exchange in a state before the last ones.
module _ {p q : Policy} {log : List State} (a : Accepted p q) (t : Trailed p log) where
  early-Trailed : rank p.state < 17 → Trailed q (p.state ∷ log)
  early-Trailed u =
      let (f, k, e, s, le) = t.live a.was_live in
      let (g, j, eq, sp, lj) =
        trail-follows p.state q.state f k q.health_probe_count a.next s
          (omega (arith, a.kept.probes)) (λ x y. a.kept.waits y x) u in
      let eq' = ap (λ l. p.state ∷ l) e ∙ eq in
      let ends = remove-follows p.state q.state a.next u in
      record {
        live = λ _. (g, j, eq', sp, lj);
        done = λ c.
            let there : q.state ≡ completed = ground (arith, a.kept.complete, a.was_open) in
            (g, j, rw there at eq', rw there at sp);
        closes = λ _ c. ground (arith, a.kept.complete);
        opens = λ _ o. ground (arith, a.kept.complete);
      }

  logs-Trailed : p.state ≡ db_logs → Trailed q (p.state ∷ log)
  logs-Trailed d = record {
    live = λ l. absurd (ground (arith, a.kept.failed));
    done = λ c. absurd (ground (arith, a.kept.complete, a.was_open));
    closes = λ l _. absurd (ground (arith, a.kept.failed));
    opens = λ l _. absurd (ground (arith, a.kept.failed));
  }

  Trailed-Accepted : Trailed q (p.state ∷ log)
  Trailed-Accepted = elim (t.opens a.was_live a.was_open) [
    | inl u ↦ early-Trailed u
    | inr d ↦ logs-Trailed d
  ]

Trailed-Refused : {p q : Policy} {log : List State} → Refused p q → Trailed p log → Trailed q log
Trailed-Refused {p} {q} {log} (inl h) t = record {
  live = λ l. absurd (cc);
  done = λ c. t.done (sym h.1 ∙ c);
  closes = λ l e. absurd (cc);
  opens = λ l. absurd (cc);
}
Trailed-Refused {p} {q} {log} (inr h) t = record {
  live =
      λ l. let (f, k, e, s, le) = t.live (sym h.1 ∙ l) in (f, k, rw h.0 e, rw h.0 s, omega arith);
  done = λ c. t.done (sym h.2 ∙ c);
  closes = λ l e. h.2 ∙ t.closes (sym h.1 ∙ l) (sym h.0 ∙ e);
  opens = λ l o. rw h.0 (t.opens (sym h.1 ∙ l) (sym h.2 ∙ o));
}

note-Trailed :
    (lib : Library) (p : Policy) (x : Exchange) (log : List State) (o : Outcome (Unit {0}))
    → (exchange lib p x).0 ≡ o
    → Trailed p log
    → Trailed (exchange lib p x).1 (note_accepted p.state o log)
note-Trailed lib p x log (ok u) e t = Trailed-Accepted (exchange-Accepted lib p x e) t
note-Trailed lib p x log (fail c) e t = Trailed-Refused (exchange-Refused lib p x (λ h. cc)) t
note-Trailed lib p x log (raised f) e t = Trailed-Refused (exchange-Refused lib p x (λ h. cc)) t

run-Trailed :
    (lib : Library) (p : Policy) (log : List State) (xs : List Exchange)
    → Trailed p log
    → Trailed (run lib p log xs).0 (run lib p log xs).1
unfolding run
run-Trailed lib p log [] t = t
run-Trailed lib p log (x ∷ xs) t =
    let (o, q) = exchange lib p x in
    run-Trailed lib q (note_accepted p.state o log) xs (note-Trailed lib p x log o refl t)

abbrev pub IsFresh : Policy → Type 0
IsFresh p = (p.state ≡ negotiate_head) × (p.has_failed ≡ false) × (p.is_complete ≡ false)

fresh-Trailed : (p : Policy) → IsFresh p → Trailed p []
fresh-Trailed p h = record {
  live = λ _. (false, 0, ground arith, ground arith, omega arith);
  done = λ c. absurd (ground arith);
  closes = λ _ c. ground arith;
  opens = λ _ _. inl (ground arith);
}

-- Whatever the client asks and Docker answers, if a policy starts fresh and is complete at the
-- end of the run, then the accepted exchanges of the run are those of the one lifecycle in its
-- order, each once, but that the ping is there once or twice and the health probe from 1 to 121
-- times.
pub complete_trail :
    (lib : Library) (p : Policy) (xs : List Exchange)
    → IsFresh p
    → (run lib p [] xs).0.is_complete ≡ true
    → (f : Bool) × (k : ℕ) × ((run lib p [] xs).1 ≡ trail f k completed) × (1 ≤ k) × (k ≤ 121)
complete_trail lib p xs h c =
    let (f, k, e, s) = (run-Trailed lib p [] xs (fresh-Trailed p h)).done c in
    (f, k, e, ground arith, ground arith)
