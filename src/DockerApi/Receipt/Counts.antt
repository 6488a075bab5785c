-- ===== src/DockerApi/Receipt/Counts.antt =====
-- The counters of a receipt, compared with one another.
use hosted_replay_harness.DockerApi.Receipt.{
  Counter, Receipt, StatusClass, attach_policy, bump, class_index, connect, forwarding_error,
  method_index, parser_error, phase_index, policy_violation, request, response, status_1xx,
  sync_policy, write_attempt, is_error, new_receipt, note_error, status_class,
}
use hosted_replay_harness.DockerApi.Outcome.{FailureCode}
use hosted_replay_harness.DockerApi.Library.{Library}
use hosted_replay_harness.Prelude.{
  List, [], arith, none, refl, suc, zero, ℕ, ◌+◌, ◌<◌, ◌∷◌, ◌≡◌, ◌≤◌, Bool, Option, false, some,
  true,
}
use hosted_replay_harness.DockerApi.Path.{MethodClass, Phase, api_negotiation, read}
use hosted_replay_harness.DockerApi.Policy.State.{Policy}

-- A receipt is built by its operations alone.
pub data Operation : Type 0 where
  on_attach : Policy → Operation
  on_sync : Policy → Operation
  on_violation : FailureCode → Operation
  on_connect on_write_attempt on_forwarding_error on_parser_error : Operation
  on_request : Phase → MethodClass → Operation
  on_response : Phase → ℕ → Operation

abbrev pub apply : Library → Operation → Receipt → Receipt
apply lib (on_attach p) r = attach_policy p r
apply lib (on_sync p) r = sync_policy lib p r
apply lib (on_violation c) r = policy_violation c r
apply lib on_connect r = connect r
apply lib on_write_attempt r = write_attempt r
apply lib on_forwarding_error r = forwarding_error r
apply lib on_parser_error r = parser_error r
apply lib (on_request phase method) r = request phase method r
apply lib (on_response phase code) r = response phase code r

abbrev pub apply_all : Library → List Operation → Receipt → Receipt
apply_all lib [] r = r
apply_all lib (o ∷ os) r = apply_all lib os (apply lib o r)

-- the sum of the first `n` entries
abbrev pub total : ℕ → Counter → ℕ
total zero c = 0
total (suc n) c = c n + total n c

total-bump_out : (n k : ℕ) (c : Counter) → n ≤ k → total n (bump k c) ≡ total n c
total-bump_out zero k c h = refl
total-bump_out (suc n) k c h = ground (arith, total-bump_out n k c)

total-bump : (n k : ℕ) (c : Counter) → k < n → total n (bump k c) ≡ total n c + 1
total-bump zero k c h = absurd (omega arith)
total-bump (suc n) k c h = ground (arith, total-bump n k c, total-bump_out n k c)

phase_index-lt : (p : Phase) → phase_index p < 14
phase_index-lt api_negotiation = omega arith
phase_index-lt _ = omega arith

method_index-lt : (m : MethodClass) → method_index m < 4
method_index-lt read = omega arith
method_index-lt _ = omega arith

class_index-lt : (c : StatusClass) → class_index c < 6
class_index-lt status_1xx = omega arith
class_index-lt _ = omega arith

pub record Agrees (r : Receipt) : Type 0 where
  pub phases : total 14 r.phase_counts ≡ r.request_count
  pub methods : total 4 r.method_counts ≡ r.request_count
  pub classes : total 6 r.status_class_counts ≡ r.response_count
  pub errors : r.error_response_count ≤ r.response_count
  pub first_request : r.first_phase ≡ none → r.request_count ≡ 0
  pub first_error : r.first_error_phase ≡ none → r.error_response_count ≡ 0
  pub first_violation : r.policy_failure_code ≡ none → r.policy_violation_count ≡ 0

-- An answer that is, or is not, an error leaves the other counters alone.
note_error-Agrees :
    (b : Bool) (first : Option Phase) (phase : Phase) (code : ℕ) (r : Receipt)
    → total 14 r.phase_counts ≡ r.request_count
    → total 4 r.method_counts ≡ r.request_count
    → total 6 r.status_class_counts ≡ r.response_count
    → r.error_response_count < r.response_count
    → (r.first_phase ≡ none → r.request_count ≡ 0)
    → (r.first_error_phase ≡ none → r.error_response_count ≡ 0)
    → (r.policy_failure_code ≡ none → r.policy_violation_count ≡ 0)
    → r.first_error_phase ≡ first
    → Agrees (note_error b first phase code r)
note_error-Agrees false first phase code r a b c e f g h same = record {
  phases = a;
  methods = b;
  classes = c;
  errors = omega arith;
  first_request = f;
  first_error = g;
  first_violation = h;
}
note_error-Agrees true none phase code r a b c e f g h same = record {
  phases = a;
  methods = b;
  classes = c;
  errors = omega arith;
  first_request = f;
  first_error = λ n. absurd (cc);
  first_violation = h;
}
note_error-Agrees true (some q) phase code r a b c e f g h same = record {
  phases = a;
  methods = b;
  classes = c;
  errors = omega arith;
  first_request = f;
  first_error = λ n. absurd (cc);
  first_violation = h;
}

apply-Agrees : (lib : Library) (o : Operation) (r : Receipt) → Agrees r → Agrees (apply lib o r)
unfolding attach_policy sync_policy policy_violation connect write_attempt forwarding_error
    parser_error request response
apply-Agrees lib (on_request phase method) r a = record {
  phases =
      omega
        (arith, a.phases, total-bump 14 (phase_index phase) r.phase_counts (phase_index-lt phase));
  methods = omega (
    arith,
    a.methods,
    total-bump 4 (method_index method) r.method_counts (method_index-lt method),
  );
  classes = a.classes;
  errors = a.errors;
  first_request = λ e. ground arith;
  first_error = a.first_error;
  first_violation = a.first_violation;
}
apply-Agrees lib (on_response phase code) r a =
    note_error-Agrees (is_error code) r.first_error_phase phase code _ a.phases a.methods
      (omega (
        arith,
        a.classes,
        total-bump 6 (class_index (status_class code)) r.status_class_counts
            (class_index-lt (status_class code)),
      ))
      (omega (arith, a.errors)) a.first_request a.first_error a.first_violation refl
apply-Agrees lib _ r a = ground arith

apply_all-Agrees :
    (lib : Library) (os : List Operation) (r : Receipt) → Agrees r → Agrees (apply_all lib os r)
apply_all-Agrees lib [] r a = a
apply_all-Agrees lib (o ∷ os) r a = apply_all-Agrees lib os (apply lib o r) (apply-Agrees lib o r a)

new_receipt-Agrees : Agrees new_receipt
unfolding new_receipt
new_receipt-Agrees = ground arith

-- In every receipt that operations build from a new one, the phase counts and the method counts
-- add up to the requests, the status classes add up to the responses, errors are among the
-- responses, and the first phase, the first error and the first failure code are there from the
-- first request, the first error and the first violation on.
pub receipt-Agrees : (lib : Library) (os : List Operation) → Agrees (apply_all lib os new_receipt)
receipt-Agrees lib os = apply_all-Agrees lib os new_receipt new_receipt-Agrees
