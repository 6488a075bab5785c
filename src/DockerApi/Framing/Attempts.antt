-- ===== src/DockerApi/Framing/Attempts.antt =====
-- The write attempts that `feed` counts.
use native.Mathlib.Omega.{arith}
use hosted_replay_harness.Prelude.{
  Bool, Bytes, Option, [], before, codes, decimal_from, false, if◌then◌else◌, length, none, not,
  refl, some, starts_with, suc, true, zero, ℕ, ◌++◌, ◌+◌, ◌||◌, ◌∷◌, ◌≡◌,
}
use hosted_replay_harness.DockerApi.Framing.{
  Fed, Feeding, Mode, Parser, Popped, Shared, Side, Turn, at_line, chunk_size_turn, consume_body,
  consumed_turn, ending, fed, feed, feed_loop, first_line, header_turn, in_body, in_chunk_crlf,
  in_chunk_data, in_chunk_size, in_chunk_trailer, in_headers, line_in, no_line, on, out,
  parse_header, pop_line, popped, popped_turn, request_side, request_turn, response_side,
  response_turn, three_parts, too_long, turn, two_parts, value_failure, write_failure, is_number,
}
use hosted_replay_harness.DockerApi.Path.{
  MethodClass, Phase, classify_path, delete, method_class, other, read, write,
}
use hosted_replay_harness.DockerApi.Receipt.{
  Receipt, bump, class_index, is_error, listed, note_error, request, response, status_class,
  write_attempt,
}
use hosted_replay_harness.Value.{negsuc, pos, ℤ}
use hosted_replay_harness.DockerApi.Framing.Numbers.{parse_hex}

abbrev attempts : Shared → ℕ
attempts s = s.receipt.write_attempt_count

abbrev pub raises : Fed → ℕ
raises write_failure = 1
raises value_failure = 0
raises fed = 0

-- what a turn does to a count of `w`
abbrev Counts : ℕ → Turn → Type 0
Counts w (on q s) = attempts s ≡ w
Counts w (out f) = attempts f.shared ≡ w + raises f.ended

either-Counts :
    (t : Bool) (w : ℕ) (x y : Turn) → Counts w x → Counts w y → Counts w (if t then x else y)
either-Counts true w x y a b = a
either-Counts false w x y a b = b

out-Counts : (e : Fed) (p : Parser) (s : Shared) → raises e ≡ 0 → attempts s ≡ attempts s + raises e
out-Counts e p s h = omega (arith, h)

size-Counts : (o : Option ℤ) (p : Parser) (s : Shared) → Counts (attempts s) (chunk_size_turn o p s)
size-Counts none p s = omega arith
size-Counts (some (pos zero)) p s = refl
size-Counts (some (pos (suc n))) p s = refl
size-Counts (some (negsuc n)) p s = refl

response_lem :
    (phase : Phase) (code : ℕ) (r : Receipt)
    → (response phase code r).write_attempt_count ≡ r.write_attempt_count
unfolding response
response_lem phase code r = by_test (is_error code) r.first_error_phase
  where
    counted : Receipt
    counted = record r {
      response_count = r.response_count + 1;
      status_class_counts = bump (class_index (status_class code)) r.status_class_counts;
      status_code_counts = bump (listed code) r.status_code_counts;
    }

    by_test :
        (t : Bool) (first : Option Phase)
        → (note_error t first phase code counted).write_attempt_count ≡ r.write_attempt_count
    by_test false first = refl
    by_test true none = refl
    by_test true (some first) = refl

request-Counts :
    (o : Option (Bytes × Bytes × Bytes)) (p : Parser) (s : Shared)
    → Counts (attempts s) (request_turn o p s)
unfolding request_turn request write_attempt
request-Counts none p s = omega arith
request-Counts (some (method, target, version)) p s =
    either-Counts (not (starts_with version (codes "HTTP/1."))) (attempts s) _ _ (omega arith)
      (by_class (method_class method))
  where
    noted : Receipt
    noted = request (classify_path method target) (method_class method) s.receipt

    by_class :
        (m : MethodClass)
        → Counts (attempts s) (elim m [
          | read ↦
              on
                (record p { mode = in_headers })
                (record {
                  receipt = noted;
                  pending = s.pending ++ ((classify_path method target, method) ∷ []);
                })
          | _ ↦ out (ending write_failure p (record s { receipt = write_attempt noted }))
        ])
    by_class read = refl
    by_class write = refl
    by_class delete = refl
    by_class other = refl

response-Counts :
    (o : Option (Bytes × Bytes)) (p : Parser) (s : Shared)
    → Counts (attempts s) (response_turn o p s)
unfolding response_turn
response-Counts none p s = omega arith
response-Counts (some (version, status)) p s =
    either-Counts (not (starts_with version (codes "HTTP/1.")) || not (is_number status))
      (attempts s) _ _ (omega arith) (response_lem _ (decimal_from 0 status) s.receipt)

header-Counts :
    (t : Bool) (line : Bytes) (p : Parser) (s : Shared)
    → Counts (attempts s) (header_turn t line p s)
unfolding header_turn
header-Counts true [] p s = refl
header-Counts false [] p s = refl
header-Counts t (c ∷ line) p s = by_result (parse_header (c ∷ line) p)
  where
    by_result :
        (o : Option Parser)
        → Counts (attempts s) (elim o [ none ↦ out (ending value_failure p s) | some q ↦ on q s ])
    by_result none = omega arith
    by_result (some q) = refl

first-Counts :
    (side : Side) (line : Bytes) (p : Parser) (s : Shared)
    → Counts (attempts s) (first_line side line p s)
unfolding first_line
first-Counts request_side line p s = request-Counts (three_parts line) p s
first-Counts response_side line p s = response-Counts (two_parts line) p s

line-Counts :
    (side : Side) (m : Mode) (line : Bytes) (p : Parser) (s : Shared)
    → Counts (attempts s) (line_in side m line p s)
unfolding line_in
line-Counts side in_chunk_size line p s = size-Counts (parse_hex (before b';' line)) p s
line-Counts side in_chunk_trailer [] p s = refl
line-Counts side in_chunk_trailer (c ∷ line) p s = refl
line-Counts side at_line line p s = first-Counts side line p s
line-Counts side in_headers line p s = header-Counts p.no_body line p s
line-Counts side in_body line p s = refl
line-Counts side in_chunk_data line p s = refl
line-Counts side in_chunk_crlf line p s = refl

pop-Counts :
    (side : Side) (o : Popped) (p : Parser) (s : Shared)
    → Counts (attempts s) (popped_turn side o p s)
unfolding popped_turn
pop-Counts side too_long p s = omega arith
pop-Counts side no_line p s = omega arith
pop-Counts side (popped line rest) p s = line-Counts side p.mode line (record p { buffer = rest }) s

consumed-Counts :
    (side : Side) (o : Option (Parser × Bool)) (p : Parser) (s : Shared)
    → Counts (attempts s) (consumed_turn side o p s)
unfolding consumed_turn
consumed-Counts side none p s = omega arith
consumed-Counts side (some (q, true)) p s = refl
consumed-Counts side (some (q, false)) p s = pop-Counts side (pop_line q.buffer) q s

turn-Counts :
    (side : Side) (b : Bytes) (p : Parser) (s : Shared) → Counts (attempts s) (turn side b p s)
unfolding turn
turn-Counts side [] p s = omega arith
turn-Counts side (c ∷ b) p s = consumed-Counts side (consume_body p) p s

feed_loop-attempts :
    (n : ℕ) (side : Side) (p : Parser) (s : Shared) (f : Feeding)
    → feed_loop n side p s ≡ some f
    → attempts f.shared ≡ attempts s + raises f.ended
unfolding feed_loop
feed_loop-attempts zero side p s f h = cc
feed_loop-attempts (suc n) side p s f h =
    by_turn (turn side p.buffer p s) (turn-Counts side p.buffer p s)
      (λ q u k. feed_loop-attempts n side q u f k) h
  where
    by_turn :
        (t : Turn)
        → Counts (attempts s) t
        → ((q : Parser) (u : Shared)
            → feed_loop n side q u ≡ some f
            → attempts f.shared ≡ attempts u + raises f.ended)
        → (elim t [ on q u ↦ feed_loop n side q u | out g ↦ some g ]) ≡ some f
        → attempts f.shared ≡ attempts s + raises f.ended
    by_turn (on q u) k rest e = omega (arith, k, rest q u e)
    by_turn (out g) k rest e = cc

pub feed-attempts :
    (side : Side) (received : Bytes) (p : Parser) (s : Shared) (f : Feeding)
    → feed side received p s ≡ some f
    → attempts f.shared ≡ attempts s + raises f.ended
unfolding feed
feed-attempts side received p s f h =
    let q = record p { buffer = p.buffer ++ received } in
    feed_loop-attempts (suc (length q.buffer)) side q s f h
