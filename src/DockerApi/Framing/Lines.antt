-- ===== src/DockerApi/Framing/Lines.antt =====
-- What a line leaves in the buffer: nothing reads further, and an exception ends the loop.
use hosted_replay_harness.Prelude.{
  Bool, Bytes, Option, [], before, false, if◌then◌else◌, none, refl, some, suc, true, zero, ◌&&◌,
  ◌∷◌, ◌≡◌, ltb, codes, not, starts_with, ◌++◌, ◌||◌, cut, decimal_from, equal, has_infix,
  lower_all, strip,
}
use hosted_replay_harness.DockerApi.Framing.{
  Parser, Turn, on, out, Mode, at_line, in_body, in_chunk_crlf, in_chunk_data, in_chunk_size,
  in_chunk_trailer, in_headers, Feeding, Shared, chunk_size_turn, ending, request_turn,
  response_turn, write_failure, finish_headers, header_turn, parse_named, Side, first_line, line_in,
  parse_header, request_side, response_side, three_parts, two_parts, value_failure, Fed, fed,
  is_number,
}
use hosted_replay_harness.Value.{negsuc, pos, ℤ}
use hosted_replay_harness.DockerApi.Path.{
  MethodClass, classify_path, delete, method_class, other, read, write,
}
use hosted_replay_harness.DockerApi.Receipt.{Receipt, request, write_attempt}
use hosted_replay_harness.DockerApi.Framing.Numbers.{parse_hex}

abbrev pub is_fed : Fed → Bool
is_fed fed = true
is_fed _ = false

-- A line that goes on has `b` left to read; one that ends the loop raises an exception.
abbrev pub Leaves : Bytes → Turn → Type 0
Leaves b (on q s) = q.buffer ≡ b
Leaves b (out f) = is_fed f.ended ≡ false

size-Leaves : (o : Option ℤ) (p : Parser) (s : Shared) → Leaves p.buffer (chunk_size_turn o p s)
size-Leaves none p s = refl
size-Leaves (some (pos zero)) p s = refl
size-Leaves (some (pos (suc n))) p s = refl
size-Leaves (some (negsuc n)) p s = refl

out_or-Leaves :
    (t : Bool) (b : Bytes) (f : Feeding) (u : Turn)
    → is_fed f.ended ≡ false
    → Leaves b u
    → Leaves b (if t then out f else u)
out_or-Leaves true b f u e l = e
out_or-Leaves false b f u e l = l

request-Leaves :
    (o : Option (Bytes × Bytes × Bytes)) (p : Parser) (s : Shared)
    → Leaves p.buffer (request_turn o p s)
unfolding request_turn
request-Leaves none p s = refl
request-Leaves (some (method, target, version)) p s =
    out_or-Leaves (not (starts_with version (codes "HTTP/1."))) p.buffer _ _ refl
      (by_class (method_class method))
  where
    noted : Receipt
    noted = request (classify_path method target) (method_class method) s.receipt

    by_class :
        (m : MethodClass)
        → Leaves p.buffer (elim m [
          | read ↦
              on
                (record p { mode = in_headers })
                (record {
                  receipt = noted;
                  pending = s.pending ++ ((classify_path method target, method) ∷ []);
                })
          | _ ↦ out (ending write_failure p (record s { receipt = write_attempt noted }))
        ])
    by_class read = refl
    by_class write = refl
    by_class delete = refl
    by_class other = refl

response-Leaves :
    (o : Option (Bytes × Bytes)) (p : Parser) (s : Shared) → Leaves p.buffer (response_turn o p s)
unfolding response_turn
response-Leaves none p s = refl
response-Leaves (some (version, status)) p s =
    out_or-Leaves (not (starts_with version (codes "HTTP/1.")) || not (is_number status)) p.buffer _
      _ refl refl

abbrev MayLeave : Bytes → Option Parser → Type 0
MayLeave b none = Unit
MayLeave b (some q) = q.buffer ≡ b

either-MayLeave :
    (t : Bool) (b : Bytes) (x y : Option Parser)
    → MayLeave b x
    → MayLeave b y
    → MayLeave b (if t then x else y)
either-MayLeave true b x y l m = l
either-MayLeave false b x y l m = m

parse_named-MayLeave :
    (name value : Bytes) (p : Parser) → MayLeave p.buffer (parse_named name value p)
parse_named-MayLeave name value p =
    either-MayLeave (equal name (codes "content-length")) p.buffer _ _
      (either-MayLeave (is_number value) p.buffer
        (some (record p { content_length = decimal_from 0 value })) none refl tt)
      (either-MayLeave (equal name (codes "transfer-encoding") && has_infix (codes "chunked") value)
        p.buffer (some (record p { chunked = true })) (some p) refl refl)

parse_header-MayLeave : (line : Bytes) (p : Parser) → MayLeave p.buffer (parse_header line p)
unfolding parse_header
parse_header-MayLeave line p = by_cut (cut b':' line)
  where
    by_cut :
        (o : Option (Bytes × Bytes))
        → MayLeave p.buffer (elim o [
          | none ↦ none
          | some (name, value) ↦ parse_named (lower_all (strip name)) (lower_all (strip value)) p
        ])
    by_cut none = tt
    by_cut (some (name, value)) =
        parse_named-MayLeave (lower_all (strip name)) (lower_all (strip value)) p

finish_headers-buffer : (p : Parser) → (finish_headers p).buffer ≡ p.buffer
unfolding finish_headers
finish_headers-buffer p = by_tests p.chunked (ltb 0 p.content_length)
  where
    by_tests :
        (t u : Bool)
        → (if◌then◌else◌ {A = Parser} t
            (record p { chunked = false; content_length = 0; mode = in_chunk_size })
            (if u
              then record p {
                chunked = false;
                content_length = 0;
                content_remaining = p.content_length;
                mode = in_body;
              }
              else record p { chunked = false; content_length = 0; mode = at_line })).buffer
          ≡ p.buffer
    by_tests true u = refl
    by_tests false true = refl
    by_tests false false = refl

header-Leaves :
    (t : Bool) (line : Bytes) (p : Parser) (s : Shared) → Leaves p.buffer (header_turn t line p s)
unfolding header_turn
header-Leaves true [] p s = refl
header-Leaves false [] p s = finish_headers-buffer p
header-Leaves t (c ∷ line) p s =
    by_result (parse_header (c ∷ line) p) (parse_header-MayLeave (c ∷ line) p)
  where
    by_result :
        (o : Option Parser)
        → MayLeave p.buffer o
        → Leaves p.buffer (elim o [ none ↦ out (ending value_failure p s) | some q ↦ on q s ])
    by_result none m = refl
    by_result (some q) m = m

first-Leaves :
    (side : Side) (line : Bytes) (p : Parser) (s : Shared)
    → Leaves p.buffer (first_line side line p s)
unfolding first_line
first-Leaves request_side line p s = request-Leaves (three_parts line) p s
first-Leaves response_side line p s = response-Leaves (two_parts line) p s

pub line-Leaves :
    (side : Side) (m : Mode) (line : Bytes) (p : Parser) (s : Shared)
    → Leaves p.buffer (line_in side m line p s)
unfolding line_in
line-Leaves side in_chunk_size line p s = size-Leaves (parse_hex (before b';' line)) p s
line-Leaves side in_chunk_trailer [] p s = refl
line-Leaves side in_chunk_trailer (c ∷ line) p s = refl
line-Leaves side at_line line p s = first-Leaves side line p s
line-Leaves side in_headers line p s = header-Leaves p.no_body line p s
line-Leaves side in_body line p s = refl
line-Leaves side in_chunk_data line p s = refl
line-Leaves side in_chunk_crlf line p s = refl
