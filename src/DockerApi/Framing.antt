-- ===== src/DockerApi/Framing.antt =====
-- `HTTPFramingParser`, `RequestParser` and `ResponseParser`: the read-only observer's view of the
-- two byte streams. `feed` works on the bytes that earlier calls left in the buffer.
pub mod Numbers
pub mod Lines
pub mod Ending
pub mod Attempts
pub mod Relay
use hosted_replay_harness.Prelude.{
  Bool, Bytes, List, Option, [], before, codes, cut, cut_crlf, decimal_from, drop, equal, false,
  has_infix, if◌then◌else◌, is_digits, leb, length, lower_all, ltb, none, not, some, starts_with,
  strip, suc, true, zero, ℕ, ◌&&◌, ◌++◌, ◌-◌, ◌==◌, ◌||◌, ◌∷◌,
}
use hosted_replay_harness.DockerApi.Path.{
  Phase, classify_path, method_class, read, unknown_api_phase,
}
use hosted_replay_harness.DockerApi.Receipt.{Receipt, request, response, write_attempt}
use hosted_replay_harness.Value.{negsuc, pos, size, ℤ}
use hosted_replay_harness.DockerApi.Framing.Numbers.{parse_hex}

-- The states of the parser.
pub data Mode : Type 0 where
  at_line in_headers in_body in_chunk_size in_chunk_data in_chunk_crlf in_chunk_trailer : Mode

-- `chunk_remaining` may be negative, since `int(token, 16)` may.
pub record Parser : Type 0 where
  pub buffer : Bytes
  pub mode : Mode
  pub content_remaining : ℕ
  pub chunk_remaining : ℤ
  pub chunked : Bool
  pub content_length : ℕ
  pub no_body : Bool

abbrev pub new_parser : Parser
new_parser = record {
  buffer = [];
  mode = at_line;
  content_remaining = 0;
  chunk_remaining = pos 0;
  chunked = false;
  content_length = 0;
  no_body = false;
}

abbrev pub max_line : ℕ
max_line = 16384

-- `pop_line`: a `ValueError`, no line yet, or the line, with the buffer behind it.
pub data Popped : Type 0 where
  too_long no_line : Popped
  popped : Bytes → Bytes → Popped

unfoldable pub pop_line : Bytes → Popped
pop_line buffer = elim (cut_crlf buffer) [
  | none ↦ if ltb max_line (length buffer) then too_long else no_line
  | some (line, rest) ↦ popped line rest
]

-- the last `k` bytes, which `del buffer[:-k]` leaves
abbrev last_bytes : ℕ → Bytes → Bytes
last_bytes k buffer = drop (length buffer - k) buffer

abbrev ends_chunk : Bytes → Parser → Parser
ends_chunk rest p = record p { buffer = rest; chunk_remaining = pos 0; mode = in_chunk_crlf }

abbrev consume_chunk : ℤ → Parser → Parser × Bool
consume_chunk (pos n) p =
    if leb n (length p.buffer) then (ends_chunk (drop n p.buffer) p, ltb 0 n) else (
      record p { buffer = []; chunk_remaining = pos (n - length p.buffer) },
      ltb 0 (length p.buffer),
    )
consume_chunk (negsuc n) p = (ends_chunk (last_bytes (suc n) p.buffer) p, false)

abbrev consume_content : Parser → Parser × Bool
consume_content p =
    if leb p.content_remaining (length p.buffer)
    then (
      record p {
        buffer = drop p.content_remaining p.buffer;
        content_remaining = 0;
        mode = at_line;
      },
      ltb 0 p.content_remaining,
    )
    else (
      record p { buffer = []; content_remaining = p.content_remaining - length p.buffer },
      ltb 0 (length p.buffer),
    )

-- The result of `consume_body`: `none` is a `ValueError`.
abbrev consume_crlf : Bytes → Parser → Option (Parser × Bool)
consume_crlf [] p = some (p, false)
consume_crlf (a ∷ []) p = some (p, false)
consume_crlf (a ∷ (b ∷ rest)) p =
    if (a == b'\r') && (b == b'\n')
    then some (record p { buffer = rest; mode = in_chunk_size }, true)
    else none

consume_in : Mode → Parser → Option (Parser × Bool)
consume_in in_body p = some (consume_content p)
consume_in in_chunk_data p = some (consume_chunk p.chunk_remaining p)
consume_in in_chunk_crlf p = consume_crlf p.buffer p
consume_in _ p = some (p, false)

pub consume_body : Parser → Option (Parser × Bool)
unfolding consume_in
consume_body p = consume_in p.mode p

-- `value.isdigit()`, where `int(value)` does not raise `ValueError`: that takes 4300 digits at most.
abbrev is_number : Bytes → Bool
is_number value = is_digits value && leb (length value) 4300

abbrev parse_named : Bytes → Bytes → Parser → Option Parser
parse_named name value p =
    if equal name (codes "content-length")
    then if is_number value then some (record p { content_length = decimal_from 0 value }) else none
    else if equal name (codes "transfer-encoding") && has_infix (codes "chunked") value
    then some (record p { chunked = true })
    else some p

pub parse_header : Bytes → Parser → Option Parser
parse_header line p = elim (cut b':' line) [
  | none ↦ none
  | some (name, value) ↦ parse_named (lower_all (strip name)) (lower_all (strip value)) p
]

pub finish_headers : Parser → Parser
finish_headers p =
    let reset = record p { chunked = false; content_length = 0 } in
    if p.chunked
    then record reset { mode = in_chunk_size }
    else if ltb 0 p.content_length
    then record reset { content_remaining = p.content_length; mode = in_body }
    else record reset { mode = at_line }

-- What a parser shares with the receipt and with its twin: the requests that await an answer.
pub record Shared : Type 0 where
  pub receipt : Receipt
  pub pending : List (Phase × Bytes)

-- How `feed` ends: all read, a `ValueError`, or a `WriteAttemptError`.
pub data Fed : Type 0 where
  fed value_failure write_failure : Fed

pub record Feeding : Type 0 where
  pub ended : Fed
  pub parser : Parser
  pub shared : Shared

abbrev ending : Fed → Parser → Shared → Feeding
ending e p s = record { ended = e; parser = p; shared = s }

-- One turn of the loop, either on or out.
pub data Turn : Type 0 where
  on : Parser → Shared → Turn
  out : Feeding → Turn

abbrev chunk_size_turn : Option ℤ → Parser → Shared → Turn
chunk_size_turn none p s = out (ending value_failure p s)
chunk_size_turn (some (pos zero)) p s = on (record p { mode = in_chunk_trailer }) s
chunk_size_turn (some size) p s = on (record p { chunk_remaining = size; mode = in_chunk_data }) s

abbrev is_blank_line : Bytes → Bool
is_blank_line [] = true
is_blank_line _ = false

-- `line.split(b" ", 2)` into exactly three parts
abbrev three_parts : Bytes → Option (Bytes × Bytes × Bytes)
three_parts line = elim (cut b' ' line) [
  | none ↦ none
  | some (a, rest) ↦ elim (cut b' ' rest) [ none ↦ none | some (b, c) ↦ some (a, b, c) ]
]

request_turn : Option (Bytes × Bytes × Bytes) → Parser → Shared → Turn
request_turn none p s = out (ending value_failure p s)
request_turn (some (method, target, version)) p s =
    let phase = classify_path method target in
    let noted = request phase (method_class method) s.receipt in
    if not (starts_with version (codes "HTTP/1."))
    then out (ending value_failure p s)
    else elim (method_class method) [
      | read ↦
          on (record p { mode = in_headers })
            (record { receipt = noted; pending = s.pending ++ ((phase, method) ∷ []) })
      | _ ↦ out (ending write_failure p (record s { receipt = write_attempt noted }))
    ]

header_turn : Bool → Bytes → Parser → Shared → Turn
header_turn no_body [] p s =
    if no_body
    then on (record p { mode = at_line; chunked = false; content_length = 0; no_body = false }) s
    else on (record (finish_headers p) { no_body = false }) s
header_turn no_body line p s = elim (parse_header line p) [
  | none ↦ out (ending value_failure p s)
  | some q ↦ on q s
]

abbrev pub no_body_for : Bytes → ℕ → Bool
no_body_for method code =
    (equal method (codes "HEAD") || ((code == 204) || (code == 304)))
    || (leb 100 code && ltb code 200)

-- `pending.popleft()`, or what an answer to no request is noted under
abbrev pop_pending : List (Phase × Bytes) → Phase × Bytes × List (Phase × Bytes)
pop_pending [] = (unknown_api_phase, [], [])
pop_pending ((phase, method) ∷ rest) = (phase, method, rest)

-- `line.split(b" ", 2)` with its first two parts
abbrev two_parts : Bytes → Option (Bytes × Bytes)
two_parts line = elim (cut b' ' line) [ none ↦ none | some (a, rest) ↦ some (a, before b' ' rest) ]

response_turn : Option (Bytes × Bytes) → Parser → Shared → Turn
response_turn none p s = out (ending value_failure p s)
response_turn (some (version, status)) p s =
    let code = decimal_from 0 status in
    let (phase, method, rest) = pop_pending s.pending in
    if not (starts_with version (codes "HTTP/1.")) || not (is_number status)
    then out (ending value_failure p s)
    else on (record p { mode = in_headers; no_body = no_body_for method code })
        (record { receipt = response phase code s.receipt; pending = rest })

pub data Side : Type 0 where
  request_side response_side : Side

first_line : Side → Bytes → Parser → Shared → Turn
unfolding request_turn response_turn
first_line request_side line p s = request_turn (three_parts line) p s
first_line response_side line p s = response_turn (two_parts line) p s

-- a line in each mode; `int(token, 16)` is `parse_hex`
pub line_in : Side → Mode → Bytes → Parser → Shared → Turn
unfolding first_line header_turn parse_hex
line_in side in_chunk_size line p s = chunk_size_turn (parse_hex (before b';' line)) p s
line_in side in_chunk_trailer [] p s = on (record p { mode = at_line }) s
line_in side at_line line p s = first_line side line p s
line_in side in_headers line p s = header_turn p.no_body line p s
line_in side _ line p s = on p s

popped_turn : Side → Popped → Parser → Shared → Turn
unfolding line_in
popped_turn side too_long p s = out (ending value_failure p s)
popped_turn side no_line p s = out (ending fed p s)
popped_turn side (popped line rest) p s = line_in side p.mode line (record p { buffer = rest }) s

-- behind `consume_body`
consumed_turn : Side → Option (Parser × Bool) → Parser → Shared → Turn
unfolding popped_turn
consumed_turn side none p s = out (ending value_failure p s)
consumed_turn side (some (q, true)) p s = on q s
consumed_turn side (some (q, false)) p s = popped_turn side (pop_line q.buffer) q s

-- `while self.buffer:`
pub turn : Side → Bytes → Parser → Shared → Turn
unfolding consumed_turn consume_body
turn side [] p s = out (ending fed p s)
turn side _ p s = consumed_turn side (consume_body p) p s

-- Fuel for each turn; `out_of_fuel` does not happen below (see Ending).
feed_loop : ℕ → Side → Parser → Shared → Option Feeding
unfolding turn
feed_loop zero side p s = none
feed_loop (suc n) side p s = elim (turn side p.buffer p s) [
  | on q t ↦ feed_loop n side q t
  | out f ↦ some f
]

-- Each turn that goes on shortens the buffer, so its length is fuel enough.
pub feed : Side → Bytes → Parser → Shared → Option Feeding
unfolding feed_loop
feed side received p s =
    let q = record p { buffer = p.buffer ++ received } in feed_loop (suc (length q.buffer)) side q s
