-- ===== src/DockerApi/Library.antt =====
-- What docker_api_boundary.py takes from `json`, `hashlib` and `urllib.parse`.
use hosted_replay_harness.Prelude.{ℕ, Bytes, Bool, String, Option, List}
use hosted_replay_harness.Value.{Value}

-- `SplitResult`. `port` is `none` where reading it raises `ValueError`.
pub record Url : Type 0 where
  pub scheme : Bytes
  pub netloc : Bytes
  pub path : Bytes
  pub query : Bytes
  pub fragment : Bytes
  pub username : Option Bytes
  pub password : Option Bytes
  pub hostname : Option Bytes
  pub port : Option (Option ℕ)

-- The items of a query or of a header block, keys distinct.
abbrev pub Query : Type 0
Query = List (Bytes × List Bytes)

pub record Library : Type 0 where
  -- `json.loads(raw.decode("utf-8"))` as the text has it: an object keeps its pairs in order, with
  -- repeated keys. `none` is `UnicodeError` or `JSONDecodeError`. Texts that end the parser with
  -- another exception (an integer of more than 4300 digits, too deep a nesting) are left out.
  pub json_loads : Bytes → Option Value
  -- `json.dumps(value, sort_keys=True, separators=(",", ":")).encode()`
  pub json_dumps : Value → Bytes
  -- `hashlib.sha256(raw).hexdigest()`
  pub sha256 : Bytes → String
  -- `none` is `ValueError`, here and in `parse_qs`.
  pub urlsplit : Bytes → Option Url
  -- `parse_qs(raw, keep_blank_values=True, strict_parsing=True)`
  pub parse_qs : Bytes → Option Query
  pub unquote : Bytes → Bytes
  -- `str.isdigit` on code points
  pub isdigit : Bytes → Bool
