-- ===== src/DockerApi/Policy/Descriptor.antt =====
-- `DBStartPolicy.__init__` and `from_fd`: what a policy descriptor must be.
use hosted_replay_harness.Prelude.{
  Bytes, codes, cut, length, any, is_digits, is_hex_word, starts_with, drop, String, str_eq, Bool,
  true, false, not, ◌&&◌, ◌||◌, Option, none, some, [], ◌∷◌, List, ltb,
}
use hosted_replay_harness.Value.{
  Value, text, list, dict, Items, nil, cons, Fields, end, field, get, put, eq, as_text, num,
  is_text_of,
}
use hosted_replay_harness.DockerApi.Library.{Library}
use hosted_replay_harness.DockerApi.Outcome.{
  descriptor_invalid, ledger_lost, violation, Outcome, ok, raised, raise_if, ◌>>◌,
}
use hosted_replay_harness.DockerApi.Json.{has_exactly}
use hosted_replay_harness.DockerApi.Policy.State.{Descriptor, negotiate_head, Policy}

abbrev pub policy_schema : String
policy_schema = "fawxzzy.hosted-replay-harness.db-start-policy.v1"

abbrev pub policy_matrix_sha256 : String
policy_matrix_sha256 = "9669ebd4ae75cfdc3950c9db8b2786270023ce0e26dde993806b3f7b6b2c5492"

-- POLICY_KEYS without "generation".
abbrev pub string_keys : List String
string_keys =
    "schema" ∷ "matrix_sha256" ∷ "nonce" ∷ "api_version" ∷ "project" ∷ "network_name" ∷ "network_id"
    ∷ "db_name" ∷ "db_volume" ∷ "db_port" ∷ "postgres_image_ref" ∷ "postgres_image_id"
    ∷ "postgres_digest" ∷ "gotrue_image_ref" ∷ "gotrue_image_id" ∷ "gotrue_digest" ∷ []

abbrev pub policy_keys : List String
policy_keys = "generation" ∷ string_keys

abbrev pub is_full_text : Value → Bool
is_full_text (text s) = not (str_eq s "")
is_full_text _ = false

abbrev pub text_at : String → Fields → String
text_at k fs = elim (as_text (get k fs)) [ none ↦ "" | some s ↦ s ]

-- `[0-9]+\.[0-9]+`
abbrev pub is_api_version : Bytes → Bool
is_api_version s = elim (cut b'.' s) [
  | none ↦ false
  | some (major, minor) ↦ is_digits major && is_digits minor
]

-- `sha256:[0-9a-f]{64}`
abbrev pub is_image_id : Bytes → Bool
is_image_id s = starts_with s (codes "sha256:") && is_hex_word 64 (drop 7 s)

abbrev descriptor_of : Fields → Descriptor
descriptor_of fs = record {
  nonce = text_at "nonce" fs;
  api_version = text_at "api_version" fs;
  project = text_at "project" fs;
  network_name = text_at "network_name" fs;
  network_id = text_at "network_id" fs;
  db_name = text_at "db_name" fs;
  db_volume = text_at "db_volume" fs;
  db_port = text_at "db_port" fs;
  postgres_image_ref = text_at "postgres_image_ref" fs;
  postgres_image_id = text_at "postgres_image_id" fs;
  postgres_digest = text_at "postgres_digest" fs;
  gotrue_image_ref = text_at "gotrue_image_ref" fs;
  gotrue_image_id = text_at "gotrue_image_id" fs;
  gotrue_digest = text_at "gotrue_digest" fs;
}

-- the assignments of `__init__`; `json.dumps` sorts the keys itself
abbrev fresh : Library → Fields → Policy
fresh lib fs = record {
  descriptor = descriptor_of fs;
  matrix_sha256 = text_at "matrix_sha256" fs;
  digest = lib.sha256 (lib.json_dumps (dict fs));
  state = negotiate_head;
  step_index = 0;
  health_probe_count = 0;
  request_body_bytes = 0;
  response_body_bytes = 0;
  db_id = "";
  gotrue_id = "";
  is_complete = false;
  has_failed = false;
}

unfoldable pub init : Library → Fields → Outcome Policy
unfolding eq
init lib fs = do
  raise_if (not (has_exactly policy_keys fs && is_text_of policy_schema (get "schema" fs)))
      descriptor_invalid
  raise_if (not (is_text_of policy_matrix_sha256 (get "matrix_sha256" fs))) descriptor_invalid
  raise_if (not (eq (get "generation" fs) (num 0))) ledger_lost
  raise_if (any (λ k. not (is_full_text (get k fs))) string_keys) descriptor_invalid
  raise_if (not (is_hex_word 64 (codes (text_at "nonce" fs)))) descriptor_invalid
  raise_if (not (is_api_version (codes (text_at "api_version" fs)))) descriptor_invalid
  raise_if (not (is_digits (codes (text_at "db_port" fs)))) descriptor_invalid
  raise_if (not (is_hex_word 64 (codes (text_at "network_id" fs)))) descriptor_invalid
  raise_if
      (any (λ k. not (is_image_id (codes (text_at k fs))))
        ("postgres_image_id" ∷ "postgres_digest" ∷ "gotrue_image_id" ∷ "gotrue_digest" ∷ []))
      descriptor_invalid
  ok (fresh lib fs)

-- `json.loads` with no hook: the last of equal keys wins.
unfoldable mutual
  pub collapse : Value → Value
  collapse (list xs) = list (collapse_items xs)
  collapse (dict fs) = dict (collapse_onto fs end)
  collapse v = v

  pub collapse_items : Items → Items
  collapse_items nil = nil
  collapse_items (cons v xs) = cons (collapse v) (collapse_items xs)

  pub collapse_onto : Fields → Fields → Fields
  collapse_onto end out = out
  collapse_onto (field k v fs) out = collapse_onto fs (put k (collapse v) out)

abbrev init_value : Library → Value → Outcome Policy
init_value lib (dict fs) = init lib fs
init_value lib _ = raised (violation descriptor_invalid)

abbrev init_json : Library → Option Value → Outcome Policy
init_json lib none = raised (violation descriptor_invalid)
init_json lib (some v) = init_value lib (collapse v)

abbrev is_nil : Bytes → Bool
is_nil [] = true
is_nil _ = false

-- The argument is what the two reads of the descriptor return, `none` for an `OSError`.
unfoldable pub from_fd : Library → Option (Bytes × Bytes) → Outcome Policy
unfolding init collapse
from_fd lib none = raised (violation descriptor_invalid)
from_fd lib (some (raw, extra)) = do
  raise_if ((is_nil raw || not (is_nil extra)) || ltb 65536 (length raw)) descriptor_invalid
  init_json lib (lib.json_loads raw)
