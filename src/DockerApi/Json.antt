-- ===== src/DockerApi/Json.antt =====
-- `_closed_json`, `_empty`, `_json_type`, `_exact_keys` and `_split_env`.
use hosted_replay_harness.Prelude.{
  ℕ, Bytes, codes, equal, one_of, cut, length, all, any, String, str_eq, Bool, true, false, not,
  ◌&&◌, ◌||◌, Option, none, some, List, [], ◌∷◌, ltb, ◌==◌, if◌then◌else◌,
}
use hosted_replay_harness.Value.{
  Value, null, boolean, int, float, constant, text, list, dict, Items, nil, cons, Fields, end,
  field, as_number, number_eq, has, keys, among, num,
}
use hosted_replay_harness.DockerApi.Library.{Library}
use hosted_replay_harness.DockerApi.Outcome.{
  body_oversized, body_rejected, violation, Outcome, ok, raised, raise_if, ◌>>=◌, ◌>>◌,
}

-- The hooks `no_duplicates` and `no_constants` let the value through.
unfoldable mutual
  pub is_closed : Value → Bool
  is_closed (constant f) = false
  is_closed (list xs) = is_closed_items xs
  is_closed (dict fs) = is_closed_fields fs
  is_closed v = true

  pub is_closed_items : Items → Bool
  is_closed_items nil = true
  is_closed_items (cons v xs) = is_closed v && is_closed_items xs

  pub is_closed_fields : Fields → Bool
  is_closed_fields end = true
  is_closed_fields (field k v fs) = (not (has k fs) && is_closed v) && is_closed_fields fs

abbrev dict_or_reject : Value → Outcome Fields
dict_or_reject (dict fs) = ok fs
dict_or_reject _ = raised (violation body_rejected)

abbrev parsed_or_reject : Option Value → Outcome Fields
parsed_or_reject none = raised (violation body_rejected)
parsed_or_reject (some v) = do raise_if (not (is_closed v)) body_rejected; dict_or_reject v

unfoldable pub closed_json : Library → Bytes → ℕ → Outcome Fields
unfolding is_closed
closed_json lib raw maximum = do
  raise_if (ltb maximum (length raw)) body_oversized
  parsed_or_reject (lib.json_loads raw)

-- `_empty`: `value in (None, False, 0, "")`, or a container of such values.
unfoldable mutual
  pub is_empty : Value → Bool
  is_empty null = true
  is_empty (text s) = str_eq s ""
  is_empty (list xs) = is_empty_items xs
  is_empty (dict fs) = is_empty_fields fs
  is_empty v = number_eq (as_number v) (num 0)

  pub is_empty_items : Items → Bool
  is_empty_items nil = true
  is_empty_items (cons v xs) = is_empty v && is_empty_items xs

  pub is_empty_fields : Fields → Bool
  is_empty_fields end = true
  is_empty_fields (field k v fs) = is_empty v && is_empty_fields fs

pub data Kind : Type 0 where
  null_kind boolean_kind string_kind array_kind object_kind number_kind : Kind

unfoldable pub json_type : Value → Kind
json_type null = null_kind
json_type (boolean b) = boolean_kind
json_type (text s) = string_kind
json_type (list xs) = array_kind
json_type (dict fs) = object_kind
json_type (int z) = number_kind
json_type (float f) = number_kind
json_type (constant f) = number_kind

abbrev pub has_only : List String → Fields → Bool
has_only allowed fs = all (λ k. among k allowed) (keys fs)

-- `set(value) == allowed`
abbrev pub has_exactly : List String → Fields → Bool
has_exactly allowed fs = has_only allowed fs && all (λ k. has k fs) allowed

abbrev pub exact_keys : Fields → List String → Outcome (Unit {0})
exact_keys fs allowed = raise_if (not (has_only allowed fs)) body_rejected

-- The parsed environment. Python's dict lists it in the other order.
abbrev pub Env : Type 0
Env = List (Bytes × Bytes)

abbrev pub env? : Bytes → Env → Option Bytes
env? k [] = none
env? k ((j, v) ∷ env) = if equal j k then some v else env? k env

abbrev pub in_env : Bytes → Env → Bool
in_env k env = elim (env? k env) [ none ↦ false | some _ ↦ true ]

-- `env[k]`, where `split_env` has let `k` through
abbrev pub env_at : String → Env → Bytes
env_at k env = elim (env? (codes k) env) [ none ↦ [] | some v ↦ v ]

-- The texts of a list of texts.
abbrev texts : Items → Option (List String)
texts nil = some []
texts (cons (text s) xs) = elim (texts xs) [ none ↦ none | some ss ↦ some (s ∷ ss) ]
texts (cons _ xs) = none

abbrev text_list : Value → Option (List String)
text_list (list xs) = texts xs
text_list _ = none

-- `not value or len(value) > 4096 or …`
abbrev is_bad_env_value : Bytes → Bool
is_bad_env_value [] = true
is_bad_env_value value =
    ltb 4096 (length value) || any (λ c. ((c == 0) || (c == b'\n')) || (c == b'\r')) value

split_env_item : List Bytes → Env → Option (Bytes × Bytes) → Outcome Env
split_env_item allowed result none = raised (violation body_rejected)
split_env_item allowed result (some (name, value)) = do
  raise_if (not (one_of name allowed) || in_env name result) body_rejected
  raise_if (is_bad_env_value value) body_rejected
  ok ((name, value) ∷ result)

split_env_loop : List Bytes → Env → List String → Outcome Env
unfolding split_env_item
split_env_loop allowed result [] = ok result
split_env_loop allowed result (item ∷ rest) =
    split_env_item allowed result (cut b'=' (codes item)) >>= λ r. split_env_loop allowed r rest

abbrev texts_or_reject : Option (List String) → Outcome (List String)
texts_or_reject none = raised (violation body_rejected)
texts_or_reject (some ss) = ok ss

unfoldable pub split_env : Value → List Bytes → Outcome Env
unfolding split_env_loop
split_env values allowed = do
  ss ← texts_or_reject (text_list values)
  env ← split_env_loop allowed [] ss
  raise_if (not (all (λ k. in_env k env) allowed)) body_rejected
  ok env
