-- ===== src/DockerApi/Policy/Target.antt =====
-- `_target`: the path of a request target under the pinned API version, and its query.
use hosted_replay_harness.Prelude.{
  Bytes, codes, equal, starts_with, drop, length, all, any, Bool, true, false, not, ◌||◌, Option,
  none, some, List, [], ◌∷◌, ◌++◌, ltb,
}
use hosted_replay_harness.DockerApi.Library.{Library, Url, Query}
use hosted_replay_harness.DockerApi.Outcome.{
  Outcome, ok, fail, raised, fail_if, operation_rejected, api_version_rejected, query_rejected,
  value_error, ◌>>=◌, ◌>>◌,
}
use hosted_replay_harness.DockerApi.Path.{api_prefix}
use hosted_replay_harness.DockerApi.Policy.State.{Descriptor}

abbrev pub is_nil {ℓ} : {A : Type ℓ} → List A → Bool
is_nil [] = true
is_nil (x ∷ xs) = false

abbrev pub url_or_raise : Option Url → Outcome Url
url_or_raise none = raised value_error
url_or_raise (some u) = ok u

abbrev has_prefix : Bytes → Bool
has_prefix path = elim (api_prefix path) [ none ↦ false | some _ ↦ true ]

-- `f"/v{self.data['api_version']}"`
abbrev pub version_prefix : Descriptor → Bytes
version_prefix d = codes "/v" ++ codes d.api_version

normalized : Descriptor → Bytes → Bool → Outcome Bytes
normalized d path true = do
  fail_if (not (equal path (codes "/_ping"))) api_version_rejected
  ok path
normalized d path false = do
  fail_if (not (starts_with path (version_prefix d ++ codes "/"))) api_version_rejected
  let rest = drop (length (version_prefix d)) path
  fail_if (has_prefix rest) api_version_rejected
  ok rest

abbrev is_single : Bytes × List Bytes → Bool
is_single (k, v ∷ []) = true
is_single _ = false

abbrev query_or_fail : Option Query → Outcome Query
query_or_fail none = fail query_rejected
query_or_fail (some q) = do fail_if (any (λ kv. not (is_single kv)) q) query_rejected; ok q

unfoldable pub read_target : Library → Descriptor → Bytes → Bool → Outcome (Bytes × Query)
unfolding normalized
read_target lib d target ping = do
  fail_if (not (all (λ c. ltb c 128) target)) operation_rejected
  split ← url_or_raise (lib.urlsplit target)
  fail_if ((not (is_nil split.scheme) || not (is_nil split.netloc)) || not (is_nil split.fragment))
      operation_rejected
  path ← normalized d split.path ping
  query ← query_or_fail (lib.parse_qs split.query)
  ok (path, query)
