-- ===== src/DockerApi/Path.antt =====
-- `method_class`, `normalize_path` and `classify_path`: which phase a request belongs to.
use hosted_replay_harness.Prelude.{
  Bytes, codes, equal, one_of, starts_with, ends_with, before, is_digit, Bool, true, ◌&&◌, ◌||◌,
  Option, none, some, [], ◌∷◌, ◌==◌, if◌then◌else◌,
}

pub data MethodClass : Type 0 where
  read write delete other : MethodClass

pub data Phase : Type 0 where
  api_negotiation image_inspect image_pull network_inspect_reuse volume_inspect : Phase
  volume_create container_inspect container_list container_create container_start : Phase
  container_logs container_remove cleanup_api_phase unknown_api_phase : Phase

unfoldable pub method_class : Bytes → MethodClass
method_class method =
    if one_of method (codes "GET" ∷ codes "HEAD" ∷ [])
    then read
    else if one_of method (codes "POST" ∷ codes "PUT" ∷ codes "PATCH" ∷ [])
    then write
    else if equal method (codes "DELETE")
    then delete
    else other

abbrev skip_digits : Bytes → Bytes
skip_digits [] = []
skip_digits (c ∷ s) = let rest = skip_digits s in if is_digit c then rest else c ∷ s

-- `(?=/|$)`, where `$` also stands before a last newline
abbrev at_boundary : Bytes → Bool
at_boundary [] = true
at_boundary (c ∷ []) = (c == b'/') || (c == b'\n')
at_boundary (c ∷ s) = c == b'/'

-- `(?:\.[0-9]+)?`
abbrev skip_minor : Bytes → Bytes
skip_minor [] = []
skip_minor (c ∷ []) = c ∷ []
skip_minor (c ∷ (d ∷ s)) =
    let rest = skip_digits s in if (c == b'.') && is_digit d then rest else c ∷ (d ∷ s)

abbrev after_version : Bytes → Option Bytes
after_version [] = none
after_version (c ∷ s) =
    let rest = skip_minor (skip_digits s) in
    if is_digit c && at_boundary rest then some rest else none

-- What stands behind a match of API_PREFIX, `^/v[0-9]+(?:\.[0-9]+)?(?=/|$)`.
unfoldable pub api_prefix : Bytes → Option Bytes
api_prefix (a ∷ (b ∷ s)) = if (a == b'/') && (b == b'v') then after_version s else none
api_prefix _ = none

abbrev or_root : Bytes → Bytes
or_root [] = codes "/"
or_root s = s

unfoldable pub normalize_path : Bytes → Bytes
unfolding api_prefix
normalize_path target =
    let path = before b'?' target in
    or_root (elim (api_prefix path) [ none ↦ path | some rest ↦ rest ])

-- the tests of `classify_path` on a normalized path, in their order
classify_normalized : Bytes → Bytes → Phase
classify_normalized method path =
    if one_of path (codes "/_ping" ∷ codes "/version" ∷ codes "/info" ∷ [])
    then api_negotiation
    else if equal path (codes "/images/create")
    then image_pull
    else if starts_with path (codes "/images/") && ends_with path (codes "/json")
    then image_inspect
    else if equal path (codes "/networks/create") || starts_with path (codes "/networks/")
    then network_inspect_reuse
    else if equal path (codes "/volumes/create")
    then volume_create
    else if starts_with path (codes "/volumes/")
    then volume_inspect
    else if equal path (codes "/containers/create")
    then container_create
    else if equal path (codes "/containers/json")
    then container_list
    else if starts_with path (codes "/containers/") && ends_with path (codes "/start")
    then container_start
    else if starts_with path (codes "/containers/") && ends_with path (codes "/logs")
    then container_logs
    else if equal method (codes "DELETE") && starts_with path (codes "/containers/")
    then container_remove
    else if starts_with path (codes "/containers/") && ends_with path (codes "/json")
    then container_inspect
    else if one_of path
        (codes "/containers/prune" ∷ codes "/volumes/prune" ∷ codes "/networks/prune" ∷ [])
    then cleanup_api_phase
    else unknown_api_phase

unfoldable pub classify_path : Bytes → Bytes → Phase
unfolding normalize_path classify_normalized
classify_path method target = classify_normalized method (normalize_path target)
