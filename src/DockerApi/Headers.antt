-- ===== src/DockerApi/Headers.antt =====
-- The header block of a request or response, as `_parse_head` returns it: names in lower case.
use hosted_replay_harness.Prelude.{
  Bytes, String, codes, equal, before, strip_str, lower_str, Bool, true, false, Option, none, some,
  List, [], ◌∷◌, if◌then◌else◌,
}

abbrev pub Headers : Type 0
Headers = List (Bytes × Bytes)

abbrev pub header? : Bytes → Headers → Option Bytes
header? k [] = none
header? k ((j, v) ∷ hs) = if equal j k then some v else header? k hs

-- `headers.get(k, "")`
abbrev pub header : String → Headers → Bytes
header k hs = elim (header? (codes k) hs) [ none ↦ [] | some v ↦ v ]

-- `k in headers`
abbrev pub has_header : Bytes → Headers → Bool
has_header k hs = elim (header? k hs) [ none ↦ false | some _ ↦ true ]

-- `headers.get("content-type", "").split(";", 1)[0].strip().lower()`
unfoldable pub media_type : Headers → Bytes
media_type hs = lower_str (strip_str (before b';' (header "content-type" hs)))
