-- ===== src/DirectPort/Safe/Diagnosed.antt =====
-- What `safe_inspect` returns as a diagnostic is accepted by `inspection_state_lines`.
use mathlib.Core.Path.{subst}
use hosted_replay_harness.DirectPort.Safe.{
  raised, Library, Completed, Inspected, Loaded, Parsed, assigned, availability, decode_error,
  diagnosed, diagnostic_envelope, group_name, group_terminal, hook_error, inspect_group_payload,
  is_zero, load_raised, loaded, loaded_class, observed, of_group, parse_inspect_output,
  parse_terminals, run_inspect, safe_inspect, strict_object, whole, after_failure, after_inspect,
  composed_or_failed, exit_class, failed, is_available, try_groups, decoded_class,
}
use hosted_replay_harness.DirectPort.Groups.{
  value_error, Composed, Group, Payloads, compose_payloads, composed, contract_error, group_index,
  groups, validate_group,
}
use hosted_replay_harness.DirectPort.Safe.Agreement.{AreHex, IsPrinted, fits-IsPrinted}
use hosted_replay_harness.Prelude.{
  Bool, Bytes, List, Option, String, [], arith, false, if◌then◌else◌, leb, none, not, refl, some,
  suc, sym, true, ℕ, ◌&&◌, ◌==◌, ◌∷◌, ◌≡◌, zero,
}
use hosted_replay_harness.Value.{Fields, dict, pos, negsuc, ℤ}
use hosted_replay_harness.DirectPort.Safe.Sites.{
  ParseCase, Site, at_group, contract, has_duplicate, is_not_json, is_not_utf8, is_object, is_other,
  parsed_of, site_envelope, unavailable, unlike, site-IsPrinted,
}

abbrev IsFine : Library → Inspected → Type 0
IsFine lib (observed fs) = Unit
IsFine lib (diagnosed fs) = IsPrinted lib fs
IsFine lib raised = Unit

-- `gs` are the last groups, and `count` others stand before them.
abbrev counted : List Group → ℕ → Bool
counted [] count = count == 5
counted (g ∷ gs) count = (group_index g == count) && counted gs (suc count)

counted-head :
    (g : Group) (gs : List Group) (count : ℕ)
    → counted (g ∷ gs) count ≡ true
    → (group_index g ≡ count) × (counted gs (suc count) ≡ true)
counted-head g gs count h = ground arith

zero-exit_class : (z : ℤ) → is_zero z ≡ true → exit_class z ≡ "ZERO"
zero-exit_class (pos zero) h = refl
zero-exit_class (pos (suc n)) h = cc
zero-exit_class (negsuc n) h = cc

module _ (lib : Library) where
  test-IsFine :
      (t : Bool) (a b : Inspected)
      → (t ≡ true → IsFine lib a)
      → (t ≡ false → IsFine lib b)
      → IsFine lib (if t then a else b)
  test-IsFine true a b f g = f refl
  test-IsFine false a b f g = g refl

  if-IsFine :
      (t : Bool) (a b : Inspected) → IsFine lib a → IsFine lib b → IsFine lib (if t then a else b)
  if-IsFine true a b f g = f
  if-IsFine false a b f g = g

  payload-IsFine :
      (m : Option (Option Fields)) (a : Inspected) (k : Fields → Inspected)
      → IsFine lib a
      → ((fs : Fields) → IsFine lib (k fs))
      → IsFine lib (elim m [ none ↦ raised | some none ↦ a | some (some fs) ↦ k fs ])
  payload-IsFine none a k f g = tt
  payload-IsFine (some none) a k f g = f
  payload-IsFine (some (some fs)) a k f g = g fs

  valid-IsFine :
      (t : Bool) (a b : Inspected)
      → IsFine lib a
      → IsFine lib b
      → IsFine lib (elim t [ false ↦ a | true ↦ b ])
  valid-IsFine true a b f g = g
  valid-IsFine false a b f g = f

  loaded-IsFine :
      (l : Loaded) (k : Parsed → Inspected)
      → ((c : ParseCase) → IsFine lib (k (parsed_of c)))
      → IsFine lib (elim (loaded_class lib l) [ none ↦ raised | some q ↦ k q ])
  loaded-IsFine (loaded (dict fs)) k f = f (is_object fs)
  loaded-IsFine (loaded _) k f = f is_other
  loaded-IsFine decode_error k f = f is_not_json
  loaded-IsFine hook_error k f = f has_duplicate
  loaded-IsFine load_raised k f = tt

  parsed-IsFine :
      (raw : Bytes) (k : Parsed → Inspected)
      → ((c : ParseCase) → IsFine lib (k (parsed_of c)))
      → IsFine lib (elim (parse_inspect_output lib raw) [ none ↦ raised | some q ↦ k q ])
  unfolding parse_inspect_output
  parsed-IsFine raw k f = by_text (lib.utf8_decode raw)
    where
      by_text :
          (m : Option Bytes)
          → IsFine lib (elim (decoded_class lib m) [ none ↦ raised | some q ↦ k q ])
      by_text none = f is_not_utf8
      by_text (some decoded) = loaded-IsFine (lib.json_loads strict_object decoded) k f

  module _ (container_id : String) (attempt_index : ℕ) (process : Completed) (hex : AreHex lib)
      (first : leb 1 attempt_index ≡ true) where
    module _ (c : ParseCase) (failed_exit : is_zero process.returncode ≡ false) where
      at_site : (s : Site) → IsPrinted lib (site_envelope lib process attempt_index s (parsed_of c))
      at_site s = site-IsPrinted lib process attempt_index hex first s c failed_exit

      composed-IsFine :
          (count : ℕ) (r : Composed)
          → count ≡ 5
          → IsFine lib
              (composed_or_failed lib container_id attempt_index process (parsed_of c) count r)
      unfolding composed_or_failed
      composed-IsFine count (composed fs) h = tt
      composed-IsFine count (contract_error none) h = rw h (at_site (contract none))
      composed-IsFine count (contract_error (some g)) h = rw h (at_site (contract (some g)))
      composed-IsFine count value_error h = tt

      groups-IsFine :
          (gs : List Group) (count : ℕ) (payloads : Payloads)
          → counted gs count ≡ true
          → IsFine lib
              (try_groups lib container_id attempt_index process (parsed_of c) gs count payloads)
      unfolding try_groups
      groups-IsFine [] count payloads h =
          composed-IsFine count (compose_payloads container_id payloads) (ground arith)
      groups-IsFine (g ∷ gs) count payloads h =
          let (same, rest) = counted-head g gs count h in
          let fine : IsFine lib (
              failed lib container_id attempt_index process (parsed_of c) (group_terminal g)
                (group_name g) count) =
            rw (sym same) (at_site (at_group g)) in
          payload-IsFine (inspect_group_payload lib (of_group g)) _ _ fine
            λ fs. valid-IsFine (validate_group g fs) _ _ fine (groups-IsFine gs (suc count) _ rest)

      failure-IsFine :
          IsFine lib (after_failure lib container_id attempt_index process (parsed_of c))
      unfolding after_failure
      failure-IsFine =
          payload-IsFine (inspect_group_payload lib availability) _ _ (at_site unavailable) λ fs.
            if-IsFine (not (is_available lib container_id attempt_index process (parsed_of c) fs)) _
              _ (at_site unlike) (groups-IsFine groups 0 [] refl)

    success-IsFine :
        (c : ParseCase)
        → exit_class process.returncode ≡ "ZERO"
        → IsFine lib (elim (parsed_of c).payload [
          | some fs ↦ observed fs
          | none ↦ elim (assigned (parsed_of c).parse_class parse_terminals) [
            | none ↦ raised
            | some terminal_class ↦
                failed lib container_id attempt_index process (parsed_of c) terminal_class "NONE" 0
          ]
        ])
    unfolding diagnostic_envelope
    success-IsFine (is_object fs) h = tt
    success-IsFine is_not_utf8 h =
        fits-IsPrinted lib process attempt_index "DIRECT_INSPECT_INVALID_UTF8"
          (parsed_of is_not_utf8) "NONE" 0 hex first (rw h refl)
    success-IsFine is_not_json h =
        fits-IsPrinted lib process attempt_index "DIRECT_INSPECT_JSON_REJECTED"
          (parsed_of is_not_json) "NONE" 0 hex first (rw h refl)
    success-IsFine has_duplicate h =
        fits-IsPrinted lib process attempt_index "DIRECT_INSPECT_DUPLICATE_KEY_REJECTED"
          (parsed_of has_duplicate) "NONE" 0 hex first (rw h refl)
    success-IsFine is_other h =
        fits-IsPrinted lib process attempt_index "DIRECT_INSPECT_TOPLEVEL_REJECTED"
          (parsed_of is_other) "NONE" 0 hex first (rw h refl)

    inspect-IsFine :
        (c : ParseCase)
        → IsFine lib (after_inspect lib container_id attempt_index process (parsed_of c))
    unfolding after_inspect
    inspect-IsFine c =
        test-IsFine (is_zero process.returncode) _ _
          (λ h. success-IsFine c (zero-exit_class process.returncode h)) (λ h. failure-IsFine c h)

  -- Whatever Docker answers, if the attempts are counted from one, the digests that hashlib
  -- returns are 64 hexadecimal digits and safe_inspect returns a diagnostic, then
  -- inspection_state_lines accepts that diagnostic and prints its 15 lines.
  pub safe_inspect-IsPrinted :
      (container_id : String) (attempt_index : ℕ) (fs : Fields)
      → AreHex lib
      → leb 1 attempt_index ≡ true
      → safe_inspect lib container_id attempt_index ≡ diagnosed fs
      → IsPrinted lib fs
  unfolding safe_inspect
  safe_inspect-IsPrinted container_id attempt_index fs hex first h = subst (IsFine lib) h (
      parsed-IsFine (run_inspect lib whole).stdout
        (after_inspect lib container_id attempt_index (run_inspect lib whole))
        (inspect-IsFine container_id attempt_index (run_inspect lib whole) hex first))
