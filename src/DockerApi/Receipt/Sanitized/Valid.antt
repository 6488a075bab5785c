-- ===== src/DockerApi/Receipt/Sanitized/Valid.antt =====
-- The validation of sanitized receipts.
use hosted_replay_harness.Prelude.{
  Bool, Option, [], all, arith, codes, is_hex_word, none, refl, some, true, ◌&&◌, ◌++◌, ◌∷◌, ◌≡◌,
  eq_iff, String,
}
use hosted_replay_harness.DockerApi.Receipt.{
  Classification, PolicyMode, Receipt, classification, db_start_v1, no_request_observed, read_only,
}
use hosted_replay_harness.DockerApi.Outcome.{FailureCode, descriptor_invalid}
use hosted_replay_harness.Value.{Fields, among, get, put, text}
use hosted_replay_harness.DockerApi.Receipt.Sanitized.{
  HasHashes, classification_name, classification_names, count_keys, digest_of, digest_valid,
  enums_valid, failure_name, failure_names, hash_keys, is_count, is_count_map, is_hash, is_one_of,
  map_keys, mode_name, phase_keys, phase_names, phase_or_none, result_fields, result_keys,
  validate_result, sanitized, without,
}
use hosted_replay_harness.DockerApi.Library.{Library}
use hosted_replay_harness.DockerApi.Path.{Phase, api_negotiation}
use hosted_replay_harness.DockerApi.Json.{has_exactly}

classification_known :
    (c : Classification) → among (classification_name c) classification_names ≡ true
classification_known no_request_observed = refl
classification_known _ = refl

phase_known : (p : Option Phase) → among (phase_or_none p) (phase_names ++ ("NONE" ∷ [])) ≡ true
phase_known none = refl
phase_known (some api_negotiation) = refl
phase_known (some _) = refl

mode_known : (m : PolicyMode) → among (mode_name m) ("READ_ONLY" ∷ "DB_START_V1" ∷ []) ≡ true
mode_known read_only = refl
mode_known db_start_v1 = refl

failure_known : (c : Option FailureCode) → among (failure_name c) failure_names ≡ true
failure_known none = refl
failure_known (some descriptor_invalid) = refl
failure_known (some _) = refl

both_true : (a b : Bool) → a ≡ true → b ≡ true → (a && b) ≡ true
both_true a b h k = ground arith

-- the checked fields of the whole result
module _ (lib : Library) (r : Receipt) where
  abbrev whole : Fields
  whole = put "canonical_sha256" (text (digest_of lib (result_fields r))) (result_fields r)

  keys_known : has_exactly result_keys whole ≡ true
  unfolding result_fields
  keys_known = refl

  enums_known : enums_valid whole ≡ true
  unfolding result_fields
  enums_known =
      both_true _ _ (classification_known (classification r))
        (both_true _ _ (mode_known r.policy_mode) (failure_known r.policy_failure_code))

  counts_known : all (λ k. is_count (get k whole)) count_keys ≡ true
  unfolding result_fields
  counts_known = refl

  phases_known : all (λ k. is_one_of (phase_names ++ ("NONE" ∷ [])) (get k whole)) phase_keys ≡ true
  unfolding result_fields
  phases_known = both_true _ _ (phase_known r.first_phase) (
      both_true _ _ (phase_known r.last_phase)
        (both_true _ _ (phase_known r.first_error_phase) refl))

  maps_known : all (λ (k, names). is_count_map names (get k whole)) map_keys ≡ true
  unfolding result_fields
  maps_known = refl

  hashes_known : HasHashes r → all (λ k. is_hash (get k whole)) hash_keys ≡ true
  unfolding result_fields
  hashes_known h =
      both_true _ _ h.matrix
        (both_true _ _ h.policy (both_true _ _ h.database (both_true _ _ h.migration refl)))

  digest_known :
      is_hex_word 64 (codes (digest_of lib (result_fields r))) ≡ true
      → digest_valid lib whole ≡ true
  unfolding result_fields
  digest_known h = both_true _ _ h ((eq_iff d d).1 refl)
    where
      d : String
      d = digest_of lib (result_fields r)

  stripped : without "canonical_sha256" whole ≡ result_fields r
  unfolding result_fields
  stripped = refl

  whole_valid :
      is_hex_word 64 (codes (digest_of lib (result_fields r))) ≡ true
      → HasHashes r
      → validate_result lib whole ≡ true
  unfolding validate_result
  whole_valid d h = both_true _ _ keys_known (
      both_true _ _ enums_known (
        both_true _ _ counts_known (
          both_true _ _ phases_known
            (both_true _ _ maps_known (both_true _ _ (digest_known d) (hashes_known h))))))

-- If the digest that hashlib returns for a receipt and the four hashes that the receipt holds
-- are 64 hexadecimal digits, then sanitizing returns a result that passes validate_result and
-- that is, without its digest, the fields of the receipt.
pub sanitized-eq-some :
    (lib : Library) (r : Receipt)
    → is_hex_word 64 (codes (digest_of lib (result_fields r))) ≡ true
    → HasHashes r
    → (fs : Fields) × (sanitized lib r ≡ some fs)
      × (validate_result lib fs ≡ true)
      × (without "canonical_sha256" fs ≡ result_fields r)
unfolding sanitized
sanitized-eq-some lib r d h =
    (whole lib r, rw (whole_valid lib r d h), whole_valid lib r d h, stripped lib r)
