-- ===== src/Firewall/Completion.antt =====
-- The evidence of a completed restoration: `build_completion` and its validation.
pub mod Evidence
use hosted_replay_harness.Firewall.Rules.{Library, Counts, canonical_json_sha256}
use hosted_replay_harness.Prelude.{
  Bool, List, Option, String, [], all, codes, false, if◌then◌else◌, is_hex_word, none, some, true,
  ◌&&◌, ◌∷◌,
}
use hosted_replay_harness.Value.{
  Fields, Value, boolean, dict, end, field, get, is_text_of, text, without,
}
use hosted_replay_harness.Firewall.Ledger.{Ledger, count_fields, ledger_sha256}
use hosted_replay_harness.DockerApi.Json.{has_exactly}
use hosted_replay_harness.Firewall.Owned.{packet_table}

abbrev completion_schema : String
completion_schema = "fawxzzy.hosted-replay-harness.firewall-restoration.v1"

abbrev completion_keys : List String
completion_keys =
    "schema" ∷ "table" ∷ "ledger_sha256" ∷ "preimage_sha256" ∷ "preimage_counts_sha256"
    ∷ "postimage_sha256" ∷ "postimage_counts_sha256" ∷ "restored" ∷ "evidence_sha256" ∷ []

abbrev hash_keys : List String
hash_keys =
    "ledger_sha256" ∷ "preimage_sha256" ∷ "preimage_counts_sha256" ∷ "postimage_sha256"
    ∷ "postimage_counts_sha256" ∷ "evidence_sha256" ∷ []

abbrev is_hash : Value → Bool
is_hash (text s) = is_hex_word 64 (codes s)
is_hash _ = false

abbrev is_true : Value → Bool
is_true (boolean b) = b
is_true _ = false

-- `a == b` on texts
abbrev same_text : Value → Value → Bool
same_text (text s) v = is_text_of s v
same_text _ v = false

module _ (lib : Library) where
  abbrev pub counts_sha256 : Counts → String
  counts_sha256 counts = canonical_json_sha256 lib (dict (count_fields counts))

  abbrev pub evidence_sha256 : Fields → String
  evidence_sha256 completion =
      canonical_json_sha256 lib (dict (without "evidence_sha256" completion))

  -- `false` where the code raises FIREWALL_RESTORATION_EVIDENCE_INVALID.
  unfoldable pub validate_completion : Fields → Bool
  validate_completion c =
      has_exactly completion_keys c
      && (is_text_of completion_schema (get "schema" c)
          && (is_text_of packet_table (get "table" c)
              && (is_true (get "restored" c)
                  && (all (λ k. is_hash (get k c)) hash_keys
                      && (same_text (get "preimage_sha256" c) (get "postimage_sha256" c)
                          && (same_text (get "preimage_counts_sha256" c)
                                (get "postimage_counts_sha256" c)
                              && is_text_of (evidence_sha256 c) (get "evidence_sha256" c)))))))

  abbrev undigested : Ledger → String → Counts → Fields → Fields
  undigested ledger postimage_sha256 postimage_counts rest =
      field "schema" (text completion_schema) (
        field "table" (text packet_table) (
          field "ledger_sha256" (text (ledger_sha256 lib ledger)) (
            field "preimage_sha256" (text ledger.preimage_sha256) (
              field "preimage_counts_sha256" (text (counts_sha256 ledger.preimage_counts)) (
                field "postimage_sha256" (text postimage_sha256) (
                  field "postimage_counts_sha256" (text (counts_sha256 postimage_counts))
                    (field "restored" (boolean true) rest)))))))

  abbrev pub completion_of : Ledger → String → Counts → Fields
  completion_of ledger postimage_sha256 postimage_counts =
      let digest =
        canonical_json_sha256 lib
          (dict (undigested ledger postimage_sha256 postimage_counts end)) in
      undigested ledger postimage_sha256 postimage_counts
        (field "evidence_sha256" (text digest) end)

  -- `none` where the validation of the built evidence raises.
  unfoldable pub build_completion : Ledger → String → Counts → Option Fields
  unfolding validate_completion
  build_completion ledger postimage_sha256 postimage_counts =
      let c = completion_of ledger postimage_sha256 postimage_counts in
      if validate_completion c then some c else none

  unfoldable pub validate_completion_against_ledger : Fields → Ledger → String → Counts → Bool
  unfolding validate_completion
  validate_completion_against_ledger c ledger current_sha256 current_counts =
      validate_completion c
      && (is_text_of (ledger_sha256 lib ledger) (get "ledger_sha256" c)
          && (is_text_of ledger.preimage_sha256 (get "preimage_sha256" c)
              && (is_text_of (counts_sha256 ledger.preimage_counts) (get "preimage_counts_sha256" c)
                  && (is_text_of current_sha256 (get "postimage_sha256" c)
                      && is_text_of (counts_sha256 current_counts)
                          (get "postimage_counts_sha256" c)))))
