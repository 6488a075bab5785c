-- ===== src/Firewall/Completion/Evidence.antt =====
-- What the evidence of a restoration says, and when it is built.
use mathlib.Core.Path.{subst}
use hosted_replay_harness.Firewall.Rules.{Library, Counts}
use hosted_replay_harness.Prelude.{
  Bool, String, arith, codes, eq_iff, false, if◌then◌else◌, is_hex, is_hex_word, none, refl, some,
  sym, true, ◌&&◌, ◌≡◌,
}
use hosted_replay_harness.Value.{Fields}
use hosted_replay_harness.Firewall.Ledger.{Ledger, ledger_sha256}
use hosted_replay_harness.Firewall.Completion.{
  build_completion, completion_of, counts_sha256, validate_completion,
  validate_completion_against_ledger,
}
use hosted_replay_harness.TextOrder.{str_eq_self}

some_same {ℓ} : {A : Type ℓ} {a b : A} → some a ≡ some b → a ≡ b
some_same h = cc

if-eq-some {ℓ} :
    {A : Type ℓ} {a b : A} (t : Bool) → (if t then some a else none) ≡ some b → (t ≡ true) × (a ≡ b)
if-eq-some true h = (refl, some_same h)
if-eq-some false h = cc

if-some {ℓ} : {A : Type ℓ} {a : A} {t : Bool} → t ≡ true → (if t then some a else none) ≡ some a
if-some h = rw h refl

and_true : (a b : Bool) → (a && b) ≡ true → (a ≡ true) × (b ≡ true)
and_true a b h = ground arith

and_both : (a b : Bool) → a ≡ true → b ≡ true → (a && b) ≡ true
and_both a b h g = ground arith

pub record HashesAreHex (lib : Library) : Type 0 where
  pub at : (s : String) → is_hex_word 64 (codes (lib.sha256 s)) ≡ true

module _ (lib : Library) (ledger : Ledger) where
  -- If evidence of a completion is built, then it validates against the same ledger, digest and
  -- counts, the digest is that of the preimage, and the digest of the counts is that of the
  -- preimage's counts.
  pub build_completion-eq-some :
      (postimage_sha256 : String) (postimage_counts : Counts) (completion : Fields)
      → build_completion lib ledger postimage_sha256 postimage_counts ≡ some completion
      → (validate_completion_against_ledger lib completion ledger postimage_sha256 postimage_counts
          ≡ true)
        × (postimage_sha256 ≡ ledger.preimage_sha256)
        × (counts_sha256 lib postimage_counts ≡ counts_sha256 lib ledger.preimage_counts)
  unfolding build_completion validate_completion_against_ledger validate_completion
  build_completion-eq-some postimage_sha256 postimage_counts completion h =
      let c = completion_of lib ledger postimage_sha256 postimage_counts in
      let (valid, is_built) = if-eq-some (validate_completion lib c) h in
      let hashes = (and_true _ _ valid).1 in
      let (sha, rest) = and_true _ _ hashes in
      let (counts, digest) = and_true _ _ rest in
      subst
        (λ c.
          (validate_completion_against_ledger lib c ledger postimage_sha256 postimage_counts ≡ true)
          × (postimage_sha256 ≡ ledger.preimage_sha256)
          × (counts_sha256 lib postimage_counts ≡ counts_sha256 lib ledger.preimage_counts))
        is_built
        (
          and_both _ _ valid (
              and_both _ _ (str_eq_self (ledger_sha256 lib ledger)) (
                and_both _ _ (str_eq_self ledger.preimage_sha256) (
                  and_both _ _ (str_eq_self (counts_sha256 lib ledger.preimage_counts)) (
                    and_both _ _ (str_eq_self postimage_sha256)
                      (str_eq_self (counts_sha256 lib postimage_counts)))))),
          sym ((eq_iff ledger.preimage_sha256 postimage_sha256).0 sha),
          sym ((eq_iff _ _).0 counts),
        )

  -- If the digests that hashlib returns and the ledger's digest of the preimage are 64 hexadecimal
  -- digits and the digest of the counts is that of the preimage's counts, then the evidence for
  -- the digest of the preimage is built, with the fields of the ledger.
  pub build_completion-restored :
      (postimage_counts : Counts)
      → HashesAreHex lib
      → is_hex_word 64 (codes ledger.preimage_sha256) ≡ true
      → counts_sha256 lib postimage_counts ≡ counts_sha256 lib ledger.preimage_counts
      → build_completion lib ledger ledger.preimage_sha256 postimage_counts
        ≡ some (completion_of lib ledger ledger.preimage_sha256 postimage_counts)
  unfolding build_completion validate_completion
  build_completion-restored postimage_counts hex is_hex equal_counts =
      let hashes = and_both _ _ (hex.at _) (
        and_both _ _ is_hex (
          and_both _ _ (hex.at _)
            (and_both _ _ is_hex (and_both _ _ (hex.at _) (and_both _ _ (hex.at _) refl))))) in
      let valid : validate_completion lib
            (completion_of lib ledger ledger.preimage_sha256 postimage_counts)
          ≡ true =
        and_both _ _ hashes (
          and_both _ _ (str_eq_self _)
            (and_both _ _ ((eq_iff _ _).1 (sym equal_counts)) (str_eq_self _))) in
      if-some valid
