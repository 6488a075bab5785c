-- ===== src/DirectPort/Groups/Composing.antt =====
-- When the composition of five groups succeeds.
use mathlib.Core.Path.{fun_ext}
use hosted_replay_harness.Prelude.{
  Bool, Bool-cases, List, String, [], all, any, ap, arith, eq_iff, false, if◌then◌else◌, inl, inr,
  none, not, refl, some, str_eq, sym, true, ◌&&◌, ◌++◌, ◌||◌, ◌∙◌, ◌∷◌, ◌≡◌, ◌⊎◌,
}
use hosted_replay_harness.Value.{
  Fields, Value, among, append, end, field, get?, has, keys, without, num, get, is_text_of,
}
use hosted_replay_harness.DockerApi.Json.{has_exactly, has_only}
use hosted_replay_harness.DirectPort.Groups.{
  overlap, Composed, Group, Parts, bare, composed, group_keys, groups, hostconfig_security,
  identity_config, merge_parts, merge_unique, network_runtime, part_of, publication_group,
  publication_part, state_health, validate_group, Payloads, closing, compose_parts,
  compose_payloads, flat_keys, is_exact_id, merge_health, merge_host, merge_publication,
  merge_runtime, parts_in,
}

-- The keys of a dict are those of a list.
record KeysAre (fs : Fields) (ks : List String) : Type 0 where
  at : (k : String) → has k fs ≡ among k ks

bool_eq : (a b : Bool) → (a ≡ true → b ≡ true) → (b ≡ true → a ≡ true) → a ≡ b
bool_eq true b f g = sym (f refl)
bool_eq false true f g = g refl
bool_eq false false f g = refl

has-field_self : (k : String) (v : Value) (fs : Fields) → has k (field k v fs) ≡ true
has-field_self k v fs = ground (arith, eq_iff k k)

has-field_later :
    (k j : String) (v : Value) (fs : Fields) → has k fs ≡ true → has k (field j v fs) ≡ true
has-field_later k j v fs h = by_test (str_eq j k)
  where
    by_test :
        (t : Bool) → elim (if t then some v else get? k fs) [ none ↦ false | some _ ↦ true ] ≡ true
    by_test true = refl
    by_test false = h

all-keys :
    (p : String → Bool) (fs : Fields)
    → ((k : String) → has k fs ≡ true → p k ≡ true)
    → all p (keys fs) ≡ true
all-keys p end h = refl
all-keys p (field k v fs) h =
    let first = h k (has-field_self k v fs) in
    let rest = all-keys p fs (λ j e. h j (has-field_later j k v fs e)) in ground arith

no_keys :
    (p : String → Bool) (fs : Fields)
    → ((k : String) → has k fs ≡ true → p k ≡ false)
    → any p (keys fs) ≡ false
no_keys p end h = refl
no_keys p (field k v fs) h =
    let first = h k (has-field_self k v fs) in
    let rest = no_keys p fs (λ j e. h j (has-field_later j k v fs e)) in ground arith

among-all :
    (p : String → Bool) (ks : List String) (k : String)
    → all p ks ≡ true
    → among k ks ≡ true
    → p k ≡ true
among-all p [] k h e = cc
among-all p (j ∷ ks) k h e = ground (arith, eq_iff k j, among-all p ks k)

key-among :
    (ks : List String) (fs : Fields) (k : String)
    → has_only ks fs ≡ true
    → has k fs ≡ true
    → among k ks ≡ true
key-among ks end k h e = cc
key-among ks (field j v fs) k h e = ground (arith, eq_iff j k, key-among ks fs k)

exactly-KeysAre : (ks : List String) (fs : Fields) → has_exactly ks fs ≡ true → KeysAre fs ks
exactly-KeysAre ks fs h =
    let both : (has_only ks fs ≡ true) × (all (λ j. has j fs) ks ≡ true) = ground arith in
    record {
      at = λ k. bool_eq _ _ (key-among ks fs k both.0) (among-all (λ j. has j fs) ks k both.1);
    }

KeysAre-exactly :
    (ks js : List String) (fs : Fields)
    → KeysAre fs js
    → all (λ k. among k ks) js ≡ true
    → all (λ k. among k js) ks ≡ true
    → has_exactly ks fs ≡ true
KeysAre-exactly ks js fs h a b =
    let only =
      all-keys (λ k. among k ks) fs
        (λ k e. among-all (λ k. among k ks) js k a (sym (h.at k) ∙ e)) in
    let each : all (λ k. has k fs) ks ≡ true = rw (fun_ext h.at) b in ground arith

has-append : (k : String) (a b : Fields) → has k (append a b) ≡ (has k a || has k b)
has-append k end b = refl
has-append k (field j v a) b = ground (arith, has-append k a b)

among-append : (k : String) (ks js : List String) → among k (ks ++ js) ≡ (among k ks || among k js)
among-append k [] js = refl
among-append k (j ∷ ks) js = ground (arith, among-append k ks js)

append-KeysAre :
    (ks js : List String) (a b : Fields)
    → KeysAre a ks
    → KeysAre b js
    → KeysAre (append a b) (ks ++ js)
append-KeysAre ks js a b h g = record {
  at = λ k. ground (arith, has-append k a b, among-append k ks js, h.at k, g.at k);
}

has-without : (k j : String) (fs : Fields) → has k (without j fs) ≡ (not (str_eq j k) && has k fs)
has-without k j end = ground arith
has-without k j (field i v fs) =
    ground (arith, eq_iff i j, eq_iff i k, eq_iff j k, has-without k j fs)

dropped :
    (j : String) (ks : List String)
    → among j ks ≡ false
    → (k : String) → (str_eq j k ≡ true) ⊎ (str_eq j k ≡ false)
    → (not (str_eq j k) && (str_eq k j || among k ks)) ≡ among k ks
dropped j ks e k (inl s) = ground (arith, s, ap (λ i. among i ks) ((eq_iff j k).0 s))
dropped j ks e k (inr s) = ground (arith, s, eq_iff k j, eq_iff j k)

without-KeysAre :
    (j : String) (ks : List String) (fs : Fields)
    → among j ks ≡ false
    → KeysAre fs (j ∷ ks)
    → KeysAre (without j fs) ks
without-KeysAre j ks fs e h = record {
  at = λ k.
      has-without k j fs
      ∙ ap (λ t. not (str_eq j k) && t) (h.at k)
      ∙ dropped j ks e k (Bool-cases (str_eq j k));
}

KeysAre-overlap :
    (ks js : List String) (a b : Fields)
    → KeysAre a ks
    → KeysAre b js
    → all (λ k. not (among k ks)) js ≡ true
    → overlap a b ≡ false
KeysAre-overlap ks js a b h g e =
    no_keys (λ k. has k a) b
      λ k w.
        h.at k ∙ flipped (among k ks) (among-all (λ k. not (among k ks)) js k e (sym (g.at k) ∙ w))
  where
    flipped : (t : Bool) → not t ≡ true → t ≡ false
    flipped t h = ground arith

merge_unique-new :
    (ks js : List String) (a b : Fields) (g : Group) (rest : Fields → Composed)
    → KeysAre a ks
    → KeysAre b js
    → all (λ k. not (among k ks)) js ≡ true
    → merge_unique a b g rest ≡ rest (append a b)
unfolding merge_unique
merge_unique-new ks js a b g rest h w e = rw (KeysAre-overlap ks js a b h w e)

-- the keys of the host group but its version
abbrev pub host_group_keys : List String
host_group_keys =
    "network_mode" ∷ "privileged" ∷ "pid_mode" ∷ "ipc_mode" ∷ "binds" ∷ "host_mounts"
    ∷ "volumes_from" ∷ "tmpfs" ∷ "devices" ∷ "device_requests" ∷ "cap_add" ∷ "security_opt"
    ∷ "extra_hosts" ∷ "restart_policy" ∷ []

not-true : (t : Bool) → not t ≡ true → t ≡ false
not-true t h = ground arith

-- the keys of a group but its version
abbrev later_keys : Group → List String
later_keys g = elim (group_keys g) [ [] ↦ [] | _ ∷ ks ↦ ks ]

middle_true : (a b c : Bool) → (a && (b && c)) ≡ true → b ≡ true
middle_true a b c h = ground arith

valid-KeysAre : (g : Group) (fs : Fields) → validate_group g fs ≡ true → KeysAre fs (group_keys g)
unfolding validate_group
valid-KeysAre g fs h = exactly-KeysAre (group_keys g) fs (middle_true _ _ _ h)

valid-bare :
    (g : Group) (fs : Fields) → validate_group g fs ≡ true → KeysAre (bare fs) (later_keys g)
valid-bare identity_config fs h =
    without-KeysAre "schema_version" (later_keys identity_config) fs refl
      (valid-KeysAre identity_config fs h)
valid-bare hostconfig_security fs h =
    without-KeysAre "schema_version" (later_keys hostconfig_security) fs refl
      (valid-KeysAre hostconfig_security fs h)
valid-bare publication_group fs h =
    without-KeysAre "schema_version" (later_keys publication_group) fs refl
      (valid-KeysAre publication_group fs h)
valid-bare network_runtime fs h =
    without-KeysAre "schema_version" (later_keys network_runtime) fs refl
      (valid-KeysAre network_runtime fs h)
valid-bare state_health fs h =
    without-KeysAre "schema_version" (later_keys state_health) fs refl
      (valid-KeysAre state_health fs h)

abbrev publication_keys : List String
publication_keys =
    "config_exposed_ports" ∷ "port_bindings" ∷ "publish_all_ports" ∷ "published_ports" ∷ []

abbrev version_keys : List String
version_keys = "schema_version" ∷ []

module _ (p : Parts) where
  abbrev merged : Fields
  merged =
      append
        (append
          (append
            (append (append (field "schema_version" (num 1) end) (bare p.identity)) (bare p.host))
            (publication_part p.publication))
          (bare p.runtime))
        (bare p.health)

  abbrev merged_keys : List String
  merged_keys =
      ((((version_keys ++ later_keys identity_config) ++ later_keys hostconfig_security)
          ++ publication_keys)
        ++ later_keys network_runtime)
      ++ later_keys state_health

  abbrev AllValid : Type 0
  AllValid =
      (validate_group identity_config p.identity ≡ true)
      × (validate_group hostconfig_security p.host ≡ true)
      × (validate_group publication_group p.publication ≡ true)
      × (validate_group network_runtime p.runtime ≡ true)
      × (validate_group state_health p.health ≡ true)

  all_valid : all (λ g. validate_group g (part_of p g)) groups ≡ true → AllValid
  all_valid h = ground arith

  one_field : (k : String) (v : Value) → KeysAre (field k v end) (k ∷ [])
  one_field k v = record { at = λ j. ground (arith, eq_iff k j, eq_iff j k) }

  publication-KeysAre : KeysAre (publication_part p.publication) publication_keys
  publication-KeysAre = exactly-KeysAre publication_keys (publication_part p.publication) refl

  closed_lem : has_exactly flat_keys merged ≡ true → closing merged ≡ composed merged
  unfolding closing
  closed_lem h = rw h

  -- The targets of the five merges, and their keys.
  abbrev first_target : Fields
  first_target = field "schema_version" (num 1) end

  abbrev second_target : Fields
  second_target = append first_target (bare p.identity)

  abbrev third_target : Fields
  third_target = append second_target (bare p.host)

  abbrev fourth_target : Fields
  fourth_target = append third_target (publication_part p.publication)

  abbrev fifth_target : Fields
  fifth_target = append fourth_target (bare p.runtime)

  abbrev second_keys : List String
  second_keys = version_keys ++ later_keys identity_config

  abbrev third_keys : List String
  third_keys = second_keys ++ later_keys hostconfig_security

  abbrev fourth_keys : List String
  fourth_keys = third_keys ++ publication_keys

  abbrev fifth_keys : List String
  fifth_keys = fourth_keys ++ later_keys network_runtime

  first-KeysAre : KeysAre first_target version_keys
  first-KeysAre = one_field "schema_version" (num 1)

  second-KeysAre : AllValid → KeysAre second_target second_keys
  second-KeysAre valid =
      append-KeysAre version_keys _ _ _ first-KeysAre
        (valid-bare identity_config p.identity valid.0)

  third-KeysAre : AllValid → KeysAre third_target third_keys
  third-KeysAre valid =
      append-KeysAre second_keys _ _ _ (second-KeysAre valid)
        (valid-bare hostconfig_security p.host valid.1)

  fourth-KeysAre : AllValid → KeysAre fourth_target fourth_keys
  fourth-KeysAre valid = append-KeysAre third_keys _ _ _ (third-KeysAre valid) publication-KeysAre

  fifth-KeysAre : AllValid → KeysAre fifth_target fifth_keys
  fifth-KeysAre valid =
      append-KeysAre fourth_keys _ _ _ (fourth-KeysAre valid)
        (valid-bare network_runtime p.runtime valid.3)

  flat : AllValid → has_exactly flat_keys merged ≡ true
  flat valid =
      let together =
        append-KeysAre fifth_keys _ _ _ (fifth-KeysAre valid)
          (valid-bare state_health p.health valid.4) in
      KeysAre-exactly flat_keys merged_keys merged together refl refl

  parts_merge : AllValid → merge_parts p ≡ composed merged
  unfolding merge_parts merge_host merge_publication merge_runtime merge_health
  parts_merge valid =
      merge_unique-new version_keys _ _ _ identity_config (merge_host p) first-KeysAre
        (valid-bare identity_config p.identity valid.0) refl
      ∙ merge_unique-new second_keys _ _ _ hostconfig_security (merge_publication p)
          (second-KeysAre valid) (valid-bare hostconfig_security p.host valid.1) refl
      ∙ merge_unique-new third_keys _ _ _ publication_group (merge_runtime p) (third-KeysAre valid)
          publication-KeysAre refl
      ∙ merge_unique-new fourth_keys _ _ _ network_runtime (merge_health p) (fourth-KeysAre valid)
          (valid-bare network_runtime p.runtime valid.3) refl
      ∙ merge_unique-new fifth_keys _ _ _ state_health closing (fifth-KeysAre valid)
          (valid-bare state_health p.health valid.4) refl
      ∙ closed_lem (flat valid)

get?-append_left : (k : String) (a b : Fields) → has k a ≡ true → get? k (append a b) ≡ get? k a
get?-append_left k end b h = cc
get?-append_left k (field j v a) b h = ground (arith, get?-append_left k a b)

get?-append_right : (k : String) (a b : Fields) → has k a ≡ false → get? k (append a b) ≡ get? k b
get?-append_right k end b h = refl
get?-append_right k (field j v a) b h = ground (arith, get?-append_right k a b)

get?-without : (k j : String) (fs : Fields) → str_eq j k ≡ false → get? k (without j fs) ≡ get? k fs
get?-without k j end h = refl
get?-without k j (field i v fs) h = ground (arith, eq_iff i j, eq_iff i k, get?-without k j fs h)

-- A key of the host group is found in the merged dict with the value that the group gives it.
module _ (p : Parts) (valid : AllValid p) (k : String) where
  module _ (e : among k (later_keys hostconfig_security) ≡ true) where
    present :
        {fs : Fields} {ks : List String}
        → KeysAre fs ks
        → all (λ j. among j ks) (later_keys hostconfig_security) ≡ true
        → has k fs ≡ true
    present {fs} {ks} w h =
        w.at k ∙ among-all (λ j. among j ks) (later_keys hostconfig_security) k h e

    absent :
        {fs : Fields} {ks : List String}
        → KeysAre fs ks
        → all (λ j. not (among j ks)) (later_keys hostconfig_security) ≡ true
        → has k fs ≡ false
    absent {fs} {ks} w h =
        w.at k
        ∙ not-true (among k ks)
            (among-all (λ j. not (among j ks)) (later_keys hostconfig_security) k h e)

    unversioned : str_eq "schema_version" k ≡ false
    unversioned =
        not-true _ (
          among-all (λ j. not (str_eq "schema_version" j)) (later_keys hostconfig_security) k refl
            e)

  host_values : among k (later_keys hostconfig_security) ≡ true → get? k (merged p) ≡ get? k p.host
  host_values e =
      get?-append_left k (fifth_target p) (bare p.health) (present e (fifth-KeysAre p valid) refl)
      ∙ get?-append_left k (fourth_target p) (bare p.runtime)
          (present e (fourth-KeysAre p valid) refl)
      ∙ get?-append_left k (third_target p) (publication_part p.publication)
          (present e (third-KeysAre p valid) refl)
      ∙ get?-append_right k (second_target p) (bare p.host) (absent e (second-KeysAre p valid) refl)
      ∙ get?-without k "schema_version" p.host (unversioned e)

-- If the identifier is exact, the payloads are those of the five groups, each of them is valid
-- and the identity has the identifier, then the composition returns a dict with exactly the keys
-- of a whole inspection, in which every key of the host group has the value that the host group
-- gives it.
pub compose-eq-composed :
    (container_id : String) (payloads : Payloads) (p : Parts)
    → is_exact_id container_id ≡ true
    → parts_in payloads ≡ some p
    → all (λ g. validate_group g (part_of p g)) groups ≡ true
    → is_text_of container_id (get "id" p.identity) ≡ true
    → (fs : Fields) × (compose_payloads container_id payloads ≡ composed fs)
      × (has_exactly flat_keys fs ≡ true)
      × ((k : String) → among k host_group_keys ≡ true → get? k fs ≡ get? k p.host)
unfolding compose_payloads compose_parts
compose-eq-composed container_id payloads p exact parts valid same = (
  merged p,
  rw exact (rw parts (rw valid (rw same (parts_merge p (all_valid p valid))))),
  flat p (all_valid p valid),
  λ k e. host_values p (all_valid p valid) k e,
)
