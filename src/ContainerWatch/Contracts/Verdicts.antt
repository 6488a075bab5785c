-- ===== src/ContainerWatch/Contracts/Verdicts.antt =====
-- What a verdict with no violation says of the network.
use hosted_replay_harness.ContainerWatch.Contracts.{
  Network, dict_or_none, has_label, is_false, is_true, names_only, network_violations,
  validate_network_contract, network_labels,
}
use hosted_replay_harness.ContainerWatch.Violations.{
  order, Violation, network_driver_mismatch, network_gateway_mode_mismatch,
  network_host_binding_mismatch, network_ipv6_enabled, network_label_mismatch,
  network_name_id_mapping_failed, network_not_internal, network_scope_mismatch,
  network_subnet_mismatch, second_packet_network_detected, when,
}
use hosted_replay_harness.Prelude.{
  All, Bool, List, String, [], any, arith, false, not, refl, true, ◌++◌, ◌||◌, ◌∷◌, ◌≡◌, some,
}
use hosted_replay_harness.Value.{Fields, get, is_text_of}
use hosted_replay_harness.SortedSet.{sorted_set-nil}

-- One `if test: violations.append(code)` that added nothing.
pub when-nil :
    (t : Bool) (v : Violation) (rest : List Violation)
    → when t v ++ rest ≡ []
    → (t ≡ false) × (rest ≡ [])
when-nil true v rest h = cc
when-nil false v rest h = (refl, h)

pub when-nil_last : (t : Bool) (v : Violation) → when t v ≡ [] → t ≡ false
when-nil_last true v h = cc
when-nil_last false v h = refl

pub some_injective {ℓ} : {A : Type ℓ} {a b : A} → some a ≡ some b → a ≡ b
some_injective h = cc

-- The packet network as the contract wants it.
pub record IsContained (inspected : Fields) (resolved correlated : List String) (n : Network)
    : Type 0 where
  pub one_name : names_only n.id resolved ≡ true
  pub one_network : names_only n.id correlated ≡ true
  pub id : is_text_of n.id (get "id" inspected) ≡ true
  pub name : is_text_of n.name (get "name" inspected) ≡ true
  pub driver : is_text_of "bridge" (get "driver" inspected) ≡ true
  pub scope : is_text_of "local" (get "scope" inspected) ≡ true
  pub internal : is_true (get "internal" inspected) ≡ true
  pub no_ipv6 : is_false (get "enable_ipv6" inspected) ≡ true
  pub subnet : is_text_of n.subnet (get "subnet" inspected) ≡ true
  pub loopback :
      is_text_of "127.0.0.1"
        (get "com.docker.network.bridge.host_binding_ipv4" (dict_or_none (get "options" inspected)))
      ≡ true
  pub isolated :
      is_text_of "isolated"
        (get "com.docker.network.bridge.gateway_mode_ipv4" (dict_or_none (get "options" inspected)))
      ≡ true
  pub labels :
      All (λ kv. has_label (dict_or_none (get "labels" inspected)) kv ≡ true) (network_labels n)

pub not-false : (b : Bool) → not b ≡ false → b ≡ true
not-false b h = ground arith

pub or-false : (a b : Bool) → (not a || not b) ≡ false → (a ≡ true) × (b ≡ true)
or-false a b h = ground arith

any-false :
    (p : String × String → Bool) (xs : List (String × String))
    → any (λ kv. not (p kv)) xs ≡ false
    → All (λ kv. p kv ≡ true) xs
any-false p [] h = tt
any-false p (x ∷ xs) h = ground (arith, any-false p xs)

-- If the observer finds no violation of the network contract, then the name and the labels
-- resolve to the one expected network, which is a local internal bridge without IPv6 on the
-- expected subnet, binds to loopback, has an isolated gateway and carries the four labels.
pub network-IsContained :
    (inspected : Fields) (resolved correlated : List String) (n : Network)
    → validate_network_contract inspected resolved correlated n ≡ []
    → IsContained inspected resolved correlated n
unfolding validate_network_contract network_violations
network-IsContained inspected resolved correlated n h =
    let (a, h₁) = when-nil _ network_name_id_mapping_failed _ (sorted_set-nil order _ h) in
    let (b, h₂) = when-nil _ second_packet_network_detected _ h₁ in
    let (c, h₃) = when-nil _ network_name_id_mapping_failed _ h₂ in
    let (d, h₄) = when-nil _ network_driver_mismatch _ h₃ in
    let (e, h₅) = when-nil _ network_scope_mismatch _ h₄ in
    let (f, h₆) = when-nil _ network_not_internal _ h₅ in
    let (g, h₇) = when-nil _ network_ipv6_enabled _ h₆ in
    let (i, h₈) = when-nil _ network_subnet_mismatch _ h₇ in
    let (j, h₉) = when-nil _ network_host_binding_mismatch _ h₈ in
    let (k, h₁₀) = when-nil _ network_gateway_mode_mismatch _ h₉ in
    let l = when-nil_last _ network_label_mismatch h₁₀ in
    let (c₀, c₁) = or-false _ _ c in
    record {
      one_name = not-false _ a;
      one_network = not-false _ b;
      id = c₀;
      name = c₁;
      driver = not-false _ d;
      scope = not-false _ e;
      internal = not-false _ f;
      no_ipv6 = not-false _ g;
      subnet = not-false _ i;
      loopback = not-false _ j;
      isolated = not-false _ k;
      labels = any-false (has_label (dict_or_none (get "labels" inspected))) (network_labels n) l;
    }
