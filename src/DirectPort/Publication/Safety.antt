-- ===== src/DirectPort/Publication/Safety.antt =====
-- When `classify_unpublished_publication_shape` calls a publication safe.
use mathlib.Core.Path.{subst}
use hosted_replay_harness.DirectPort.Publication.{
  is_nil, Bindings, Signatures, Summary, binding_map_summary, classify_publication, dict_or_null,
  nonempty, publication_class, shape_safe, signatures_of, summary_of, total_bindings,
  PublicationClass, ValueClass, as_boolean, classify_summary, exposed_port_summary, is_wrong,
  network_5432_value_class, of_summary, of_surfaces, request_rejected, runtime_rejected,
  same_requests, schema_rejected, surfaces,
}
use hosted_replay_harness.Options.{>>=-eq-some, only_if, >>-eq-some}
use hosted_replay_harness.Prelude.{
  Bool, [], arith, false, refl, some, true, ◌↔◌, ◌∷◌, ◌≡◌, Option, if◌then◌else◌, none, not, sym,
  ◌&&◌, ◌||◌, ◌∙◌,
}
use hosted_replay_harness.Value.{Fields, Value}

some_same {ℓ} : {A : Type ℓ} {a b : A} → some a ≡ some b → a ≡ b
some_same h = cc

-- The count of bindings says whether a port has any.
abbrev IsCounted : Bindings → Type 0
IsCounted b = b.total_binding_count ≡ total_bindings b.signatures

binding_map_summary-IsCounted :
    (value : Value) (b : Bindings) → binding_map_summary value ≡ some b → IsCounted b
unfolding binding_map_summary
binding_map_summary-IsCounted value b h =
    let (ports, e, g) = >>=-eq-some (dict_or_null value) _ h in
    let (signatures, i, j) = >>=-eq-some (signatures_of ports) _ g in
    subst IsCounted (some_same j) refl

nonempty-nil : (s : Signatures) → (is_nil (nonempty s) ≡ true) ↔ (total_bindings s ≡ 0)
unfolding nonempty
nonempty-nil [] = (λ h. refl, λ h. refl)
nonempty-nil ((k, []) ∷ rest) = ground (arith, nonempty-nil rest)
nonempty-nil ((k, b ∷ bs) ∷ rest) = ground arith

summary_of-IsCounted :
    (exposed bindings publish_all ports : Value) (s : Summary)
    → summary_of exposed bindings publish_all ports ≡ some s
    → IsCounted s.requested × IsCounted s.published
unfolding summary_of
summary_of-IsCounted exposed bindings publish_all ports s h =
    let (count, e₀, h₀) = >>=-eq-some (exposed_port_summary exposed) _ h in
    let (requested, e₁, h₁) = >>=-eq-some (binding_map_summary bindings) _ h₀ in
    let (published, e₂, h₂) = >>=-eq-some (binding_map_summary ports) _ h₁ in
    let (all_ports, e₃, h₃) = >>=-eq-some (as_boolean publish_all) _ h₂ in
    let h₄ =
      >>-eq-some (only_if (not (is_wrong (network_5432_value_class ports))) (some tt)) _ h₃ in
    subst (λ s. IsCounted s.requested × IsCounted s.published) (some_same h₄)
      (
        binding_map_summary-IsCounted bindings requested e₁,
        binding_map_summary-IsCounted ports published e₂,
      )

-- What a summary says of the ports that are open to other hosts.
pub record IsUnpublished (s : Summary) : Type 0 where
  pub not_all : s.host_publish_all_ports ≡ false
  pub none_requested : s.requested.total_binding_count ≡ 0
  pub none_published : s.published.total_binding_count ≡ 0

class_of_tests :
    (all_ports requested published same_ones : Bool)
    → (if◌then◌else◌ {A = PublicationClass}
          (not requested && (not published && not same_ones))
          schema_rejected
          (if all_ports || not requested
            then request_rejected
            else if not published
            then runtime_rejected
            else shape_safe)
        ≡ shape_safe)
      ↔ ((all_ports ≡ false) × (requested ≡ true) × (published ≡ true))
class_of_tests true true published same_ones = (λ h. cc, λ h. cc)
class_of_tests false true true same_ones = (λ h. (refl, refl, refl), λ h. refl)
class_of_tests false true false same_ones = (λ h. cc, λ h. cc)
class_of_tests all_ports false true same_ones = ground arith
class_of_tests all_ports false false true = ground arith
class_of_tests all_ports false false false = (λ h. cc, λ h. cc)

publication_class-shape_safe :
    (all_ports : Bool) (requested published : Signatures)
    → (publication_class all_ports requested published ≡ shape_safe)
      ↔ ((all_ports ≡ false) × (is_nil requested ≡ true) × (is_nil published ≡ true))
unfolding publication_class
publication_class-shape_safe all_ports requested published =
    class_of_tests all_ports (is_nil requested) (is_nil published)
      (same_requests requested published)

counted-nil :
    (b : Bindings)
    → IsCounted b
    → (is_nil (nonempty b.signatures) ≡ true) ↔ (b.total_binding_count ≡ 0)
counted-nil b h = let (f, g) = nonempty-nil b.signatures in (λ e. h ∙ f e, λ e. g (sym h ∙ e))

classify_summary-IsUnpublished :
    (s : Summary)
    → IsCounted s.requested × IsCounted s.published
    → (classify_summary s ≡ shape_safe) ↔ IsUnpublished s
unfolding classify_summary
classify_summary-IsUnpublished s (requested, published) =
    let (f, g) =
      publication_class-shape_safe s.host_publish_all_ports (nonempty s.requested.signatures)
        (nonempty s.published.signatures) in
    (
      λ h. record {
        not_all = (f h).0;
        none_requested = (counted-nil s.requested requested).0 (f h).1;
        none_published = (counted-nil s.published published).0 (f h).2;
      },
      λ u. g (
        u.not_all,
        (counted-nil s.requested requested).1 u.none_requested,
        (counted-nil s.published published).1 u.none_published,
      ),
    )

module _ (s : Summary) where
  of_summary-IsUnpublished :
      (v : ValueClass) (m : Option Summary)
      → (m ≡ some s → IsCounted s.requested × IsCounted s.published)
      → (of_summary v m).summary ≡ some s
      → ((of_summary v m).class ≡ shape_safe) ↔ IsUnpublished s
  unfolding of_summary
  of_summary-IsUnpublished v none k h = cc
  of_summary-IsUnpublished v (some r) k h =
      rw (some_same h) (classify_summary-IsUnpublished s (k h))

  of_surfaces-IsUnpublished :
      (m : Option (Value × Value × Value × Value))
      → (of_surfaces m).summary ≡ some s
      → ((of_surfaces m).class ≡ shape_safe) ↔ IsUnpublished s
  unfolding of_surfaces
  of_surfaces-IsUnpublished none h = cc
  of_surfaces-IsUnpublished (some (exposed, bindings, publish_all, ports)) h =
      of_summary-IsUnpublished _ _ (summary_of-IsCounted exposed bindings publish_all ports s) h

-- If a publication has a summary, then it is classified as safe exactly where the summary says
-- that not all ports are published, that no binding is requested and that none is published.
pub classify_publication-IsUnpublished :
    (inspected : Fields) (s : Summary)
    → (classify_publication inspected).summary ≡ some s
    → ((classify_publication inspected).class ≡ shape_safe) ↔ IsUnpublished s
unfolding classify_publication
classify_publication-IsUnpublished inspected s h =
    of_surfaces-IsUnpublished s (surfaces inspected) h
