-- ===== src/ContainerWatch/Contracts/Roles.antt =====
-- What the role of a container and its own checks say of the container.
use hosted_replay_harness.ContainerWatch.Contracts.{
  EventPhase, Expected, Role, is_blank, or_dict, role_of, role_violations, actual_db_binding,
  database_role, database_violations, db_name, get_in, gotrue_migration_role, gotrue_violations,
  has_published_binding, is_db_mounts, is_start, name_of, or_list, unexpected_role,
}
use hosted_replay_harness.ContainerWatch.Violations.{
  when, database_bind_mismatch, database_mount_mismatch, database_port_binding_mismatch,
  database_port_request_mismatch, gotrue_mount_rejected, gotrue_port_rejected,
  database_restart_policy_mismatch,
}
use hosted_replay_harness.Options.{>>=-eq-some}
use hosted_replay_harness.Prelude.{
  Bool, [], arith, false, not, refl, true, ◌||◌, ◌≡◌, Bytes, ap, some, ◌∙◌, codes, equal,
  if◌then◌else◌, ◌&&◌,
}
use hosted_replay_harness.Value.{Fields, get, is_text_of, Value, cons, eq, list, nil, text}
use hosted_replay_harness.ContainerWatch.Contracts.Verdicts.{
  when-nil, some_injective, not-false, or-false,
}

-- What a container of each role has: the database its one volume and its one port, the migration
-- neither.
abbrev pub RoleConfined : (Value → Bytes) → Fields → EventPhase → Expected → Role → Type 0
RoleConfined str_of inspected phase expected database_role =
    (equal (name_of str_of inspected) (codes db_name) ≡ true)
    × (is_text_of expected.postgres_image_id (get "image_id" inspected) ≡ true)
    × (eq (or_list (get "binds" inspected))
          (list (cons (text "supabase_db_fp-hosted-replay-ro-001:/var/lib/postgresql/data") nil))
        ≡ true)
    × (is_db_mounts (or_list (get "mounts" inspected)) ≡ some true)
    × ((not (is_start phase) || actual_db_binding inspected) ≡ true)
RoleConfined str_of inspected phase expected gotrue_migration_role =
    (is_text_of expected.gotrue_image_id (get "image_id" inspected) ≡ true)
    × (is_blank (get "binds" inspected) ≡ true)
    × (is_blank (get "mounts" inspected) ≡ true)
    × (is_blank (get "port_bindings" inspected) ≡ true)
    × ((not (is_start phase) || not (has_published_binding inspected)) ≡ true)
RoleConfined str_of inspected phase expected unexpected_role = Unit

start-lem : (a b : Bool) → (a && not b) ≡ false → (not a || b) ≡ true
start-lem a b h = ground arith

publish-lem : (a b c : Bool) → (not a || (b && c)) ≡ false → (a ≡ true) × ((not b || not c) ≡ true)
publish-lem a b c h = ground arith

-- What the name, the image and the command of a role are.
abbrev pub RoleNamed : (Value → Bytes) → Fields → Expected → Role → Type 0
RoleNamed str_of inspected expected database_role =
    (equal (name_of str_of inspected) (codes db_name) ≡ true)
    × (is_text_of expected.postgres_image_id (get "image_id" inspected) ≡ true)
RoleNamed str_of inspected expected gotrue_migration_role =
    is_text_of expected.gotrue_image_id (get "image_id" inspected) ≡ true
RoleNamed str_of inspected expected unexpected_role = Unit

module _ (str_of : Value → Bytes) (inspected : Fields) (phase : EventPhase)
    (expected : Expected) where
  pub role_of-RoleNamed : RoleNamed str_of inspected expected (role_of str_of inspected expected)
  unfolding role_of
  role_of-RoleNamed =
      by_tests (equal (name_of str_of inspected) (codes db_name))
        (is_text_of expected.postgres_image_id (get "image_id" inspected))
        (is_text_of expected.gotrue_image_id (get "image_id" inspected))
        (eq (or_list (get "cmd" inspected))
          (list (cons (text "gotrue") (cons (text "migrate") nil))))
        refl refl refl
    where
      by_tests :
          (a b c d : Bool)
          → equal (name_of str_of inspected) (codes db_name) ≡ a
          → is_text_of expected.postgres_image_id (get "image_id" inspected) ≡ b
          → is_text_of expected.gotrue_image_id (get "image_id" inspected) ≡ c
          → RoleNamed str_of inspected expected (
              if a && b
              then database_role
              else if c && d
              then gotrue_migration_role
              else unexpected_role)
      by_tests true true c d e f g = (e, f)
      by_tests true false true true e f g = g
      by_tests true false true false e f g = tt
      by_tests true false false d e f g = tt
      by_tests false b true true e f g = g
      by_tests false b true false e f g = tt
      by_tests false b false d e f g = tt

  pub role-passed :
      (role : Role)
      → RoleNamed str_of inspected expected role
      → role_violations str_of role inspected phase ≡ some []
      → RoleConfined str_of inspected phase expected role
  unfolding role_violations database_violations gotrue_violations
  role-passed database_role (name, image) h =
      let (mounted, m, h₁) = >>=-eq-some (is_db_mounts (or_list (get "mounts" inspected))) _ h in
      let (requested, _, h₂) =
        >>=-eq-some (get_in "5432/tcp" (or_dict (get "port_bindings" inspected))) _ h₁ in
      let (restart, _, h₃) =
        >>=-eq-some (get_in "Name" (or_dict (get "restart_policy" inspected))) _ h₂ in
      let (a, l₁) = when-nil _ database_bind_mismatch _ (some_injective h₃) in
      let (b, l₂) = when-nil _ database_mount_mismatch _ l₁ in
      let (_, l₃) = when-nil _ database_port_request_mismatch _ l₂ in
      let (d, _) =
        when-nil (is_start phase && not (actual_db_binding inspected))
          database_port_binding_mismatch
          (when (not (is_text_of "unless-stopped" restart)) database_restart_policy_mismatch) l₃ in
      (
        name,
        image,
        not-false _ a,
        m ∙ ap some (not-false _ b),
        start-lem (is_start phase) (actual_db_binding inspected) d,
      )
  role-passed gotrue_migration_role image h =
      let (restart, _, h₁) =
        >>=-eq-some (get_in "Name" (or_dict (get "restart_policy" inspected))) _ h in
      let (a, l₁) = when-nil _ gotrue_mount_rejected _ (some_injective h₁) in
      let (b, _) =
        when-nil
          (not (is_blank (get "port_bindings" inspected))
            || (is_start phase && has_published_binding inspected))
          gotrue_port_rejected _ l₁ in
      let (a₀, a₁) = or-false _ _ a in
      let (b₀, b₁) =
        publish-lem (is_blank (get "port_bindings" inspected)) (is_start phase)
          (has_published_binding inspected) b in
      (image, a₀, a₁, b₀, b₁)
  role-passed unexpected_role named h = tt
