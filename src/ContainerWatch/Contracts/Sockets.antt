-- ===== src/ContainerWatch/Contracts/Sockets.antt =====
-- The mounts of a container that has no mount of the Docker socket.
use mathlib.Core.List.{map}
use hosted_replay_harness.ContainerWatch.Contracts.{
  has_socket_mount, loop_items, mount_texts, or_list, str_or,
}
use hosted_replay_harness.Options.{>>=-eq-some}
use hosted_replay_harness.Prelude.{
  Bool, List, [], any, arith, false, not, refl, true, ◌++◌, ◌∷◌, ◌≡◌, Bytes, some, all, codes,
  has_infix, ◌&&◌,
}
use hosted_replay_harness.Value.{Fields, get, Value, dict}
use hosted_replay_harness.ContainerWatch.Contracts.Verdicts.{some_injective}

-- A mount whose source and destination do not name the Docker socket.
abbrev pub is_socketless : (Value → Bytes) → Value → Bool
is_socketless str_of (dict m) =
    not (has_infix (codes "docker.sock") (str_or str_of "Source" m))
    && not (has_infix (codes "docker.sock") (str_or str_of "Destination" m))
is_socketless str_of _ = true

abbrev pub is_socketless_bind : (Value → Bytes) → Value → Bool
is_socketless_bind str_of v = not (has_infix (codes "docker.sock") (str_of v))

any-append-false :
    (p : Bytes → Bool) (xs ys : List Bytes)
    → any p (xs ++ ys) ≡ false
    → (any p xs ≡ false) × (any p ys ≡ false)
any-append-false p [] ys h = (refl, h)
any-append-false p (x ∷ xs) ys h = ground (arith, any-append-false p xs ys)

module _ (str_of : Value → Bytes) where
  binds-socketless :
      (binds : List Value)
      → any (has_infix (codes "docker.sock")) (map str_of binds) ≡ false
      → all (is_socketless_bind str_of) binds ≡ true
  binds-socketless [] h = refl
  binds-socketless (b ∷ binds) h = ground (arith, binds-socketless binds)

  mounts-socketless :
      (mounts : List Value)
      → any (has_infix (codes "docker.sock")) (mount_texts str_of mounts) ≡ false
      → all (is_socketless str_of) mounts ≡ true
  unfolding mount_texts
  mounts-socketless [] h = refl
  mounts-socketless (dict m ∷ mounts) h = ground (arith, mounts-socketless mounts)
  mounts-socketless (_ ∷ mounts) h = mounts-socketless mounts h

  -- The two loops over binds and mounts, neither of which meets the socket.
  pub socket-free :
      (inspected : Fields)
      → has_socket_mount str_of inspected ≡ some false
      → (binds mounts : List Value) × (loop_items (or_list (get "binds" inspected)) ≡ some binds)
        × (loop_items (or_list (get "mounts" inspected)) ≡ some mounts)
        × (all (is_socketless_bind str_of) binds ≡ true)
        × (all (is_socketless str_of) mounts ≡ true)
  unfolding has_socket_mount
  socket-free inspected h =
      let (binds, b, h₁) = >>=-eq-some (loop_items (or_list (get "binds" inspected))) _ h in
      let (mounts, m, h₂) = >>=-eq-some (loop_items (or_list (get "mounts" inspected))) _ h₁ in
      let (x, y) =
        any-append-false (has_infix (codes "docker.sock")) (map str_of binds)
          (mount_texts str_of mounts) (some_injective h₂) in
      (binds, mounts, b, m, binds-socketless binds x, mounts-socketless mounts y)
