-- ===== src/Roles/Masks.antt =====
-- The loops of roleStore.ts over masks, read bit by bit.
use together.Base.{
  ℕ, ◌<◌, String, ◌≡◌, refl, ◌∙◌, Bool, true, false, not, ◌&&◌, ◌||◌, Option, none, some, List, [],
  ◌∷◌, arith, any, includes, is_id, or_else, get_or, if◌then◌else◌,
}
use together.Bits.{test_bit, test_bit-zero, or32, test_bit-or32, test_bit-and32, test_bit-not32}
use together.Types.Community.{RoleDto, ChannelPermissionOverride}
use together.Roles.{add_permissions, compute_permissions}
use together.Roles.Overrides.{of_my_roles, role_overrides, apply_override, user_overrides}

-- A role that I have sets bit k.
abbrev pub grants : ℕ → List String → RoleDto → Bool
grants k ids role = includes ids role.id && test_bit k role.permissions

-- What the last of my own overrides that speaks of bit k says; allowing goes before denying.
abbrev pub verdict : ℕ → String → List ChannelPermissionOverride → Option Bool
verdict k user_id [] = none
verdict k user_id (ov ∷ ovs) = or_else (verdict k user_id ovs) (
    if is_id ov.user_id user_id
    then (if test_bit k ov.allow
        then some true
        else if test_bit k ov.deny
        then some false
        else none)
    else none)

module _ (k : ℕ) (below : k < 32) where
  test_bit-add_permissions :
      (perms : ℕ) (roles : List RoleDto) (ids : List String)
      → test_bit k (add_permissions perms roles ids)
        ≡ (test_bit k perms || any (grants k ids) roles)
  unfolding add_permissions
  test_bit-add_permissions perms [] ids = ground arith
  test_bit-add_permissions perms (role ∷ roles) ids = ground (
    arith,
    test_bit-add_permissions perms roles ids,
    test_bit-add_permissions (or32 perms role.permissions) roles ids,
    test_bit-or32 k perms role.permissions below,
  )

  pub test_bit-compute_permissions :
      (roles : List RoleDto) (ids : List String)
      → test_bit k (compute_permissions roles ids) ≡ any (grants k ids) roles
  unfolding compute_permissions
  test_bit-compute_permissions roles ids = test_bit-add_permissions 0 roles ids ∙ rw test_bit-zero

  test_bit-role_overrides :
      (ids : List String) (ovs : List ChannelPermissionOverride) (allow deny : ℕ)
      → (test_bit k (role_overrides ids ovs allow deny).0
          ≡ (test_bit k allow || any (λ ov. of_my_roles ids ov && test_bit k ov.allow) ovs))
        × (test_bit k (role_overrides ids ovs allow deny).1
            ≡ (test_bit k deny || any (λ ov. of_my_roles ids ov && test_bit k ov.deny) ovs))
  unfolding role_overrides
  test_bit-role_overrides ids [] allow deny = ground arith
  test_bit-role_overrides ids (ov ∷ ovs) allow deny = ground (
    arith,
    test_bit-role_overrides ids ovs allow deny,
    test_bit-role_overrides ids ovs (or32 allow ov.allow) (or32 deny ov.deny),
    test_bit-or32 k allow ov.allow below,
    test_bit-or32 k deny ov.deny below,
  )

  pub role_masks :
      (ids : List String) (ovs : List ChannelPermissionOverride)
      → (test_bit k (role_overrides ids ovs 0 0).0
          ≡ any (λ ov. of_my_roles ids ov && test_bit k ov.allow) ovs)
        × (test_bit k (role_overrides ids ovs 0 0).1
            ≡ any (λ ov. of_my_roles ids ov && test_bit k ov.deny) ovs)
  role_masks ids ovs = ground (arith, test_bit-role_overrides ids ovs 0 0, test_bit-zero k)

  pub test_bit-apply_override :
      (perms allow deny : ℕ)
      → test_bit k (apply_override perms allow deny)
        ≡ (test_bit k perms && not (test_bit k deny) || test_bit k allow)
  unfolding apply_override
  test_bit-apply_override perms allow deny =
      rw
        (test_bit-or32 k _ allow below, test_bit-and32 k perms _ below, test_bit-not32 k deny below)

  pub test_bit-user_overrides :
      (user_id : String) (ovs : List ChannelPermissionOverride) (perms : ℕ)
      → test_bit k (user_overrides user_id ovs perms)
        ≡ get_or (verdict k user_id ovs) (test_bit k perms)
  unfolding user_overrides
  test_bit-user_overrides user_id [] perms = refl
  test_bit-user_overrides user_id (ov ∷ ovs) perms = ground (
    arith,
    test_bit-user_overrides user_id ovs perms,
    test_bit-user_overrides user_id ovs (apply_override perms ov.allow ov.deny),
    test_bit-apply_override perms ov.allow ov.deny,
  )
