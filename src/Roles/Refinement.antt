-- ===== src/Roles/Refinement.antt =====
-- computeChannelPermissions of roleStore.ts against a description of each permission by itself.
use together.Base.{
  ℕ, ◌<◌, String, ◌≡◌, refl, ap, ◌∙◌, Bool, true, false, not, ◌&&◌, ◌||◌, List, arith, any, eqb,
  truthy, get_or, Bool-cases, inl, inr,
}
use together.Bits.{test_bit, or32, and32, test_bit-or32, test_bit-zero}
use together.Types.Community.{RoleDto, ChannelPermissionOverride}
use together.Types.Permissions.{
  Permission, mask, bit_of, administrator, view_channel, send_messages, attach_files, add_reactions,
  connect_voice, speak, mask-test_bit, has_permission, has_permission-test_bit,
}
use together.Roles.{RoleState, Session, compute_permissions, my_role_ids, roles_of}
use together.Roles.Overrides.{
  default_member_perms, role_overrides, apply_override, user_overrides, of_my_roles,
  member_permissions, is_owner, compute_channel_permissions, overrides_of, all_bits,
}
use together.Roles.Masks.{
  grants, verdict, test_bit-compute_permissions, role_masks, test_bit-apply_override,
  test_bit-user_overrides,
}

-- What every member may do.
abbrev pub is_default : Permission → Bool
is_default view_channel = true
is_default send_messages = true
is_default attach_files = true
is_default add_reactions = true
is_default connect_voice = true
is_default speak = true
is_default _ = false

-- One permission of a member who does not own the server: by the roles or by default, then by the overrides of the
-- channel, those of roles together and then each of the member's own.
abbrev pub member_may :
    List String → String → List RoleDto → List ChannelPermissionOverride → Permission → Bool
member_may ids user_id server_roles ovs p =
    any (grants (bit_of administrator) ids) server_roles
    || get_or (verdict (bit_of p) user_id ovs) (
        (any (grants (bit_of p) ids) server_roles || is_default p)
          && not (any (λ ov. of_my_roles ids ov && test_bit (bit_of p) ov.deny) ovs)
        || any (λ ov. of_my_roles ids ov && test_bit (bit_of p) ov.allow) ovs)

pub bit_of-lt : (p : Permission) → bit_of p < 32
bit_of-lt view_channel = omega arith
bit_of-lt _ = omega arith

test_bit-default : (p : Permission) → test_bit (bit_of p) default_member_perms ≡ is_default p
unfolding test_bit default_member_perms or32
test_bit-default view_channel = refl
test_bit-default _ = refl

test_bit-all_bits : (p : Permission) → test_bit (bit_of p) all_bits ≡ true
unfolding test_bit
test_bit-all_bits view_channel = refl
test_bit-all_bits _ = refl

base_bit :
    (p : Permission) (server_roles : List RoleDto) (ids : List String)
    → test_bit (bit_of p) (or32 (compute_permissions server_roles ids) default_member_perms)
      ≡ (any (grants (bit_of p) ids) server_roles || is_default p)
base_bit p server_roles ids = rw (
  test_bit-or32 (bit_of p) (compute_permissions server_roles ids) default_member_perms
      (bit_of-lt p),
  test_bit-default,
  test_bit-compute_permissions (bit_of p) (bit_of-lt p),
)

module _ (ids : List String) (user_id : String) (server_roles : List RoleDto)
    (ovs : List ChannelPermissionOverride) where
  abbrev base : ℕ
  base = or32 (compute_permissions server_roles ids) default_member_perms

  admin_test :
      eqb (and32 base (mask administrator)) 0
      ≡ not (any (grants (bit_of administrator) ids) server_roles)
  admin_test =
      mask-test_bit base administrator ∙ ground (arith, base_bit administrator server_roles ids)

  -- The mask of a member who is no administrator.
  overridden :
      (p : Permission)
      → test_bit (bit_of p) (
          user_overrides user_id ovs
            (apply_override base (role_overrides ids ovs 0 0).0 (role_overrides ids ovs 0 0).1))
        ≡ get_or (verdict (bit_of p) user_id ovs) (
            (any (grants (bit_of p) ids) server_roles || is_default p)
              && not (any (λ ov. of_my_roles ids ov && test_bit (bit_of p) ov.deny) ovs)
            || any (λ ov. of_my_roles ids ov && test_bit (bit_of p) ov.allow) ovs)
  overridden p =
      let k = bit_of p in
      let h = bit_of-lt p in
      let masks = role_masks k h ids ovs in
      test_bit-user_overrides k h user_id ovs _
      ∙ ap (get_or (verdict k user_id ovs)) (
          test_bit-apply_override k h base (role_overrides ids ovs 0 0).0
            (role_overrides ids ovs 0 0).1
          ∙ rw (base_bit p server_roles ids, masks.0, masks.1))

  pub member_permissions-member_may :
      (p : Permission)
      → test_bit (bit_of p) (member_permissions ids user_id server_roles ovs)
        ≡ member_may ids user_id server_roles ovs p
  unfolding member_permissions
  member_permissions-member_may p =
      elim (Bool-cases (any (grants (bit_of administrator) ids) server_roles)) [
        | inl admin ↦ rw (admin_test, admin) (test_bit-all_bits p)
        | inr plain ↦ rw (admin_test, plain) (overridden p)
      ]

-- Whether the signed-in user may do p in the channel: the owner of the server may do anything, and
-- nobody may while signed out.
abbrev pub may : Session → String → String → RoleState → Permission → Bool
may session server_id channel_id s p =
    let user_id = get_or session.current_user_id "" in
    truthy session.current_user_id
    && (is_owner session server_id user_id
        || member_may (my_role_ids session user_id) user_id (roles_of server_id s)
            (overrides_of channel_id s) p)

-- For every permission, the bit that `computeChannelPermissions` computes is the permission as it is
-- described by itself, on every path: signed out, owner, administrator, role overrides, own overrides.
pub compute_channel_permissions-may :
    (session : Session) (server_id channel_id : String) (s : RoleState) (p : Permission)
    → test_bit (bit_of p) (compute_channel_permissions session server_id channel_id s)
      ≡ may session server_id channel_id s p
unfolding compute_channel_permissions
compute_channel_permissions-may session server_id channel_id s p =
    let user_id = get_or session.current_user_id "" in
    ground (
      arith,
      test_bit-all_bits p,
      test_bit-zero (bit_of p),
      member_permissions-member_may (my_role_ids session user_id) user_id (roles_of server_id s)
          (overrides_of channel_id s) p,
    )

-- `hasPermission` on the computed mask: a permission is had exactly when it or the administrator's
-- is, by that description.
has_permission-may :
    (session : Session) (server_id channel_id : String) (s : RoleState) (p : Permission)
    → has_permission (compute_channel_permissions session server_id channel_id s) (mask p)
      ≡ (may session server_id channel_id s p || may session server_id channel_id s administrator)
has_permission-may session server_id channel_id s p =
    has_permission-test_bit (compute_channel_permissions session server_id channel_id s) p
    ∙ rw (
      compute_channel_permissions-may session server_id channel_id s p,
      compute_channel_permissions-may session server_id channel_id s administrator,
    )
