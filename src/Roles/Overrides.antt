-- ===== src/Roles/Overrides.antt =====
-- clients/web/src/stores/roleStore.ts: the overrides of channels, and `computeChannelPermissions`.
use together.Base.{
  ℕ, String, Bool, false, not, ◌&&◌, none, some, List, [], ◌∷◌, ◌++◌, if◌then◌else◌, eqb, update_id,
  remove_id, find_id, has_id, includes, truthy, is_id, get_or, ◌==◌,
}
use together.Base.Dict.{Dict, get, put, merge}
use together.Bits.{or32, and32, not32}
use together.Types.Community.{ServerDto, RoleDto, ChannelPermissionOverride}
use together.Types.Permissions.{
  mask, view_channel, send_messages, add_reactions, attach_files, connect_voice, speak,
  administrator,
}
use together.Roles.{RoleState, Session, override_id, compute_permissions, my_role_ids, roles_of}

pub set_channel_overrides_from_ready : Dict (List ChannelPermissionOverride) → RoleState → RoleState
set_channel_overrides_from_ready overrides s = record s {
  channel_overrides = merge s.channel_overrides overrides;
}

abbrev pub overrides_of : String → RoleState → List ChannelPermissionOverride
overrides_of channel_id s = get_or (get s.channel_overrides channel_id) []

unfoldable pub handle_channel_override_update : ChannelPermissionOverride → RoleState → RoleState
handle_channel_override_update override s =
    let existing = overrides_of override.channel_id s in
    record s {
      channel_overrides = put s.channel_overrides override.channel_id (
          if has_id override_id override.id existing
          then update_id override_id override.id (λ _. override) existing
          else existing ++ override ∷ []);
    }

-- The event of CHANNEL_OVERRIDE_DELETE: the channel and the override's id.
unfoldable pub handle_channel_override_delete : String → String → RoleState → RoleState
handle_channel_override_delete channel_id id s = record s {
  channel_overrides =
      put s.channel_overrides channel_id (remove_id override_id id (overrides_of channel_id s));
}

abbrev pub all_bits : ℕ
all_bits = 0x7fffffff

unfoldable pub default_member_perms : ℕ
default_member_perms =
    or32
      (or32
        (or32 (or32 (or32 (mask view_channel) (mask send_messages)) (mask add_reactions))
          (mask attach_files))
        (mask connect_voice))
      (mask speak)

-- `ov.role_id && myRoleIds.includes(ov.role_id)`
abbrev pub of_my_roles : List String → ChannelPermissionOverride → Bool
of_my_roles ids ov = truthy ov.role_id && includes ids (get_or ov.role_id "")

-- The loop that collects `roleAllow` and `roleDeny`.
unfoldable pub role_overrides : List String → List ChannelPermissionOverride → ℕ → ℕ → ℕ × ℕ
role_overrides ids [] allow deny = (allow, deny)
role_overrides ids (ov ∷ ovs) allow deny =
    role_overrides ids ovs (if of_my_roles ids ov then or32 allow ov.allow else allow)
      (if of_my_roles ids ov then or32 deny ov.deny else deny)

-- (perms & ~deny) | allow
unfoldable pub apply_override : ℕ → ℕ → ℕ → ℕ
apply_override perms allow deny = or32 (and32 perms (not32 deny)) allow

-- The loop over the overrides of the current user.
unfoldable pub user_overrides : String → List ChannelPermissionOverride → ℕ → ℕ
user_overrides user_id [] perms = perms
user_overrides user_id (ov ∷ ovs) perms =
    user_overrides user_id ovs
      (if is_id ov.user_id user_id then apply_override perms ov.allow ov.deny else perms)

-- `computeChannelPermissions` below its test for the owner.
unfoldable pub member_permissions :
    List String → String → List RoleDto → List ChannelPermissionOverride → ℕ
unfolding apply_override
member_permissions ids user_id server_roles overrides =
    let perms = or32 (compute_permissions server_roles ids) default_member_perms in
    let role_masks = role_overrides ids overrides 0 0 in
    if not (eqb (and32 perms (mask administrator)) 0)
    then all_bits
    else user_overrides user_id overrides (apply_override perms role_masks.0 role_masks.1)

-- `server?.owner_id === currentUserId`
unfoldable pub is_owner : Session → String → String → Bool
is_owner session server_id user_id =
    elim (find_id (λ (srv : ServerDto). srv.id) server_id session.servers) [
      | none ↦ false
      | some server ↦ server.owner_id == user_id
    ]

unfoldable pub compute_channel_permissions : Session → String → String → RoleState → ℕ
compute_channel_permissions session server_id channel_id s =
    let user_id = get_or session.current_user_id "" in
    if truthy session.current_user_id
    then (if is_owner session server_id user_id
        then all_bits
        else member_permissions (my_role_ids session user_id) user_id (roles_of server_id s)
            (overrides_of channel_id s))
    else 0
