-- ===== src/Dispatch/Community.antt =====
-- clients/web/src/hooks/useWebSocket.ts: the handlers of moderation events, of roles and of overrides.
use together.Base.{
  String, none, some, List, [], ◌∷◌, ◌++◌, if◌then◌else◌, has_id, find_id, update_id, remove_id,
  is_id, get_or, is_some,
}
use together.Types.Community.{
  MemberDto, MemberRoleInfo, RoleDto, RoleDeleteEvent, MemberRoleEvent, ChannelPermissionOverride,
}
use together.Servers
use together.Servers.{ServerState, member_key, server_key}
use together.Roles
use together.Roles.Overrides
use together.Roles.{RoleState, Session}
use together.Dispatch.{Stores, session, current_user_id}

-- The branch of MEMBER_KICK and MEMBER_BAN for the user's own removal.
abbrev pub forget_server : String → ServerState → ServerState
forget_server server_id s =
    let listed = Servers.set_servers (remove_id server_key server_id s.servers) s in
    if is_id listed.active_server_id server_id
    then (Servers.set_active_server none listed).0
    else listed

unfoldable pub on_member_kick : String → String → Stores → Stores
on_member_kick server_id user_id s = record s {
  servers =
      if is_id (current_user_id s) user_id
      then forget_server server_id s.servers
      else Servers.remove_member_locally user_id s.servers;
}

unfoldable pub on_member_ban : String → String → Stores → Stores
on_member_ban server_id user_id s = record s {
  servers =
      if is_id (current_user_id s) user_id
      then forget_server server_id s.servers
      else Servers.remove_member_locally user_id s.servers;
}

pub on_member_timeout : String → String → Stores → Stores
on_member_timeout user_id expires_at s = record s {
  servers = Servers.set_member_timeout user_id (some expires_at) s.servers;
}

pub on_member_timeout_remove : String → Stores → Stores
on_member_timeout_remove user_id s = record s {
  servers = Servers.set_member_timeout user_id none s.servers;
}

pub on_role_create : RoleDto → Stores → Stores
on_role_create role s = record s { roles = Roles.handle_role_create role s.roles }

unfoldable pub on_role_update : RoleDto → Stores → Stores
on_role_update role s = record s { roles = Roles.handle_role_update (session s) role s.roles }

unfoldable pub on_role_delete : RoleDeleteEvent → Stores → Stores
on_role_delete event s = record s { roles = Roles.handle_role_delete (session s) event s.roles }

abbrev pub role_info_key : MemberRoleInfo → String
role_info_key r = r.id

abbrev pub role_info : MemberRoleEvent → MemberRoleInfo
role_info event = record {
  id = event.role_id;
  name = event.role_name;
  color = event.role_color;
  position = 0;
}

-- The member's entry with the role, unless it has it.
unfoldable pub add_member_role : MemberRoleEvent → List MemberDto → List MemberDto
add_member_role event members = elim (find_id member_key event.user_id members) [
  | none ↦ members
  | some member ↦
      if has_id role_info_key event.role_id (get_or member.roles [])
      then members
      else update_id member_key event.user_id
          (λ m. record m { roles = some (get_or member.roles [] ++ role_info event ∷ []) }) members
]

unfoldable pub remove_member_role : MemberRoleEvent → List MemberDto → List MemberDto
remove_member_role event members = elim (find_id member_key event.user_id members) [
  | none ↦ members
  | some member ↦
      if is_some member.roles
      then update_id member_key event.user_id
          (λ m. record m {
            roles = some (remove_id role_info_key event.role_id (get_or m.roles []));
          })
          members
      else members
]

-- The role store computes first; the members change after it.
unfoldable pub on_member_role_add : MemberRoleEvent → Stores → Stores
on_member_role_add event s = record s {
  roles = Roles.handle_member_role_add (session s) event s.roles;
  servers = record (s.servers) { members = add_member_role event s.servers.members };
}

unfoldable pub on_member_role_remove : MemberRoleEvent → Stores → Stores
on_member_role_remove event s = record s {
  roles = Roles.handle_member_role_remove (session s) event s.roles;
  servers = record (s.servers) { members = remove_member_role event s.servers.members };
}

pub on_channel_override_update : ChannelPermissionOverride → Stores → Stores
on_channel_override_update override s = record s {
  roles = Overrides.handle_channel_override_update override s.roles;
}

pub on_channel_override_delete : String → String → Stores → Stores
on_channel_override_delete channel_id override_id s = record s {
  roles = Overrides.handle_channel_override_delete channel_id override_id s.roles;
}
