-- ===== src/Roles.antt =====
-- clients/web/src/stores/roleStore.ts. What the store reads of authStore and serverStore is the argument `Session`. An
-- action that awaits the API takes the answer; the state and the session are those at the time when the
-- answer arrives.
pub mod Overrides
pub mod Masks
pub mod Refinement
use together.Base.{
  ℕ, String, Bool, true, false, not, ◌&&◌, Option, none, some, List, [], ◌∷◌, ◌++◌, map,
  if◌then◌else◌, eqb, update_id, remove_id, find_id, find, has_id, includes, truthy, is_id, get_or,
  ◌==◌, Reply, ok, failed, describe, Outcome, returned, thrown,
}
use together.Base.Dict.{Dict, get, put, merge}
use together.Bits.{or32, and32, not32}
use together.Types.Community.{
  ServerDto, MemberDto, RoleDto, RoleDeleteEvent, MemberRoleInfo, MemberRoleEvent,
  ChannelPermissionOverride,
}
use together.Types.Permissions.{
  mask, view_channel, send_messages, add_reactions, attach_files, connect_voice, speak,
  administrator,
}

pub record RoleState : Type 0 where
  pub roles : Dict (List RoleDto)
  pub my_permissions : Dict ℕ
  pub channel_overrides : Dict (List ChannelPermissionOverride)
  pub is_loading : Bool
  pub error : Option String

abbrev pub initial : RoleState
initial = record {
  roles = [];
  my_permissions = [];
  channel_overrides = [];
  is_loading = false;
  error = none;
}

-- The signed-in user, and the servers and members that serverStore holds.
pub record Session : Type 0 where
  pub current_user_id : Option String
  pub servers : List ServerDto
  pub members : List MemberDto

abbrev pub role_id : RoleDto → String
role_id r = r.id

abbrev pub override_id : ChannelPermissionOverride → String
override_id o = o.id

-- The loop of `computePermissions`, from the mask that it has so far.
pub add_permissions : ℕ → List RoleDto → List String → ℕ
add_permissions perms [] my_role_ids = perms
add_permissions perms (role ∷ roles) my_role_ids =
    add_permissions (if includes my_role_ids role.id then or32 perms role.permissions else perms)
      roles my_role_ids

unfoldable pub compute_permissions : List RoleDto → List String → ℕ
unfolding add_permissions
compute_permissions roles my_role_ids = add_permissions 0 roles my_role_ids

abbrev pub role_ids : List MemberRoleInfo → List String
role_ids = map (λ r. r.id)

-- The ids of the current user's roles, by the entry of serverStore's members.
unfoldable pub my_role_ids : Session → String → List String
my_role_ids session user_id = elim (find (λ m. m.user_id == user_id) session.members) [
  | none ↦ []
  | some m ↦ role_ids (get_or m.roles [])
]

-- `computeMyPermissions` does nothing while nobody is signed in.
unfoldable pub compute_my_permissions : Session → String → RoleState → RoleState
compute_my_permissions session server_id s =
    if truthy session.current_user_id
    then record s {
      my_permissions = put s.my_permissions server_id (
          compute_permissions (get_or (get s.roles server_id) [])
            (my_role_ids session (get_or session.current_user_id "")));
    }
    else s

abbrev pub set_roles : String → List RoleDto → RoleState → RoleState
set_roles server_id rs s = record s { roles = put s.roles server_id rs }

abbrev pub roles_of : String → RoleState → List RoleDto
roles_of server_id s = get_or (get s.roles server_id) []

pub fetch_roles :
    Session
    → String
    → (meanwhile : RoleState → RoleState) → Reply (List RoleDto)
    → RoleState
    → RoleState
fetch_roles session server_id meanwhile (ok roles) s =
    let s' = meanwhile (record s { is_loading = true }) in
    compute_my_permissions session server_id
      (record s' { roles = put s'.roles server_id roles; is_loading = false })
fetch_roles session server_id meanwhile (failed err) s =
    let s' = meanwhile (record s { is_loading = true }) in
    record s' { error = some (describe err "Failed to fetch roles"); is_loading = false }

unfoldable pub handle_role_create : RoleDto → RoleState → RoleState
handle_role_create role s = set_roles role.server_id (roles_of role.server_id s ++ role ∷ []) s

unfoldable pub handle_role_update : Session → RoleDto → RoleState → RoleState
handle_role_update session role s =
    compute_my_permissions session role.server_id (
      set_roles role.server_id (update_id role_id role.id (λ _. role) (roles_of role.server_id s))
        s)

unfoldable pub handle_role_delete : Session → RoleDeleteEvent → RoleState → RoleState
handle_role_delete session event s =
    compute_my_permissions session event.server_id
      (set_roles event.server_id (remove_id role_id event.role_id (roles_of event.server_id s)) s)

pub create_role : String → Reply RoleDto → RoleState → RoleState × Outcome RoleDto
create_role server_id (ok role) s =
    (set_roles server_id (roles_of server_id s ++ role ∷ []) s, returned role)
create_role server_id (failed err) s =
    (record s { error = some (describe err "Failed to create role") }, thrown err)

pub update_role :
    Session → String → String → Reply RoleDto → RoleState → RoleState × Outcome RoleDto
update_role session server_id id (ok updated) s = (
  compute_my_permissions session server_id
      (set_roles server_id (update_id role_id id (λ _. updated) (roles_of server_id s)) s),
  returned updated,
)
update_role session server_id id (failed err) s =
    (record s { error = some (describe err "Failed to update role") }, thrown err)

pub delete_role :
    Session → String → String → Reply (Unit {0}) → RoleState → RoleState × Outcome (Unit {0})
delete_role session server_id id (ok _) s = (
  compute_my_permissions session server_id
      (set_roles server_id (remove_id role_id id (roles_of server_id s)) s),
  returned tt,
)
delete_role session server_id id (failed err) s =
    (record s { error = some (describe err "Failed to delete role") }, thrown err)

pub assign_role : Reply (Unit {0}) → RoleState → RoleState × Outcome (Unit {0})
assign_role (ok _) s = (s, returned tt)
assign_role (failed err) s =
    (record s { error = some (describe err "Failed to assign role") }, thrown err)

pub remove_role : Reply (Unit {0}) → RoleState → RoleState × Outcome (Unit {0})
remove_role (ok _) s = (s, returned tt)
remove_role (failed err) s =
    (record s { error = some (describe err "Failed to remove role") }, thrown err)

-- The loop over the keys of `serverRoles`.
pub ready_permissions : Dict (List RoleDto) → Dict (List MemberRoleInfo) → Dict ℕ → Dict ℕ
ready_permissions [] member_roles perms = perms
ready_permissions ((server_id, roles) ∷ rest) member_roles perms =
    ready_permissions rest member_roles (
      put perms server_id
        (compute_permissions roles (role_ids (get_or (get member_roles server_id) []))))

pub set_roles_from_ready :
    Session → Dict (List RoleDto) → Option (Dict (List MemberRoleInfo)) → RoleState → RoleState
set_roles_from_ready session server_roles none s = record s { roles = merge s.roles server_roles }
set_roles_from_ready session server_roles (some member_roles) s =
    let loaded = record s { roles = merge s.roles server_roles } in
    if truthy session.current_user_id
    then record loaded {
      my_permissions = merge loaded.my_permissions (ready_permissions server_roles member_roles []);
    }
    else loaded

unfoldable pub handle_member_role_add : Session → MemberRoleEvent → RoleState → RoleState
handle_member_role_add session event s =
    if is_id session.current_user_id event.user_id
    then compute_my_permissions session event.server_id s
    else s

unfoldable pub handle_member_role_remove : Session → MemberRoleEvent → RoleState → RoleState
handle_member_role_remove session event s =
    if is_id session.current_user_id event.user_id
    then compute_my_permissions session event.server_id s
    else s

pub clear_error : RoleState → RoleState
clear_error s = record s { error = none }
