-- ===== src/Dispatch/Stale.antt =====
-- useWebSocket.ts and roleStore.ts: what the user's own permissions are after a change of roles.
use together.Base.{
  String, ◌≡◌, ap, ◌∙◌, true, false, some, List, [], ◌∷◌, ◌++◌, arith, eq_iff, eq_refl, has_id,
  find_id, truthy, get_or, find_id-update_id,
}
use mathlib.Core.List.{map-append}
use together.Base.Dict.{get, get-put_self}
use together.Types.Community.{MemberDto, MemberRoleEvent, RoleDto, RoleDeleteEvent}
use together.Servers.{member_key}
use together.Roles.{
  RoleState, Session, compute_permissions, compute_my_permissions, my_role_ids, roles_of, role_ids,
  handle_member_role_add, handle_role_update, handle_role_delete,
}
use together.Dispatch.{Stores, session, current_user_id}
use together.Dispatch.Community.{
  role_info_key, role_info, add_member_role, on_member_role_add, on_role_update, on_role_delete,
}

-- The stored permissions of a server are those of the roles that the user holds now.
abbrev pub IsFresh : String → Stores → Type 0
IsFresh server_id s =
    get s.roles.my_permissions server_id
    ≡ some (
        compute_permissions (roles_of server_id s.roles)
          (my_role_ids (session s) (get_or (current_user_id s) "")))

recompute :
    (server_id : String) (x : Session) (r : RoleState)
    → truthy x.current_user_id ≡ true
    → get (compute_my_permissions x server_id r).my_permissions server_id
      ≡ some (
          compute_permissions
            (roles_of server_id (compute_my_permissions x server_id r))
            (my_role_ids x (get_or x.current_user_id "")))
unfolding compute_my_permissions
recompute server_id x r h = ground (
  arith,
  get-put_self r.my_permissions server_id
      (compute_permissions (roles_of server_id r) (my_role_ids x (get_or x.current_user_id ""))),
)

-- For a signed-in user, a change or a deletion of a role leaves the stored permissions of its server those of the roles held.
role_events-IsFresh :
    (role : RoleDto) (event : RoleDeleteEvent) (s : Stores)
    → truthy (current_user_id s) ≡ true
    → IsFresh role.server_id (on_role_update role s)
      × IsFresh event.server_id (on_role_delete event s)
unfolding on_role_update on_role_delete handle_role_update handle_role_delete
role_events-IsFresh role event s h =
    (recompute role.server_id (session s) _ h, recompute event.server_id (session s) _ h)

found_role_ids :
    (x : Session) (user : String) (m : MemberDto)
    → find_id member_key user x.members ≡ some m
    → my_role_ids x user ≡ role_ids (get_or m.roles [])
unfolding my_role_ids
found_role_ids x user m h = ground arith

found_added :
    (event : MemberRoleEvent) (m : MemberDto) (members : List MemberDto)
    → find_id member_key event.user_id members ≡ some m
    → has_id role_info_key event.role_id (get_or m.roles []) ≡ false
    → find_id member_key event.user_id (add_member_role event members)
      ≡ some (record m { roles = some (get_or m.roles [] ++ role_info event ∷ []) })
unfolding add_member_role
found_added event m members h new =
    let gain =
      λ (x : MemberDto). record x { roles = some (get_or m.roles [] ++ role_info event ∷ []) } in
    ground (
      arith,
      find_id-update_id member_key event.user_id gain (λ x e. (eq_iff x.user_id event.user_id).0 e)
          event.user_id members,
      eq_refl event.user_id,
    )

handled :
    (x : Session) (event : MemberRoleEvent) (r : RoleState)
    → truthy (some event.user_id) ≡ true
    → x.current_user_id ≡ some event.user_id
    → get (handle_member_role_add x event r).my_permissions event.server_id
      ≡ some (compute_permissions (roles_of event.server_id r) (my_role_ids x event.user_id))
unfolding handle_member_role_add compute_my_permissions
handled x event r nonempty me =
    let perms = compute_permissions (roles_of event.server_id r) (my_role_ids x event.user_id) in
    ground (arith, eq_refl event.user_id, get-put_self r.my_permissions event.server_id perms)

-- After the event that gives the user a new role, the stored permissions are still those of the roles
-- held before, while the members list the user with the new role.
pub role_add_leaves_stale :
    (event : MemberRoleEvent) (m : MemberDto) (s : Stores)
    → truthy (some event.user_id) ≡ true
    → current_user_id s ≡ some event.user_id
    → find_id member_key event.user_id s.servers.members ≡ some m
    → has_id role_info_key event.role_id (get_or m.roles []) ≡ false
    → (get (on_member_role_add event s).roles.my_permissions event.server_id
        ≡ some
            (compute_permissions (roles_of event.server_id s.roles) (role_ids (get_or m.roles []))))
      × (my_role_ids (session (on_member_role_add event s)) event.user_id
          ≡ role_ids (get_or m.roles []) ++ event.role_id ∷ [])
unfolding on_member_role_add
role_add_leaves_stale event m s nonempty me listed new =
    let after = session (on_member_role_add event s) in
    let gained = record m { roles = some (get_or m.roles [] ++ role_info event ∷ []) } in
    (
      handled (session s) event s.roles nonempty me
          ∙ ap (λ ids. some (compute_permissions (roles_of event.server_id s.roles) ids))
              (found_role_ids (session s) event.user_id m listed),
      found_role_ids after event.user_id gained (found_added event m s.servers.members listed new)
          ∙ map-append _ (get_or m.roles []) (role_info event ∷ []),
    )
