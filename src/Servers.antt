-- ===== src/Servers.antt =====
-- clients/web/src/stores/serverStore.ts: the servers that the user is in, the members and bans of the open one, and the
-- public list.
pub mod Membership
use together.Base.{
  String, Bool, true, false, Option, none, some, List, [], ◌∷◌, ◌++◌, if◌then◌else◌, update_id,
  remove_id, is_id, truthy, Reply, ok, failed, Failure, describe, Outcome, returned, thrown,
}
use together.Types.Community.{ServerDto, MemberDto, ServerBan, UserStatus}

pub record ServerState : Type 0 where
  pub servers : List ServerDto
  pub active_server_id : Option String
  pub members : List MemberDto
  pub is_loading : Bool
  pub error : Option String
  pub discoverable_servers : List ServerDto
  pub is_browse_loading : Bool
  pub browse_error : Option String
  pub bans : List ServerBan
  pub is_bans_loading : Bool

abbrev pub server_key : ServerDto → String
server_key s = s.id

abbrev pub member_key : MemberDto → String
member_key m = m.user_id

abbrev pub ban_key : ServerBan → String
ban_key b = b.user_id

-- An action that fails with a thrown error and a text in `error`.
abbrev pub fail {ℓ} : {A : Type ℓ} → String → Failure → ServerState → ServerState × Outcome A
fail fallback err s = (record s { error = some (describe err fallback) }, thrown err)

unfoldable pub set_servers : List ServerDto → ServerState → ServerState
set_servers servers s = record s { servers = servers }

-- Beside the new state, the server whose members and emojis are then asked for.
unfoldable pub set_active_server : Option String → ServerState → ServerState × Option String
set_active_server id s =
    (record s { active_server_id = id; members = [] }, if truthy id then id else none)

unfoldable pub fetch_servers :
    (meanwhile : ServerState → ServerState) → Reply (List ServerDto) → ServerState → ServerState
fetch_servers meanwhile (ok servers) s =
    let s' = meanwhile (record s { is_loading = true }) in
    record s' { servers = servers; is_loading = false }
fetch_servers meanwhile (failed err) s =
    let s' = meanwhile (record s { is_loading = true }) in
    record s' { error = some (describe err "Failed to fetch servers"); is_loading = false }

pub create_server : Reply ServerDto → ServerState → ServerState × Outcome ServerDto
create_server (ok server) s = (record s { servers = s.servers ++ server ∷ [] }, returned server)
create_server (failed err) s = fail "Failed to create server" err s

pub update_server : String → Reply ServerDto → ServerState → ServerState × Outcome (Unit {0})
update_server id (ok updated) s =
    (record s { servers = update_id server_key id (λ _. updated) s.servers }, returned tt)
update_server id (failed err) s = fail "Failed to update server" err s

-- The list without the server, which is then not the active one.
abbrev pub without_server : String → ServerState → ServerState
without_server id s = record s {
  servers = remove_id server_key id s.servers;
  active_server_id = if is_id s.active_server_id id then none else s.active_server_id;
}

unfoldable pub delete_server :
    String → Reply (Unit {0}) → ServerState → ServerState × Outcome (Unit {0})
delete_server id (ok _) s = (without_server id s, returned tt)
delete_server id (failed err) s = fail "Failed to delete server" err s

unfoldable pub leave_server :
    String → Reply (Unit {0}) → ServerState → ServerState × Outcome (Unit {0})
leave_server id (ok _) s = (without_server id s, returned tt)
leave_server id (failed err) s = fail "Failed to leave server" err s

-- `fetchServers` follows, and its failure is no failure of joining.
pub join_server :
    Reply (Unit {0})
    → (meanwhile : ServerState → ServerState) → Reply (List ServerDto)
    → ServerState
    → ServerState × Outcome (Unit {0})
unfolding fetch_servers
join_server (ok _) meanwhile listed s = (fetch_servers meanwhile listed s, returned tt)
join_server (failed err) meanwhile listed s = fail "Failed to join server" err s

pub join_server_by_invite :
    Reply (Unit {0})
    → (meanwhile : ServerState → ServerState) → Reply (List ServerDto)
    → ServerState
    → ServerState × Outcome (Unit {0})
unfolding fetch_servers
join_server_by_invite (ok _) meanwhile listed s = (fetch_servers meanwhile listed s, returned tt)
join_server_by_invite (failed err) meanwhile listed s =
    fail "Failed to join server via invite" err s

-- A failure is silent.
unfoldable pub fetch_members : Reply (List MemberDto) → ServerState → ServerState
fetch_members (ok members) s = record s { members = members }
fetch_members (failed err) s = s

abbrev pub with_presence : UserStatus → Option String → Option String → MemberDto → MemberDto
with_presence status custom_status activity m = record m {
  status = status;
  custom_status = custom_status;
  activity = activity;
}

unfoldable pub update_member_presence :
    String → UserStatus → Option String → Option String → ServerState → ServerState
update_member_presence user_id status custom_status activity s = record s {
  members = update_id member_key user_id (with_presence status custom_status activity) s.members;
}

pub fetch_discoverable_servers :
    (meanwhile : ServerState → ServerState) → Reply (List ServerDto) → ServerState → ServerState
fetch_discoverable_servers meanwhile (ok found) s =
    let s' = meanwhile (record s { is_browse_loading = true; browse_error = none }) in
    record s' { discoverable_servers = found; is_browse_loading = false }
fetch_discoverable_servers meanwhile (failed err) s =
    let s' = meanwhile (record s { is_browse_loading = true; browse_error = none }) in
    record s' {
      browse_error = some (describe err "Failed to load public server list");
      is_browse_loading = false;
    }

unfoldable pub remove_member_locally : String → ServerState → ServerState
remove_member_locally user_id s = record s { members = remove_id member_key user_id s.members }

unfoldable pub kick_member :
    String → Reply (Unit {0}) → ServerState → ServerState × Outcome (Unit {0})
kick_member user_id (ok _) s =
    (record s { members = remove_id member_key user_id s.members }, returned tt)
kick_member user_id (failed err) s = fail "Failed to kick member" err s

unfoldable pub ban_member :
    String → Reply (Unit {0}) → ServerState → ServerState × Outcome (Unit {0})
ban_member user_id (ok _) s =
    (record s { members = remove_id member_key user_id s.members }, returned tt)
ban_member user_id (failed err) s = fail "Failed to ban member" err s

pub timeout_member : Reply (Unit {0}) → ServerState → ServerState × Outcome (Unit {0})
timeout_member (ok _) s = (s, returned tt)
timeout_member (failed err) s = fail "Failed to timeout member" err s

abbrev pub with_timeout : Option String → MemberDto → MemberDto
with_timeout expires_at m = record m { timeout_expires_at = expires_at }

unfoldable pub set_member_timeout : String → Option String → ServerState → ServerState
set_member_timeout user_id expires_at s = record s {
  members = update_id member_key user_id (with_timeout expires_at) s.members;
}

unfoldable pub remove_timeout :
    String → Reply (Unit {0}) → ServerState → ServerState × Outcome (Unit {0})
remove_timeout user_id (ok _) s =
    (record s { members = update_id member_key user_id (with_timeout none) s.members }, returned tt)
remove_timeout user_id (failed err) s = fail "Failed to remove timeout" err s

pub clear_error : ServerState → ServerState
clear_error s = record s { error = none }

pub fetch_bans :
    (meanwhile : ServerState → ServerState)
    → Reply (List ServerBan)
    → ServerState
    → ServerState × Outcome (Unit {0})
fetch_bans meanwhile (ok bans) s =
    let s' = meanwhile (record s { is_bans_loading = true }) in
    (record s' { bans = bans; is_bans_loading = false }, returned tt)
fetch_bans meanwhile (failed err) s =
    let s' = meanwhile (record s { is_bans_loading = true }) in
    (
      record s' { error = some (describe err "Failed to fetch bans"); is_bans_loading = false },
      thrown err,
    )

pub unban_member : String → Reply (Unit {0}) → ServerState → ServerState × Outcome (Unit {0})
unban_member user_id (ok _) s = (record s { bans = remove_id ban_key user_id s.bans }, returned tt)
unban_member user_id (failed err) s = fail "Failed to unban user" err s
