-- ===== src/Admin.antt =====
-- clients/web/src/stores/adminStore.ts: the lists of the administration. `get_users` and `get_servers` are what the
-- server answers to a query, `meanwhile` all that happens to the store while that answer is awaited.
pub mod Listing
use together.Base.{
  ℕ, String, Bool, true, false, Option, none, some, List, [], get_or, if◌then◌else◌, ◌==◌, Reply,
  ok, failed, describe, Outcome, returned, thrown,
}
use together.Types.Admin.{
  AdminStatsResponse, AdminUserDto, AdminServerDto, AdminUsersResponse, AdminServersResponse,
  AdminQuery,
}

pub record AdminState : Type 0 where
  pub stats : Option AdminStatsResponse
  pub stats_loading : Bool
  pub stats_error : Option String
  pub users : List AdminUserDto
  pub users_total : ℕ
  pub users_page : ℕ
  pub users_per_page : ℕ
  pub users_search : String
  pub users_loading : Bool
  pub users_error : Option String
  pub servers : List AdminServerDto
  pub servers_total : ℕ
  pub servers_page : ℕ
  pub servers_per_page : ℕ
  pub servers_search : String
  pub servers_loading : Bool
  pub servers_error : Option String

abbrev pub initial : AdminState
initial = record {
  stats = none;
  stats_loading = false;
  stats_error = none;
  users = [];
  users_total = 0;
  users_page = 1;
  users_per_page = 20;
  users_search = "";
  users_loading = false;
  users_error = none;
  servers = [];
  servers_total = 0;
  servers_page = 1;
  servers_per_page = 20;
  servers_search = "";
  servers_loading = false;
  servers_error = none;
}

pub fetch_stats :
    (meanwhile : AdminState → AdminState) → Reply AdminStatsResponse → AdminState → AdminState
fetch_stats meanwhile (ok stats) s =
    let s' = meanwhile (record s { stats_loading = true; stats_error = none }) in
    record s' { stats = some stats; stats_loading = false }
fetch_stats meanwhile (failed err) s =
    let s' = meanwhile (record s { stats_loading = true; stats_error = none }) in
    record s' { stats_error = some (describe err "Failed to fetch stats"); stats_loading = false }

-- A search for nothing is left out of the query.
abbrev pub query : ℕ → ℕ → String → AdminQuery
query page per_page search = record {
  page = page;
  per_page = per_page;
  search = if search == "" then none else some search;
}

abbrev pub begin_users : Option ℕ → Option String → AdminState → AdminState
begin_users page search s = record s {
  users_loading = true;
  users_error = none;
  users_page = get_or page s.users_page;
  users_search = get_or search s.users_search;
}

pub settle_users : Reply AdminUsersResponse → AdminState → AdminState
settle_users (ok res) s = record s {
  users = res.users;
  users_total = res.total;
  users_loading = false;
}
settle_users (failed err) s = record s {
  users_error = some (describe err "Failed to fetch users");
  users_loading = false;
}

unfoldable pub fetch_users :
    Option ℕ
    → Option String
    → (meanwhile : AdminState → AdminState) → (AdminQuery → Reply AdminUsersResponse)
    → AdminState
    → AdminState
unfolding settle_users
fetch_users page search meanwhile get_users s =
    settle_users
      (get_users (query (get_or page s.users_page) s.users_per_page (get_or search s.users_search)))
      (meanwhile (begin_users page search s))

-- The list is fetched again, which does not throw.
unfoldable pub update_user :
    Reply (Unit {0})
    → (meanwhile : AdminState → AdminState) → (AdminQuery → Reply AdminUsersResponse)
    → AdminState
    → AdminState × Outcome (Unit {0})
update_user (ok _) meanwhile get_users s =
    (fetch_users none none meanwhile get_users s, returned tt)
update_user (failed err) meanwhile get_users s =
    (record s { users_error = some (describe err "Failed to update user") }, thrown err)

unfoldable pub delete_user :
    Reply (Unit {0})
    → (meanwhile : AdminState → AdminState) → (AdminQuery → Reply AdminUsersResponse)
    → AdminState
    → AdminState × Outcome (Unit {0})
delete_user (ok _) meanwhile get_users s =
    (fetch_users none none meanwhile get_users s, returned tt)
delete_user (failed err) meanwhile get_users s =
    (record s { users_error = some (describe err "Failed to delete user") }, thrown err)

abbrev pub begin_servers : Option ℕ → Option String → AdminState → AdminState
begin_servers page search s = record s {
  servers_loading = true;
  servers_error = none;
  servers_page = get_or page s.servers_page;
  servers_search = get_or search s.servers_search;
}

pub settle_servers : Reply AdminServersResponse → AdminState → AdminState
settle_servers (ok res) s = record s {
  servers = res.servers;
  servers_total = res.total;
  servers_loading = false;
}
settle_servers (failed err) s = record s {
  servers_error = some (describe err "Failed to fetch servers");
  servers_loading = false;
}

unfoldable pub fetch_servers :
    Option ℕ
    → Option String
    → (meanwhile : AdminState → AdminState) → (AdminQuery → Reply AdminServersResponse)
    → AdminState
    → AdminState
unfolding settle_servers
fetch_servers page search meanwhile get_servers s =
    settle_servers
      (get_servers
        (query (get_or page s.servers_page) s.servers_per_page (get_or search s.servers_search)))
      (meanwhile (begin_servers page search s))

unfoldable pub delete_server :
    Reply (Unit {0})
    → (meanwhile : AdminState → AdminState) → (AdminQuery → Reply AdminServersResponse)
    → AdminState
    → AdminState × Outcome (Unit {0})
delete_server (ok _) meanwhile get_servers s =
    (fetch_servers none none meanwhile get_servers s, returned tt)
delete_server (failed err) meanwhile get_servers s =
    (record s { servers_error = some (describe err "Failed to delete server") }, thrown err)

pub set_users_search : String → AdminState → AdminState
set_users_search search s = record s { users_search = search }

pub set_servers_search : String → AdminState → AdminState
set_servers_search search s = record s { servers_search = search }

pub clear_errors : AdminState → AdminState
clear_errors s = record s { stats_error = none; users_error = none; servers_error = none }
