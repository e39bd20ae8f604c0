-- ===== src/Examples/OfAdmin.antt =====
-- The theorems on adminStore.ts at a concrete list of users.
use together.Base.{String, false, none, [], ◌∷◌, Reply, ok, failed, other_error, get_or}
use together.Types.Community.{UserStatus}
use together.Types.Admin.{AdminUserDto, AdminUsersResponse, AdminServersResponse, AdminQuery}

abbrev user : String → AdminUserDto
user name = record {
  id = name;
  username = name;
  email = none;
  avatar_url = none;
  status = UserStatus.online;
  is_admin = false;
  disabled = false;
  disabled_at = none;
  created_at = "2026";
  server_count = 1;
  message_count = 3;
}

abbrev found : String → AdminUsersResponse
found name = record { users = user name ∷ []; total = 1; page = 1; per_page = 20 }

-- Who is searched for is found.
abbrev get_users : AdminQuery → Reply AdminUsersResponse
get_users q = ok (found (get_or q.search "eve"))

abbrev get_servers : AdminQuery → Reply AdminServersResponse
get_servers q = failed other_error
