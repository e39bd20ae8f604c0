-- ===== src/Types/Admin.antt =====
-- clients/web/src/types/index.ts: what the administration lists.
use together.Base.{ℕ, String, Bool, Option, List}
use together.Types.Community.{UserStatus}

pub record AdminStatsResponse : Type 0 where
  pub total_users : ℕ
  pub total_servers : ℕ
  pub total_messages : ℕ
  pub total_channels : ℕ
  pub active_ws_connections : ℕ
  pub uptime_secs : Option ℕ
  pub db_latency_ms : ℕ
  pub storage_bytes : ℕ

pub record AdminUserDto : Type 0 where
  pub id : String
  pub username : String
  pub email : Option String
  pub avatar_url : Option String
  pub status : UserStatus
  pub is_admin : Bool
  pub disabled : Bool
  pub disabled_at : Option String
  pub created_at : String
  pub server_count : ℕ
  pub message_count : ℕ

pub record AdminServerDto : Type 0 where
  pub id : String
  pub name : String
  pub icon_url : Option String
  pub owner_id : String
  pub owner_username : String
  pub is_public : Bool
  pub member_count : ℕ
  pub channel_count : ℕ
  pub message_count : ℕ
  pub created_at : String

pub record AdminUsersResponse : Type 0 where
  pub users : List AdminUserDto
  pub total : ℕ
  pub page : ℕ
  pub per_page : ℕ

pub record AdminServersResponse : Type 0 where
  pub servers : List AdminServerDto
  pub total : ℕ
  pub page : ℕ
  pub per_page : ℕ

-- `AdminUsersQuery` and `AdminServersQuery`, without the order, which the store never asks for.
pub record AdminQuery : Type 0 where
  pub page : ℕ
  pub per_page : ℕ
  pub search : Option String
