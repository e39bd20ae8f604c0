-- ===== src/Types/Community.antt =====
-- Users, servers, members, roles, overrides, channels and emojis of clients/web/src/types/index.ts.
use together.Base.{ℕ, String, Bool, Option, List}

pub data UserStatus : Type 0 where
  online away dnd offline : UserStatus

pub record UserDto : Type 0 where
  pub id : String
  pub username : String
  pub email : Option String
  pub avatar_url : Option String
  pub bio : Option String
  pub pronouns : Option String
  pub status : UserStatus
  pub custom_status : Option String
  pub activity : Option String
  pub created_at : String
  pub is_admin : Bool
  pub disabled : Option Bool
  pub disabled_at : Option String

pub record DirectMessageChannel : Type 0 where
  pub id : String
  pub recipient : UserDto
  pub created_at : String
  pub last_message_at : Option String

pub record ServerDto : Type 0 where
  pub id : String
  pub name : String
  pub owner_id : String
  pub icon_url : Option String
  pub is_public : Bool
  pub require_invite : Option Bool
  pub member_count : ℕ
  pub created_at : String
  pub updated_at : String

pub record MemberRoleInfo : Type 0 where
  pub id : String
  pub name : String
  pub color : Option String
  pub position : ℕ

pub record MemberDto : Type 0 where
  pub user_id : String
  pub username : String
  pub avatar_url : Option String
  pub status : UserStatus
  pub custom_status : Option String
  pub activity : Option String
  pub nickname : Option String
  pub joined_at : String
  pub timeout_expires_at : Option String
  pub roles : Option (List MemberRoleInfo)

pub record RoleDto : Type 0 where
  pub id : String
  pub server_id : String
  pub name : String
  pub permissions : ℕ
  pub color : Option String
  pub position : ℕ
  pub created_at : String

pub record RoleDeleteEvent : Type 0 where
  pub server_id : String
  pub role_id : String

pub record MemberRoleEvent : Type 0 where
  pub server_id : String
  pub user_id : String
  pub role_id : String
  pub role_name : String
  pub role_color : Option String

pub record ChannelPermissionOverride : Type 0 where
  pub id : String
  pub channel_id : String
  pub role_id : Option String
  pub user_id : Option String
  pub allow : ℕ
  pub deny : ℕ

pub data ChannelType : Type 0 where
  text voice : ChannelType

pub record Channel : Type 0 where
  pub id : String
  pub server_id : String
  pub name : String
  pub type : ChannelType
  pub position : ℕ
  pub category : Option String
  pub topic : Option String
  pub created_at : String

pub record ServerBan : Type 0 where
  pub user_id : String
  pub server_id : String
  pub banned_by : Option String
  pub reason : Option String
  pub created_at : String
