-- ===== src/Examples/Data.antt =====
-- Two users, a server with two roles, a channel, and messages.
use together.Base.{ℕ, String, true, false, none, some, List, [], ◌∷◌}
use together.Types.Chat.{Message, DirectMessage}
use together.Types.Community.{
  UserDto, UserStatus, ServerDto, MemberDto, MemberRoleInfo, RoleDto, ChannelPermissionOverride,
  DirectMessageChannel, Channel, ChannelType, MemberRoleEvent,
}
use together.Messages
use together.Messages.{MessageState}
use together.Roles
use together.Roles.{RoleState, Session}
use together.Servers.{ServerState}
use together.Dms.{DmState}
use together.Dispatch.{Stores}

abbrev pub message : String → Message
message id = record {
  id = id;
  channel_id = "general";
  author_id = some "bob";
  content = "hi";
  reply_to = none;
  mention_user_ids = "ann" ∷ [];
  mention_everyone = false;
  thread_id = none;
  thread_reply_count = 0;
  edited_at = none;
  deleted = false;
  created_at = "2026";
  pinned = false;
  pinned_by = none;
  pinned_at = none;
  poll = none;
  event = none;
}

-- m1 is the root of a thread that is loaded and empty.
abbrev pub feed : MessageState
feed = record (Messages.initial) {
  messages = message "m1" ∷ message "m2" ∷ [];
  thread_cache = ("m1", []) ∷ [];
}

abbrev pub reply : Message
reply = record (message "r1") { thread_id = some "m1" }

abbrev pub ann : UserDto
ann = record {
  id = "ann";
  username = "Ann";
  email = none;
  avatar_url = none;
  bio = none;
  pronouns = none;
  status = UserStatus.online;
  custom_status = none;
  activity = none;
  created_at = "2026";
  is_admin = false;
  disabled = none;
  disabled_at = none;
}

abbrev pub guild : ServerDto
guild = record {
  id = "guild";
  name = "Guild";
  owner_id = "bob";
  icon_url = none;
  is_public = false;
  require_invite = none;
  member_count = 2;
  created_at = "2026";
  updated_at = "2026";
}

abbrev pub role : String → ℕ → RoleDto
role id perms = record {
  id = id;
  server_id = "guild";
  name = id;
  permissions = perms;
  color = none;
  position = 0;
  created_at = "2026";
}

abbrev pub role_info : String → MemberRoleInfo
role_info id = record { id = id; name = id; color = none; position = 0 }

abbrev pub member : String → List MemberRoleInfo → MemberDto
member id infos = record {
  user_id = id;
  username = id;
  avatar_url = none;
  status = UserStatus.online;
  custom_status = none;
  activity = none;
  nickname = none;
  joined_at = "2026";
  timeout_expires_at = none;
  roles = some infos;
}

-- Speaking is denied to the crew, and messages are allowed to Ann.
abbrev pub crew_override : ChannelPermissionOverride
crew_override = record {
  id = "o1";
  channel_id = "general";
  role_id = some "crew";
  user_id = none;
  allow = 0;
  deny = 64;
}

abbrev pub ann_override : ChannelPermissionOverride
ann_override = record {
  id = "o2";
  channel_id = "general";
  role_id = none;
  user_id = some "ann";
  allow = 4;
  deny = 2;
}

abbrev pub guild_roles : RoleState
guild_roles = record (Roles.initial) {
  roles = ("guild", role "crew" 128 ∷ role "mods" 256 ∷ []) ∷ [];
  channel_overrides = ("general", crew_override ∷ ann_override ∷ []) ∷ [];
}

abbrev pub servers : ServerState
servers = record {
  servers = guild ∷ [];
  active_server_id = some "guild";
  members = member "ann" (role_info "crew" ∷ []) ∷ member "bob" [] ∷ [];
  is_loading = false;
  error = none;
  discoverable_servers = [];
  is_browse_loading = false;
  browse_error = none;
  bans = [];
  is_bans_loading = false;
}

abbrev pub dm_channel : String → DirectMessageChannel
dm_channel id = record { id = id; recipient = ann; created_at = "2026"; last_message_at = none }

abbrev pub dms : DmState
dms = record {
  channels = dm_channel "d1" ∷ dm_channel "d2" ∷ [];
  active_dm_channel_id = none;
  messages_by_channel = [];
  has_more = true;
  is_loading = false;
  error = none;
}

abbrev pub direct : DirectMessage
direct = record {
  id = "x1";
  channel_id = "d2";
  author_id = some "bob";
  content = "hey";
  edited_at = none;
  deleted = false;
  created_at = "2026";
}

abbrev pub stores : Stores
stores = record {
  user = some ann;
  servers = servers;
  messages = feed;
  dms = dms;
  read = record { unread_counts = []; mention_counts = [] };
  typing = record { typing_users = [] };
  emojis = record { emojis = [] };
  roles = guild_roles;
}

abbrev pub role_given : MemberRoleEvent
role_given = record {
  server_id = "guild";
  user_id = "ann";
  role_id = "mods";
  role_name = "mods";
  role_color = none;
}

abbrev pub channel : String → ℕ → Channel
channel id n = record {
  id = id;
  server_id = "guild";
  name = id;
  type = ChannelType.text;
  position = n;
  category = none;
  topic = none;
  created_at = "2026";
}
