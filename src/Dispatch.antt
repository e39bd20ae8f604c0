-- ===== src/Dispatch.antt =====
-- clients/web/src/hooks/useWebSocket.ts: the handlers of the gateway's events over all stores. `active_channel_id` and
-- `active_dm_channel_id` are the values of the render that registered the handlers. The alert that tells
-- a user of a kick or a ban is left out.
pub mod Community
pub mod Messaging
pub mod Moderation
pub mod Stale
use together.Base.{
  ℕ, String, Bool, true, false, not, ◌&&◌, ◌||◌, Option, none, some, List, [], ◌∷◌, ◌++◌, map,
  if◌then◌else◌, includes, has_id, find_id, update_id, remove_id, is_id, get_or, truthy, is_some,
}
use together.Base.Dict.{Dict}
use together.Types.Chat.{
  Message, MessageDeleteEvent, DirectMessage, PollDto, UnreadCount, MentionCount,
}
use together.Types.Community.{
  UserDto, UserStatus, ServerDto, MemberDto, MemberRoleInfo, RoleDto, RoleDeleteEvent,
  MemberRoleEvent, ChannelPermissionOverride, DirectMessageChannel,
}
use together.Messages
use together.Messages.Replies
use together.Messages.{MessageState}
use together.Dms
use together.Dms.{DmState}
use together.ReadState
use together.ReadState.{ReadState as ReadCounts}
use together.Typing
use together.Typing.{TypingState}
use together.Servers
use together.Servers.{ServerState, member_key, server_key}
use together.Emojis
use together.Emojis.{EmojiState, CustomEmoji}
use together.Roles
use together.Roles.Overrides
use together.Roles.{RoleState, Session}

pub record Stores : Type 0 where
  pub user : Option UserDto
  pub servers : ServerState
  pub messages : MessageState
  pub dms : DmState
  pub read : ReadCounts
  pub typing : TypingState
  pub emojis : EmojiState
  pub roles : RoleState

-- What the role store reads of the others.
abbrev pub session : Stores → Session
session s = record {
  current_user_id = elim s.user [ none ↦ none | some u ↦ some u.id ];
  servers = s.servers.servers;
  members = s.servers.members;
}

abbrev pub current_user_id : Stores → Option String
current_user_id s = elim s.user [ none ↦ none | some u ↦ some u.id ]

pub record ReadyEvent : Type 0 where
  pub user : UserDto
  pub servers : List ServerDto
  pub dm_channels : Option (List DirectMessageChannel)
  pub unread_counts : Option (List UnreadCount)
  pub mention_counts : Option (List MentionCount)
  pub server_roles : Option (Dict (List RoleDto))
  pub channel_overrides : Option (Dict (List ChannelPermissionOverride))

abbrev pub when_some {ℓ κ} : {A : Type ℓ} {B : Type κ} → Option A → (A → B → B) → B → B
when_some none f b = b
when_some (some a) f b = f a b

unfoldable pub on_ready : ReadyEvent → Stores → Stores
on_ready event s =
    let with_user = record s { user = some event.user } in
    let roles =
      when_some event.server_roles (λ rs. Roles.set_roles_from_ready (session with_user) rs none)
        s.roles in
    record with_user {
      servers = Servers.set_servers event.servers s.servers;
      dms = when_some event.dm_channels Dms.set_channels s.dms;
      read =
          when_some event.mention_counts ReadState.set_mention_counts
            (when_some event.unread_counts ReadState.set_unread_counts s.read);
      roles = when_some event.channel_overrides Overrides.set_channel_overrides_from_ready roles;
    }

-- `msg.author_id === currentUserId`, where a missing author is null and a missing user undefined
abbrev pub is_author : Option String → Message → Bool
is_author current msg = elim msg.author_id [ none ↦ false | some a ↦ is_id current a ]

-- A message mentions the user who is signed in, and is not the user's own.
unfoldable pub is_mentioned : Option String → Message → Bool
is_mentioned current msg =
    not (is_author current msg)
    && (msg.mention_everyone
        || is_some current && includes msg.mention_user_ids (get_or current ""))

unfoldable pub on_message_create : Option String → Message → Stores → Stores
on_message_create active_channel_id msg s =
    if is_id active_channel_id msg.channel_id
    then record s { messages = Messages.add_message msg s.messages }
    else (let unread = ReadState.increment_unread msg.channel_id s.read in
        record s {
          read =
              if is_mentioned (current_user_id s) msg
              then ReadState.increment_mention msg.channel_id unread
              else unread;
        })

unfoldable pub on_message_update : Option String → Message → Stores → Stores
on_message_update active_channel_id msg s =
    if is_id active_channel_id msg.channel_id
    then record s { messages = Messages.update_message msg s.messages }
    else s

unfoldable pub on_message_delete : Option String → MessageDeleteEvent → Stores → Stores
on_message_delete active_channel_id event s =
    if is_id active_channel_id event.channel_id
    then record s { messages = Messages.remove_message event s.messages }
    else s

pub on_presence_update : String → UserStatus → Option String → Option String → Stores → Stores
on_presence_update user_id status custom_status activity s = record s {
  servers = Servers.update_member_presence user_id status custom_status activity s.servers;
}

pub on_dm_channel_create : DirectMessageChannel → Stores → Stores
on_dm_channel_create channel s = record s { dms = Dms.add_channel channel s.dms }

-- The unread count grows with every event for a channel that is not open, also for one that `addMessage` knows.
unfoldable pub on_dm_message_create : (String → ℕ) → Option String → DirectMessage → Stores → Stores
on_dm_message_create get_time active_dm_channel_id msg s = record s {
  dms = Dms.add_message get_time msg s.dms;
  read =
      if is_id active_dm_channel_id msg.channel_id
      then s.read
      else ReadState.increment_unread msg.channel_id s.read;
}

pub on_thread_message_create : Message → Stores → Stores
on_thread_message_create msg s = record s { messages = Replies.add_thread_message msg s.messages }

pub on_poll_vote : String → PollDto → Stores → Stores
on_poll_vote poll_id poll s = record s {
  messages = Messages.update_message_poll poll_id poll s.messages;
}

-- `event.username || "Unknown"`
pub on_typing_start : ℕ → String → Option String → String → Stores → Stores
on_typing_start now user_id username channel_id s = record s {
  typing =
      Typing.add_typing_user now user_id (if truthy username then get_or username "" else "Unknown")
        channel_id s.typing;
}

pub on_custom_emoji_create : CustomEmoji → Stores → Stores
on_custom_emoji_create emoji s = record s { emojis = Emojis.add_emoji emoji s.emojis }

pub on_custom_emoji_delete : String → String → Stores → Stores
on_custom_emoji_delete server_id emoji_id s = record s {
  emojis = Emojis.remove_emoji server_id emoji_id s.emojis;
}
