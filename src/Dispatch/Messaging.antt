-- ===== src/Dispatch/Messaging.antt =====
-- useWebSocket.ts: a new message goes to the open channel or is counted, never both.
use together.Base.{
  ◌+◌, String, ◌≡◌, not, ◌&&◌, Option, some, arith, if◌then◌else◌, ◌==◌, eq_iff, is_id,
}
use together.Base.Dict.{get-put}
use together.Types.Chat.{Message}
use together.Messages.{add_message}
use together.ReadState.{increment_unread, increment_mention}
use together.ReadState.Counting.{unread, mentions}
use together.Dispatch.{Stores, current_user_id, is_mentioned, on_message_create}

-- A message of the open channel is added to the list and counted nowhere. One of another channel leaves
-- the list alone, adds one to that channel's unread count and, if it mentions the user, one to its
-- mentions; no other count changes.
pub message_routes :
    (active : Option String) (msg : Message) (s : Stores) (c : String)
    → ((on_message_create active msg s).messages
        ≡ (if is_id active msg.channel_id then add_message msg s.messages else s.messages))
      × (unread c (on_message_create active msg s).read ≡ (
          if not (is_id active msg.channel_id) && msg.channel_id == c
          then unread c s.read + 1
          else unread c s.read))
      × (mentions c (on_message_create active msg s).read ≡ (
          if not (is_id active msg.channel_id)
            && is_mentioned (current_user_id s) msg
            && msg.channel_id == c
          then mentions c s.read + 1
          else mentions c s.read))
unfolding on_message_create increment_unread increment_mention
message_routes active msg s c =
    let n = unread msg.channel_id s.read + 1 in
    let k = mentions msg.channel_id s.read + 1 in
    (
      ground arith,
      ground (arith, get-put s.read.unread_counts msg.channel_id n c, eq_iff msg.channel_id c),
      ground (arith, get-put s.read.mention_counts msg.channel_id k c, eq_iff msg.channel_id c),
    )

-- A user is never told of a mention by a message of the user's own.
own_message_no_mention :
    (active : Option String) (msg : Message) (s : Stores) (me c : String)
    → current_user_id s ≡ some me
    → msg.author_id ≡ some me
    → mentions c (on_message_create active msg s).read ≡ mentions c s.read
unfolding on_message_create is_mentioned increment_unread
own_message_no_mention active msg s me c signed own = ground (arith, eq_iff me me)
