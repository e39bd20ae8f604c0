-- ===== src/Endpoints/Delivery/ChatTable.antt =====
-- client.ts: the methods for channels and communities, each with its handler and what it gets of the path.
use together.Base.{List, [], ◌∷◌}
use together.Endpoints.Chat.{
  create_message, list_messages, get_message, update_message, delete_message, upload_attachments,
  list_attachments, ack_channel, open_dm_channel, list_dm_channels, send_dm_message,
  list_dm_messages, ack_dm_channel, list_thread_replies, create_thread_reply, list_custom_emojis,
  upload_custom_emoji, delete_custom_emoji, add_reaction, remove_reaction, list_reactions,
  pin_message, unpin_message, list_pinned_messages, get_link_preview, search_gifs, create_poll,
  get_poll, cast_vote, create_event,
}
use together.Endpoints.Community.{
  join_voice_channel, leave_voice_channel, update_voice_state, list_voice_participants,
  start_go_live, stop_go_live, get_go_live, search_messages, get_ice_servers, get_automod_config,
  update_automod_config, list_word_filters, add_word_filter, remove_word_filter, list_automod_logs,
  list_bans, remove_ban, list_bots, get_bot, create_bot, revoke_bot, regenerate_bot_token,
  update_bot, get_bot_logs, kick_member, ban_member, timeout_member, remove_timeout,
}
use together.Endpoints.Delivery.Table.{Arguments, Sent, sent}

module _ {ℓ} {D : Type ℓ} where
  abbrev pub chat_calls : Arguments D → List (Sent D)
  chat_calls a =
      sent "messages::create_message" (create_message a.channel_id a.payload) (a.channel_id ∷ [])
      ∷ sent "messages::list_messages" (list_messages a.channel_id a.before a.limit)
          (a.channel_id ∷ [])
      ∷ sent "messages::get_message" (get_message a.channel_id a.message_id)
          (a.channel_id ∷ a.message_id ∷ [])
      ∷ sent "messages::update_message" (update_message a.message_id a.payload) (a.message_id ∷ [])
      ∷ sent "messages::delete_message" (delete_message a.message_id) (a.message_id ∷ [])
      ∷ sent "attachments::upload_attachments" (upload_attachments a.message_id a.files)
          (a.message_id ∷ [])
      ∷ sent "attachments::list_attachments" (list_attachments a.message_id) (a.message_id ∷ [])
      ∷ sent "read_states::ack_channel" (ack_channel a.channel_id) (a.channel_id ∷ [])
      ∷ sent "dm::open_dm_channel" (open_dm_channel a.user_id) []
      ∷ sent "dm::list_dm_channels" list_dm_channels []
      ∷ sent "dm::send_dm_message" (send_dm_message a.channel_id a.content) (a.channel_id ∷ [])
      ∷ sent "dm::list_dm_messages" (list_dm_messages a.channel_id a.before a.limit)
          (a.channel_id ∷ [])
      ∷ sent "read_states::ack_dm_channel" (ack_dm_channel a.channel_id) (a.channel_id ∷ [])
      ∷ sent "messages::list_thread_replies"
          (list_thread_replies a.channel_id a.message_id a.before a.limit)
          (a.channel_id ∷ a.message_id ∷ [])
      ∷ sent "messages::create_thread_reply"
          (create_thread_reply a.channel_id a.message_id a.payload)
          (a.channel_id ∷ a.message_id ∷ [])
      ∷ sent "custom_emojis::list_custom_emojis" (list_custom_emojis a.server_id) (a.server_id ∷ [])
      ∷ sent "custom_emojis::upload_custom_emoji" (upload_custom_emoji a.server_id a.name a.file)
          (a.server_id ∷ [])
      ∷ sent "custom_emojis::delete_custom_emoji" (delete_custom_emoji a.server_id a.emoji_id)
          (a.server_id ∷ a.emoji_id ∷ [])
      ∷ sent "reactions::add_reaction" (add_reaction a.channel_id a.message_id a.emoji)
          (a.channel_id ∷ a.message_id ∷ a.emoji ∷ [])
      ∷ sent "reactions::remove_reaction" (remove_reaction a.channel_id a.message_id a.emoji)
          (a.channel_id ∷ a.message_id ∷ a.emoji ∷ [])
      ∷ sent "reactions::list_reactions" (list_reactions a.channel_id a.message_id)
          (a.channel_id ∷ a.message_id ∷ [])
      ∷ sent "pins::pin_message" (pin_message a.channel_id a.message_id)
          (a.channel_id ∷ a.message_id ∷ [])
      ∷ sent "pins::unpin_message" (unpin_message a.channel_id a.message_id)
          (a.channel_id ∷ a.message_id ∷ [])
      ∷ sent "pins::list_pinned_messages" (list_pinned_messages a.channel_id) (a.channel_id ∷ [])
      ∷ sent "link_preview::get_link_preview" (get_link_preview a.url) []
      ∷ sent "giphy::search_giphy" (search_gifs a.q a.limit) []
      ∷ sent "polls::create_poll" (create_poll a.channel_id a.payload) (a.channel_id ∷ [])
      ∷ sent "polls::get_poll" (get_poll a.poll_id) (a.poll_id ∷ [])
      ∷ sent "polls::cast_vote" (cast_vote a.poll_id a.option_id) (a.poll_id ∷ [])
      ∷ sent "events::create_event" (create_event a.channel_id a.payload) (a.channel_id ∷ [])
      ∷ []

  abbrev pub community_calls : Arguments D → List (Sent D)
  community_calls a =
      sent "voice::join_voice_channel" (join_voice_channel a.channel_id) (a.channel_id ∷ [])
      ∷ sent "voice::leave_voice_channel" (leave_voice_channel a.channel_id) (a.channel_id ∷ [])
      ∷ sent "voice::update_voice_state" (update_voice_state a.channel_id a.payload)
          (a.channel_id ∷ [])
      ∷ sent "voice::list_voice_participants" (list_voice_participants a.channel_id)
          (a.channel_id ∷ [])
      ∷ sent "go_live::start_go_live" (start_go_live a.channel_id a.payload) (a.channel_id ∷ [])
      ∷ sent "go_live::stop_go_live" (stop_go_live a.channel_id) (a.channel_id ∷ [])
      ∷ sent "go_live::get_go_live" (get_go_live a.channel_id) (a.channel_id ∷ [])
      ∷ sent "search::search_messages"
          (search_messages a.server_id a.q a.only_channel_id a.before a.limit) (a.server_id ∷ [])
      ∷ sent "ice::get_ice_servers" get_ice_servers []
      ∷ sent "automod::get_automod_config" (get_automod_config a.server_id) (a.server_id ∷ [])
      ∷ sent "automod::update_automod_config" (update_automod_config a.server_id a.payload)
          (a.server_id ∷ [])
      ∷ sent "automod::list_word_filters" (list_word_filters a.server_id) (a.server_id ∷ [])
      ∷ sent "automod::add_word_filter" (add_word_filter a.server_id a.word) (a.server_id ∷ [])
      ∷ sent "automod::remove_word_filter" (remove_word_filter a.server_id a.word)
          (a.server_id ∷ a.word ∷ [])
      ∷ sent "automod::list_automod_logs" (list_automod_logs a.server_id) (a.server_id ∷ [])
      ∷ sent "automod::list_bans" (list_bans a.server_id) (a.server_id ∷ [])
      ∷ sent "automod::remove_ban" (remove_ban a.server_id a.user_id) (a.server_id ∷ a.user_id ∷ [])
      ∷ sent "bots::list_bots" list_bots []
      ∷ sent "bots::get_bot" (get_bot a.bot_id) (a.bot_id ∷ [])
      ∷ sent "bots::create_bot" (create_bot a.payload) []
      ∷ sent "bots::revoke_bot" (revoke_bot a.bot_id) (a.bot_id ∷ [])
      ∷ sent "bots::regenerate_bot_token" (regenerate_bot_token a.bot_id) (a.bot_id ∷ [])
      ∷ sent "bots::update_bot" (update_bot a.bot_id a.payload) (a.bot_id ∷ [])
      ∷ sent "bots::bot_logs" (get_bot_logs a.bot_id) (a.bot_id ∷ [])
      ∷ sent "moderation::kick_member" (kick_member a.server_id a.user_id a.optional_payload)
          (a.server_id ∷ a.user_id ∷ [])
      ∷ sent "moderation::ban_member" (ban_member a.server_id a.user_id a.optional_payload)
          (a.server_id ∷ a.user_id ∷ [])
      ∷ sent "moderation::timeout_member" (timeout_member a.server_id a.user_id a.payload)
          (a.server_id ∷ a.user_id ∷ [])
      ∷ sent "moderation::remove_timeout" (remove_timeout a.server_id a.user_id)
          (a.server_id ∷ a.user_id ∷ [])
      ∷ []
