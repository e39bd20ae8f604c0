-- ===== src/Endpoints/Routes/Channels.antt =====
-- server/src/main.rs: routes under /channels, /messages and /dm-channels.
use together.Base.{List, [], ◌∷◌}
use together.Endpoints.{get, post, patch, put, delete}
use together.Endpoints.Routes.{Route, to, word, param}

abbrev pub channel_routes : List Route
channel_routes =
    to get "channel_overrides::list_overrides"
      (word "channels" ∷ param "channel_id" ∷ word "overrides" ∷ [])
    ∷ to put "channel_overrides::set_override"
        (word "channels" ∷ param "channel_id" ∷ word "overrides" ∷ [])
    ∷ to delete "channel_overrides::delete_override"
        (word "channels" ∷ param "channel_id" ∷ word "overrides" ∷ param "override_id" ∷ [])
    ∷ to post "messages::create_message"
        (word "channels" ∷ param "channel_id" ∷ word "messages" ∷ [])
    ∷ to get "messages::list_messages" (word "channels" ∷ param "channel_id" ∷ word "messages" ∷ [])
    ∷ to patch "messages::update_message" (word "messages" ∷ param "message_id" ∷ [])
    ∷ to delete "messages::delete_message" (word "messages" ∷ param "message_id" ∷ [])
    ∷ to get "messages::get_message"
        (word "channels" ∷ param "channel_id" ∷ word "messages" ∷ param "message_id" ∷ [])
    ∷ to get "messages::list_thread_replies" (
        word "channels"
        ∷ param "channel_id"
        ∷ word "messages"
        ∷ param "message_id"
        ∷ word "thread"
        ∷ [])
    ∷ to post "messages::create_thread_reply" (
        word "channels"
        ∷ param "channel_id"
        ∷ word "messages"
        ∷ param "message_id"
        ∷ word "thread"
        ∷ [])
    ∷ to get "reactions::list_reactions" (
        word "channels"
        ∷ param "channel_id"
        ∷ word "messages"
        ∷ param "message_id"
        ∷ word "reactions"
        ∷ [])
    ∷ to put "reactions::add_reaction" (
        word "channels"
        ∷ param "channel_id"
        ∷ word "messages"
        ∷ param "message_id"
        ∷ word "reactions"
        ∷ param "emoji"
        ∷ [])
    ∷ to delete "reactions::remove_reaction" (
        word "channels"
        ∷ param "channel_id"
        ∷ word "messages"
        ∷ param "message_id"
        ∷ word "reactions"
        ∷ param "emoji"
        ∷ [])
    ∷ to get "pins::list_pinned_messages"
        (word "channels" ∷ param "channel_id" ∷ word "pinned-messages" ∷ [])
    ∷ to post "pins::pin_message" (
        word "channels"
        ∷ param "channel_id"
        ∷ word "messages"
        ∷ param "message_id"
        ∷ word "pin"
        ∷ [])
    ∷ to delete "pins::unpin_message" (
        word "channels"
        ∷ param "channel_id"
        ∷ word "messages"
        ∷ param "message_id"
        ∷ word "pin"
        ∷ [])
    ∷ to post "read_states::ack_channel" (word "channels" ∷ param "channel_id" ∷ word "ack" ∷ [])
    ∷ to post "dm::open_dm_channel" (word "dm-channels" ∷ [])
    ∷ to get "dm::list_dm_channels" (word "dm-channels" ∷ [])
    ∷ to post "dm::send_dm_message" (word "dm-channels" ∷ param "id" ∷ word "messages" ∷ [])
    ∷ to get "dm::list_dm_messages" (word "dm-channels" ∷ param "id" ∷ word "messages" ∷ [])
    ∷ to post "read_states::ack_dm_channel" (word "dm-channels" ∷ param "id" ∷ word "ack" ∷ [])
    ∷ to post "attachments::upload_attachments"
        (word "messages" ∷ param "message_id" ∷ word "attachments" ∷ [])
    ∷ to get "attachments::list_attachments"
        (word "messages" ∷ param "message_id" ∷ word "attachments" ∷ [])
    ∷ to post "polls::create_poll" (word "channels" ∷ param "channel_id" ∷ word "polls" ∷ [])
    ∷ to post "events::create_event" (word "channels" ∷ param "channel_id" ∷ word "events" ∷ [])
    ∷ to post "voice::join_voice_channel" (word "channels" ∷ param "channel_id" ∷ word "voice" ∷ [])
    ∷ to delete "voice::leave_voice_channel"
        (word "channels" ∷ param "channel_id" ∷ word "voice" ∷ [])
    ∷ to patch "voice::update_voice_state"
        (word "channels" ∷ param "channel_id" ∷ word "voice" ∷ [])
    ∷ to get "voice::list_voice_participants"
        (word "channels" ∷ param "channel_id" ∷ word "voice" ∷ [])
    ∷ to post "go_live::start_go_live" (word "channels" ∷ param "channel_id" ∷ word "go-live" ∷ [])
    ∷ to delete "go_live::stop_go_live" (word "channels" ∷ param "channel_id" ∷ word "go-live" ∷ [])
    ∷ to get "go_live::get_go_live" (word "channels" ∷ param "channel_id" ∷ word "go-live" ∷ [])
    ∷ []
