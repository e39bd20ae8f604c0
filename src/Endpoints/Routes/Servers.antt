-- ===== src/Endpoints/Routes/Servers.antt =====
-- server/src/main.rs: routes under /servers.
use together.Base.{List, [], ◌∷◌}
use together.Endpoints.{get, post, patch, put, delete}
use together.Endpoints.Routes.{Route, to, word, param}

abbrev pub server_routes : List Route
server_routes =
    to post "servers::create_server" (word "servers" ∷ [])
    ∷ to get "servers::list_servers" (word "servers" ∷ [])
    ∷ to get "servers::browse_servers" (word "servers" ∷ word "browse" ∷ [])
    ∷ to get "servers::get_server" (word "servers" ∷ param "id" ∷ [])
    ∷ to patch "servers::update_server" (word "servers" ∷ param "id" ∷ [])
    ∷ to delete "servers::delete_server" (word "servers" ∷ param "id" ∷ [])
    ∷ to post "servers::join_server" (word "servers" ∷ param "id" ∷ word "join" ∷ [])
    ∷ to delete "servers::leave_server" (word "servers" ∷ param "id" ∷ word "leave" ∷ [])
    ∷ to get "servers::list_members" (word "servers" ∷ param "id" ∷ word "members" ∷ [])
    ∷ to post "moderation::kick_member"
        (word "servers" ∷ param "id" ∷ word "members" ∷ param "user_id" ∷ word "kick" ∷ [])
    ∷ to post "moderation::ban_member"
        (word "servers" ∷ param "id" ∷ word "members" ∷ param "user_id" ∷ word "ban" ∷ [])
    ∷ to post "moderation::timeout_member"
        (word "servers" ∷ param "id" ∷ word "members" ∷ param "user_id" ∷ word "timeout" ∷ [])
    ∷ to delete "moderation::remove_timeout"
        (word "servers" ∷ param "id" ∷ word "members" ∷ param "user_id" ∷ word "timeout" ∷ [])
    ∷ to get "roles::list_roles" (word "servers" ∷ param "id" ∷ word "roles" ∷ [])
    ∷ to post "roles::create_role" (word "servers" ∷ param "id" ∷ word "roles" ∷ [])
    ∷ to patch "roles::update_role"
        (word "servers" ∷ param "id" ∷ word "roles" ∷ param "role_id" ∷ [])
    ∷ to delete "roles::delete_role"
        (word "servers" ∷ param "id" ∷ word "roles" ∷ param "role_id" ∷ [])
    ∷ to put "roles::assign_role" (
        word "servers"
        ∷ param "id"
        ∷ word "members"
        ∷ param "user_id"
        ∷ word "roles"
        ∷ param "role_id"
        ∷ [])
    ∷ to delete "roles::remove_role" (
        word "servers"
        ∷ param "id"
        ∷ word "members"
        ∷ param "user_id"
        ∷ word "roles"
        ∷ param "role_id"
        ∷ [])
    ∷ to get "export::export_server" (word "servers" ∷ param "id" ∷ word "export" ∷ [])
    ∷ to get "audit::list_audit_logs" (word "servers" ∷ param "id" ∷ word "audit-logs" ∷ [])
    ∷ to get "automod::get_automod_config" (word "servers" ∷ param "id" ∷ word "automod" ∷ [])
    ∷ to patch "automod::update_automod_config" (word "servers" ∷ param "id" ∷ word "automod" ∷ [])
    ∷ to get "automod::list_word_filters"
        (word "servers" ∷ param "id" ∷ word "automod" ∷ word "words" ∷ [])
    ∷ to post "automod::add_word_filter"
        (word "servers" ∷ param "id" ∷ word "automod" ∷ word "words" ∷ [])
    ∷ to delete "automod::remove_word_filter"
        (word "servers" ∷ param "id" ∷ word "automod" ∷ word "words" ∷ param "word" ∷ [])
    ∷ to get "automod::list_automod_logs"
        (word "servers" ∷ param "id" ∷ word "automod" ∷ word "logs" ∷ [])
    ∷ to get "automod::list_bans" (word "servers" ∷ param "id" ∷ word "bans" ∷ [])
    ∷ to delete "automod::remove_ban"
        (word "servers" ∷ param "id" ∷ word "bans" ∷ param "user_id" ∷ [])
    ∷ to get "search::search_messages" (word "servers" ∷ param "id" ∷ word "search" ∷ [])
    ∷ to post "channels::create_channel" (word "servers" ∷ param "id" ∷ word "channels" ∷ [])
    ∷ to get "channels::list_channels" (word "servers" ∷ param "id" ∷ word "channels" ∷ [])
    ∷ to get "channels::get_channel"
        (word "servers" ∷ param "id" ∷ word "channels" ∷ param "channel_id" ∷ [])
    ∷ to patch "channels::update_channel"
        (word "servers" ∷ param "id" ∷ word "channels" ∷ param "channel_id" ∷ [])
    ∷ to delete "channels::delete_channel"
        (word "servers" ∷ param "id" ∷ word "channels" ∷ param "channel_id" ∷ [])
    ∷ to get "events::list_events" (word "servers" ∷ param "id" ∷ word "events" ∷ [])
    ∷ to get "custom_emojis::list_custom_emojis" (word "servers" ∷ param "id" ∷ word "emojis" ∷ [])
    ∷ to post "custom_emojis::upload_custom_emoji"
        (word "servers" ∷ param "id" ∷ word "emojis" ∷ [])
    ∷ to delete "custom_emojis::delete_custom_emoji"
        (word "servers" ∷ param "id" ∷ word "emojis" ∷ param "emoji_id" ∷ [])
    ∷ to get "invites::list_invites" (word "servers" ∷ param "id" ∷ word "invites" ∷ [])
    ∷ to post "invites::create_invite" (word "servers" ∷ param "id" ∷ word "invites" ∷ [])
    ∷ to delete "invites::delete_invite"
        (word "servers" ∷ param "id" ∷ word "invites" ∷ param "invite_id" ∷ [])
    ∷ to get "webhooks::list_webhooks" (word "servers" ∷ param "id" ∷ word "webhooks" ∷ [])
    ∷ to post "webhooks::create_webhook" (word "servers" ∷ param "id" ∷ word "webhooks" ∷ [])
    ∷ to get "webhooks::get_webhook"
        (word "servers" ∷ param "id" ∷ word "webhooks" ∷ param "webhook_id" ∷ [])
    ∷ to patch "webhooks::update_webhook"
        (word "servers" ∷ param "id" ∷ word "webhooks" ∷ param "webhook_id" ∷ [])
    ∷ to delete "webhooks::delete_webhook"
        (word "servers" ∷ param "id" ∷ word "webhooks" ∷ param "webhook_id" ∷ [])
    ∷ to post "webhooks::test_webhook"
        (word "servers" ∷ param "id" ∷ word "webhooks" ∷ param "webhook_id" ∷ word "test" ∷ [])
    ∷ []
