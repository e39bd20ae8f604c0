-- ===== src/Endpoints/Routes/Others.antt =====
-- server/src/main.rs: the other routes.
use together.Base.{List, [], ◌∷◌}
use together.Endpoints.{get, post, patch, delete}
use together.Endpoints.Routes.{Route, to, word, param}

abbrev pub other_routes : List Route
other_routes =
    to post "auth::register" (word "auth" ∷ word "register" ∷ [])
    ∷ to post "auth::login" (word "auth" ∷ word "login" ∷ [])
    ∷ to post "auth::refresh_token" (word "auth" ∷ word "refresh" ∷ [])
    ∷ to post "auth::forgot_password" (word "auth" ∷ word "forgot-password" ∷ [])
    ∷ to post "auth::reset_password" (word "auth" ∷ word "reset-password" ∷ [])
    ∷ to get "health_check" (word "health" ∷ [])
    ∷ to get "readiness_check" (word "health" ∷ word "ready" ∷ [])
    ∷ to get "liveness_check" (word "health" ∷ word "live" ∷ [])
    ∷ to get "link_preview::get_link_preview" (word "link-preview" ∷ [])
    ∷ to get "giphy::search_giphy" (word "giphy" ∷ word "search" ∷ [])
    ∷ to get "auth::get_registration_mode" (word "instance" ∷ word "registration-mode" ∷ [])
    ∷ to get "admin::get_stats" (word "admin" ∷ word "stats" ∷ [])
    ∷ to get "admin::get_settings" (word "admin" ∷ word "settings" ∷ [])
    ∷ to patch "admin::update_settings" (word "admin" ∷ word "settings" ∷ [])
    ∷ to get "admin::list_users" (word "admin" ∷ word "users" ∷ [])
    ∷ to patch "admin::update_user" (word "admin" ∷ word "users" ∷ param "user_id" ∷ [])
    ∷ to delete "admin::delete_user" (word "admin" ∷ word "users" ∷ param "user_id" ∷ [])
    ∷ to get "admin::list_servers" (word "admin" ∷ word "servers" ∷ [])
    ∷ to delete "admin::delete_server" (word "admin" ∷ word "servers" ∷ param "server_id" ∷ [])
    ∷ to get "templates::list_templates" (word "server-templates" ∷ [])
    ∷ to get "users::get_current_user" (word "users" ∷ word "@me" ∷ [])
    ∷ to patch "users::update_current_user" (word "users" ∷ word "@me" ∷ [])
    ∷ to get "users::get_user_profile" (word "users" ∷ param "user_id" ∷ [])
    ∷ to post "bots::create_bot" (word "bots" ∷ [])
    ∷ to get "bots::list_bots" (word "bots" ∷ [])
    ∷ to post "bots::bot_connect" (word "bots" ∷ word "connect" ∷ [])
    ∷ to get "bots::get_bot" (word "bots" ∷ param "id" ∷ [])
    ∷ to patch "bots::update_bot" (word "bots" ∷ param "id" ∷ [])
    ∷ to delete "bots::revoke_bot" (word "bots" ∷ param "id" ∷ [])
    ∷ to get "bots::bot_logs" (word "bots" ∷ param "id" ∷ word "logs" ∷ [])
    ∷ to post "bots::regenerate_bot_token"
        (word "bots" ∷ param "id" ∷ word "token" ∷ word "regenerate" ∷ [])
    ∷ to get "polls::get_poll" (word "polls" ∷ param "poll_id" ∷ [])
    ∷ to post "polls::cast_vote" (word "polls" ∷ param "poll_id" ∷ word "vote" ∷ [])
    ∷ to get "custom_emojis::serve_custom_emoji_image" (word "emojis" ∷ param "emoji_id" ∷ [])
    ∷ to get "invites::preview_invite" (word "invites" ∷ param "code" ∷ [])
    ∷ to post "invites::accept_invite" (word "invites" ∷ param "code" ∷ word "accept" ∷ [])
    ∷ to get "ice::get_ice_servers" (word "ice-servers" ∷ [])
    ∷ to get "websocket::websocket_handler" (word "ws" ∷ [])
    ∷ []
