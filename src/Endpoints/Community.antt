-- ===== src/Endpoints/Community.antt =====
-- client.ts: voice, Go Live, search, moderation and bots.
use together.Base.{ℕ, String, Option, [], ◌∷◌, ◌++◌}
use together.Endpoints.{
  Request, fixed, value, ask, get, post, patch, delete, given, object, text, text_param,
  number_param, or_empty,
}

module _ {ℓ} {D : Type ℓ} where
  abbrev pub join_voice_channel : (channel_id : String) → Request D
  join_voice_channel channel_id =
      ask post (fixed "channels" ∷ value channel_id ∷ fixed "voice" ∷ [])

  abbrev pub leave_voice_channel : (channel_id : String) → Request D
  leave_voice_channel channel_id =
      ask delete (fixed "channels" ∷ value channel_id ∷ fixed "voice" ∷ [])

  abbrev pub update_voice_state : (channel_id : String) (payload : D) → Request D
  update_voice_state channel_id payload =
      record (ask patch (fixed "channels" ∷ value channel_id ∷ fixed "voice" ∷ [])) {
        body = given payload;
      }

  abbrev pub list_voice_participants : (channel_id : String) → Request D
  list_voice_participants channel_id =
      ask get (fixed "channels" ∷ value channel_id ∷ fixed "voice" ∷ [])

  abbrev pub start_go_live : (channel_id : String) (payload : D) → Request D
  start_go_live channel_id payload =
      record (ask post (fixed "channels" ∷ value channel_id ∷ fixed "go-live" ∷ [])) {
        body = given payload;
      }

  abbrev pub stop_go_live : (channel_id : String) → Request D
  stop_go_live channel_id = ask delete (fixed "channels" ∷ value channel_id ∷ fixed "go-live" ∷ [])

  abbrev pub get_go_live : (channel_id : String) → Request D
  get_go_live channel_id = ask get (fixed "channels" ∷ value channel_id ∷ fixed "go-live" ∷ [])

  abbrev pub search_messages :
      (server_id : String) (q : String) (channel_id : Option String) (before : Option String)
      (limit : Option ℕ)
      → Request D
  search_messages server_id q channel_id before limit =
      record (ask get (fixed "servers" ∷ value server_id ∷ fixed "search" ∷ [])) {
        query =
            (("q", text q) ∷ [])
            ++ text_param "channel_id" channel_id
            ++ text_param "before" before
            ++ number_param "limit" limit;
      }

  abbrev pub get_ice_servers : Request D
  get_ice_servers = ask get (fixed "ice-servers" ∷ [])

  abbrev pub get_automod_config : (server_id : String) → Request D
  get_automod_config server_id = ask get (fixed "servers" ∷ value server_id ∷ fixed "automod" ∷ [])

  abbrev pub update_automod_config : (server_id : String) (updates : D) → Request D
  update_automod_config server_id updates =
      record (ask patch (fixed "servers" ∷ value server_id ∷ fixed "automod" ∷ [])) {
        body = given updates;
      }

  abbrev pub list_word_filters : (server_id : String) → Request D
  list_word_filters server_id =
      ask get (fixed "servers" ∷ value server_id ∷ fixed "automod" ∷ fixed "words" ∷ [])

  abbrev pub add_word_filter : (server_id : String) (word : String) → Request D
  add_word_filter server_id word =
      record (ask post (fixed "servers" ∷ value server_id ∷ fixed "automod" ∷ fixed "words" ∷ [])) {
        body = object (("word", word) ∷ []);
      }

  abbrev pub remove_word_filter : (server_id : String) (word : String) → Request D
  remove_word_filter server_id word =
      ask delete
        (fixed "servers" ∷ value server_id ∷ fixed "automod" ∷ fixed "words" ∷ value word ∷ [])

  abbrev pub list_automod_logs : (server_id : String) → Request D
  list_automod_logs server_id =
      ask get (fixed "servers" ∷ value server_id ∷ fixed "automod" ∷ fixed "logs" ∷ [])

  abbrev pub list_bans : (server_id : String) → Request D
  list_bans server_id = ask get (fixed "servers" ∷ value server_id ∷ fixed "bans" ∷ [])

  abbrev pub remove_ban : (server_id : String) (user_id : String) → Request D
  remove_ban server_id user_id =
      ask delete (fixed "servers" ∷ value server_id ∷ fixed "bans" ∷ value user_id ∷ [])

  abbrev pub list_bots : Request D
  list_bots = ask get (fixed "bots" ∷ [])

  abbrev pub get_bot : (id : String) → Request D
  get_bot id = ask get (fixed "bots" ∷ value id ∷ [])

  abbrev pub create_bot : (payload : D) → Request D
  create_bot payload = record (ask post (fixed "bots" ∷ [])) { body = given payload }

  abbrev pub revoke_bot : (bot_id : String) → Request D
  revoke_bot bot_id = ask delete (fixed "bots" ∷ value bot_id ∷ [])

  abbrev pub regenerate_bot_token : (bot_id : String) → Request D
  regenerate_bot_token bot_id =
      ask post (fixed "bots" ∷ value bot_id ∷ fixed "token" ∷ fixed "regenerate" ∷ [])

  abbrev pub update_bot : (bot_id : String) (payload : D) → Request D
  update_bot bot_id payload = record (ask patch (fixed "bots" ∷ value bot_id ∷ [])) {
    body = given payload;
  }

  abbrev pub get_bot_logs : (bot_id : String) → Request D
  get_bot_logs bot_id = ask get (fixed "bots" ∷ value bot_id ∷ fixed "logs" ∷ [])

  abbrev pub kick_member : (server_id : String) (user_id : String) (payload : Option D) → Request D
  kick_member server_id user_id payload =
      record (ask post
        (fixed "servers" ∷ value server_id ∷ fixed "members" ∷ value user_id ∷ fixed "kick" ∷ [])) {
          body = or_empty payload;
        }

  abbrev pub ban_member : (server_id : String) (user_id : String) (payload : Option D) → Request D
  ban_member server_id user_id payload =
      record (ask post
        (fixed "servers" ∷ value server_id ∷ fixed "members" ∷ value user_id ∷ fixed "ban" ∷ [])) {
          body = or_empty payload;
        }

  abbrev pub timeout_member : (server_id : String) (user_id : String) (payload : D) → Request D
  timeout_member server_id user_id payload =
      record (ask post (
        fixed "servers"
        ∷ value server_id
        ∷ fixed "members"
        ∷ value user_id
        ∷ fixed "timeout"
        ∷ [])) { body = given payload }

  abbrev pub remove_timeout : (server_id : String) (user_id : String) → Request D
  remove_timeout server_id user_id =
      ask delete
        (fixed "servers" ∷ value server_id ∷ fixed "members" ∷ value user_id ∷ fixed "timeout" ∷ [])
