-- ===== src/Endpoints/Chat.antt =====
-- client.ts: messages, attachments, direct messages, threads, emojis, reactions, pins, polls and events.
use together.Base.{ℕ, String, true, Option, List, [], ◌∷◌, ◌++◌, inl, inr, get_or}
use together.Endpoints.{
  Request, fixed, value, ask, get, post, patch, put, delete, given, object, form, text, number,
  text_param, number_param, files_part,
}

module _ {ℓ} {D : Type ℓ} where
  abbrev pub create_message : (channel_id : String) (payload : D) → Request D
  create_message channel_id payload =
      record (ask post (fixed "channels" ∷ value channel_id ∷ fixed "messages" ∷ [])) {
        body = given payload;
      }

  abbrev pub list_messages :
      (channel_id : String) (before : Option String) (limit : Option ℕ) → Request D
  list_messages channel_id before limit =
      record (ask get (fixed "channels" ∷ value channel_id ∷ fixed "messages" ∷ [])) {
        query = text_param "before" before ++ number_param "limit" limit;
      }

  abbrev pub get_message : (channel_id : String) (message_id : String) → Request D
  get_message channel_id message_id =
      ask get (fixed "channels" ∷ value channel_id ∷ fixed "messages" ∷ value message_id ∷ [])

  abbrev pub update_message : (message_id : String) (payload : D) → Request D
  update_message message_id payload =
      record (ask patch (fixed "messages" ∷ value message_id ∷ [])) { body = given payload }

  abbrev pub delete_message : (message_id : String) → Request D
  delete_message message_id = ask delete (fixed "messages" ∷ value message_id ∷ [])

  abbrev pub upload_attachments : (message_id : String) (files : List D) → Request D
  upload_attachments message_id files =
      record (ask post (fixed "messages" ∷ value message_id ∷ fixed "attachments" ∷ [])) {
        body = form (files_part files);
        skip_content_type = true;
      }

  abbrev pub list_attachments : (message_id : String) → Request D
  list_attachments message_id =
      ask get (fixed "messages" ∷ value message_id ∷ fixed "attachments" ∷ [])

  abbrev pub ack_channel : (channel_id : String) → Request D
  ack_channel channel_id = ask post (fixed "channels" ∷ value channel_id ∷ fixed "ack" ∷ [])

  abbrev pub open_dm_channel : (user_id : String) → Request D
  open_dm_channel user_id = record (ask post (fixed "dm-channels" ∷ [])) {
    body = object (("user_id", user_id) ∷ []);
  }

  abbrev pub list_dm_channels : Request D
  list_dm_channels = ask get (fixed "dm-channels" ∷ [])

  abbrev pub send_dm_message : (channel_id : String) (content : String) → Request D
  send_dm_message channel_id content =
      record (ask post (fixed "dm-channels" ∷ value channel_id ∷ fixed "messages" ∷ [])) {
        body = object (("content", content) ∷ []);
      }

  abbrev pub list_dm_messages :
      (channel_id : String) (before : Option String) (limit : Option ℕ) → Request D
  list_dm_messages channel_id before limit =
      record (ask get (fixed "dm-channels" ∷ value channel_id ∷ fixed "messages" ∷ [])) {
        query = text_param "before" before ++ number_param "limit" limit;
      }

  abbrev pub ack_dm_channel : (channel_id : String) → Request D
  ack_dm_channel channel_id = ask post (fixed "dm-channels" ∷ value channel_id ∷ fixed "ack" ∷ [])

  abbrev pub list_thread_replies :
      (channel_id : String) (message_id : String) (before : Option String) (limit : Option ℕ)
      → Request D
  list_thread_replies channel_id message_id before limit =
      record (ask get (
        fixed "channels"
        ∷ value channel_id
        ∷ fixed "messages"
        ∷ value message_id
        ∷ fixed "thread"
        ∷ [])) { query = text_param "before" before ++ number_param "limit" limit }

  abbrev pub create_thread_reply :
      (channel_id : String) (message_id : String) (payload : D) → Request D
  create_thread_reply channel_id message_id payload =
      record (ask post (
        fixed "channels"
        ∷ value channel_id
        ∷ fixed "messages"
        ∷ value message_id
        ∷ fixed "thread"
        ∷ [])) { body = given payload }

  abbrev pub list_custom_emojis : (server_id : String) → Request D
  list_custom_emojis server_id = ask get (fixed "servers" ∷ value server_id ∷ fixed "emojis" ∷ [])

  abbrev pub upload_custom_emoji : (server_id : String) (name : String) (file : D) → Request D
  upload_custom_emoji server_id name file =
      record (ask post (fixed "servers" ∷ value server_id ∷ fixed "emojis" ∷ [])) {
        body = form (("name", inl name) ∷ ("image", inr file) ∷ []);
        skip_content_type = true;
      }

  abbrev pub delete_custom_emoji : (server_id : String) (emoji_id : String) → Request D
  delete_custom_emoji server_id emoji_id =
      ask delete (fixed "servers" ∷ value server_id ∷ fixed "emojis" ∷ value emoji_id ∷ [])

  abbrev pub add_reaction : (channel_id : String) (message_id : String) (emoji : String) → Request D
  add_reaction channel_id message_id emoji = ask put (
      fixed "channels"
      ∷ value channel_id
      ∷ fixed "messages"
      ∷ value message_id
      ∷ fixed "reactions"
      ∷ value emoji
      ∷ [])

  abbrev pub remove_reaction :
      (channel_id : String) (message_id : String) (emoji : String) → Request D
  remove_reaction channel_id message_id emoji = ask delete (
      fixed "channels"
      ∷ value channel_id
      ∷ fixed "messages"
      ∷ value message_id
      ∷ fixed "reactions"
      ∷ value emoji
      ∷ [])

  abbrev pub list_reactions : (channel_id : String) (message_id : String) → Request D
  list_reactions channel_id message_id = ask get (
      fixed "channels"
      ∷ value channel_id
      ∷ fixed "messages"
      ∷ value message_id
      ∷ fixed "reactions"
      ∷ [])

  abbrev pub pin_message : (channel_id : String) (message_id : String) → Request D
  pin_message channel_id message_id =
      ask post (
        fixed "channels"
        ∷ value channel_id
        ∷ fixed "messages"
        ∷ value message_id
        ∷ fixed "pin"
        ∷ [])

  abbrev pub unpin_message : (channel_id : String) (message_id : String) → Request D
  unpin_message channel_id message_id =
      ask delete (
        fixed "channels"
        ∷ value channel_id
        ∷ fixed "messages"
        ∷ value message_id
        ∷ fixed "pin"
        ∷ [])

  abbrev pub list_pinned_messages : (channel_id : String) → Request D
  list_pinned_messages channel_id =
      ask get (fixed "channels" ∷ value channel_id ∷ fixed "pinned-messages" ∷ [])

  abbrev pub get_link_preview : (url : String) → Request D
  get_link_preview url = record (ask get (fixed "link-preview" ∷ [])) {
    query = ("url", text url) ∷ [];
  }

  abbrev pub search_gifs : (q : String) (limit : Option ℕ) → Request D
  search_gifs q limit = record (ask get (fixed "giphy" ∷ fixed "search" ∷ [])) {
    query = ("q", text q) ∷ ("limit", number (get_or limit 15)) ∷ [];
  }

  abbrev pub create_poll : (channel_id : String) (payload : D) → Request D
  create_poll channel_id payload =
      record (ask post (fixed "channels" ∷ value channel_id ∷ fixed "polls" ∷ [])) {
        body = given payload;
      }

  abbrev pub get_poll : (poll_id : String) → Request D
  get_poll poll_id = ask get (fixed "polls" ∷ value poll_id ∷ [])

  abbrev pub cast_vote : (poll_id : String) (option_id : String) → Request D
  cast_vote poll_id option_id =
      record (ask post (fixed "polls" ∷ value poll_id ∷ fixed "vote" ∷ [])) {
        body = object (("option_id", option_id) ∷ []);
      }

  abbrev pub create_event : (channel_id : String) (payload : D) → Request D
  create_event channel_id payload =
      record (ask post (fixed "channels" ∷ value channel_id ∷ fixed "events" ∷ [])) {
        body = given payload;
      }
