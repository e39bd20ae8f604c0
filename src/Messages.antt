-- ===== src/Messages.antt =====
-- clients/web/src/stores/messageStore.ts: the messages of the open channel and their attachments; the previews
-- of reply targets, and the threads. An action that awaits the API takes the answer as an argument, and
-- `meanwhile`, which is all that other actions do to the store while the answer is awaited.
pub mod Replies
pub mod Feed
pub mod Threads
pub mod Paging
pub mod Sending
use together.Base.{
  ℕ, ◌+◌, String, Bool, true, false, not, ◌&&◌, ◌||◌, Option, none, some, List, [], ◌∷◌, ◌++◌, map,
  reverse, length, if◌then◌else◌, eqb, ltb, has_id, update_id, map_where, filter, includes, truthy,
  is_id, is_some, get_or, ◌==◌, Reply, ok, failed, describe, Failure, Outcome, returned, thrown,
}
use together.Base.Dict.{Dict, get, put, merge}
use together.Types.Chat.{Message, Attachment, PollDto, MessageDeleteEvent}

pub record MessageState : Type 0 where
  pub messages : List Message
  pub is_loading : Bool
  pub has_more : Bool
  pub error : Option String
  pub replying_to : Option Message
  pub attachment_cache : Dict (List Attachment)
  pub reply_target_cache : Dict Message
  pub highlighted_message_id : Option String
  pub thread_cache : Dict (List Message)
  pub active_thread_id : Option String
  pub is_thread_loading : Bool
  pub thread_error : Option String
  -- the module's `pendingReplyFetches`
  pub pending_reply_fetches : List String

abbrev pub initial : MessageState
initial = record {
  messages = [];
  is_loading = false;
  has_more = true;
  error = none;
  replying_to = none;
  attachment_cache = [];
  reply_target_cache = [];
  highlighted_message_id = none;
  thread_cache = [];
  active_thread_id = none;
  is_thread_loading = false;
  thread_error = none;
  pending_reply_fetches = [];
}

abbrev pub message_id : Message → String
message_id m = m.id

abbrev pub page_size : ℕ
page_size = 50

-- The page that `fetchMessages` was answered with, newest first.
unfoldable pub load_page : Option String → List Message → MessageState → MessageState
load_page before fetched s =
    let ordered = reverse fetched in
    record s {
      messages = if truthy before then ordered ++ s.messages else ordered;
      has_more = eqb (length fetched) page_size;
      is_loading = false;
    }

-- The settled requests for attachments: only a list that is not empty is kept.
attachment_updates :
    (String → Reply (List Attachment))
    → Dict (List Attachment)
    → List Message
    → Dict (List Attachment)
attachment_updates list_attachments updates [] = updates
attachment_updates list_attachments updates (m ∷ ms) =
    attachment_updates list_attachments
      (elim (list_attachments m.id) [
        | ok list ↦ if ltb 0 (length list) then put updates m.id list else updates
        | failed e ↦ updates
      ])
      ms

pub load_attachments :
    (String → Reply (List Attachment)) → List Message → MessageState → MessageState
load_attachments list_attachments ordered s = record s {
  attachment_cache = merge s.attachment_cache (attachment_updates list_attachments [] ordered);
}

unfoldable pub fetch_messages :
    Option String
    → (meanwhile : MessageState → MessageState) → Reply (List Message)
    → (meanwhile_attachments : MessageState → MessageState) → (String → Reply (List Attachment))
    → MessageState
    → MessageState
fetch_messages before meanwhile (ok fetched) meanwhile_attachments list_attachments s =
    load_attachments list_attachments (reverse fetched) (
      meanwhile_attachments (load_page before fetched (meanwhile (record s { is_loading = true }))))
fetch_messages before meanwhile (failed err) meanwhile_attachments list_attachments s =
    let s' = meanwhile (record s { is_loading = true }) in
    record s' { error = some (describe err "Failed to fetch messages"); is_loading = false }

pub cache_attachments : String → List Attachment → MessageState → MessageState
cache_attachments message_id attachments s = record s {
  attachment_cache = put s.attachment_cache message_id attachments;
}

-- The uploads of `sendMessage`, once the message itself is delivered.
pub settle_upload : Message → Reply (List Attachment) → MessageState → MessageState
settle_upload msg (ok attachments) s = record s {
  attachment_cache = put s.attachment_cache msg.id attachments;
}
settle_upload msg (failed err) s = record s {
  error = some (describe err "Message sent but file upload failed");
}

unfoldable pub send_message :
    {File : Type 0}
    → Option (List File)
    → Reply Message
    → (meanwhile_upload : MessageState → MessageState) → Reply (List Attachment)
    → MessageState
    → MessageState × Outcome (Unit {0})
send_message files (failed err) meanwhile_upload upload s =
    (record s { error = some (describe err "Failed to send message") }, thrown err)
send_message none (ok msg) meanwhile_upload upload s =
    (record s { replying_to = none }, returned tt)
send_message (some files) (ok msg) meanwhile_upload upload s =
    let sent = record s { replying_to = none } in
    if ltb 0 (length files)
    then (settle_upload msg upload (meanwhile_upload sent), returned tt)
    else (sent, returned tt)

unfoldable pub edit_message :
    String → Reply Message → MessageState → MessageState × Outcome (Unit {0})
edit_message id (ok updated) s =
    (record s { messages = update_id message_id id (λ _. updated) s.messages }, returned tt)
edit_message id (failed err) s =
    (record s { error = some (describe err "Failed to edit message") }, thrown err)

-- The deletion itself arrives over the gateway.
unfoldable pub delete_message : Reply (Unit {0}) → MessageState → MessageState × Outcome (Unit {0})
delete_message (ok _) s = (s, returned tt)
delete_message (failed err) s =
    (record s { error = some (describe err "Failed to delete message") }, thrown err)

unfoldable pub add_message : Message → MessageState → MessageState
add_message message s =
    if has_id message_id message.id s.messages
    then s
    else record s { messages = s.messages ++ message ∷ [] }

unfoldable pub update_message : Message → MessageState → MessageState
update_message message s = record s {
  messages = update_id message_id message.id (λ _. message) s.messages;
}

abbrev pub poll_is : String → Message → Bool
poll_is poll_id m = elim m.poll [ none ↦ false | some p ↦ p.id == poll_id ]

unfoldable pub update_message_poll : String → PollDto → MessageState → MessageState
update_message_poll poll_id poll s = record s {
  messages = map_where (poll_is poll_id) (λ m. record m { poll = some poll }) s.messages;
}

abbrev pub tombstone : Message → Message
tombstone m = record m { deleted = true; content = "" }

unfoldable pub remove_message : MessageDeleteEvent → MessageState → MessageState
remove_message event s = record s { messages = update_id message_id event.id tombstone s.messages }

pub set_replying_to : Option Message → MessageState → MessageState
set_replying_to message s = record s { replying_to = message }

pub set_highlighted_message_id : Option String → MessageState → MessageState
set_highlighted_message_id id s = record s { highlighted_message_id = id }

unfoldable pub clear_messages : MessageState → MessageState
clear_messages s = record s {
  messages = [];
  has_more = true;
  replying_to = none;
  attachment_cache = [];
  reply_target_cache = [];
  highlighted_message_id = none;
  thread_cache = [];
  active_thread_id = none;
}

pub clear_error : MessageState → MessageState
clear_error s = record s { error = none }

abbrev pub set_pinned : Bool → Message → Message
set_pinned pinned m = record m {
  pinned = pinned;
  pinned_by = if pinned then m.pinned_by else none;
  pinned_at = if pinned then m.pinned_at else none;
}

unfoldable pub update_pinned_status : String → Bool → MessageState → MessageState
update_pinned_status id pinned s = record s {
  messages = update_id message_id id (set_pinned pinned) s.messages;
}
