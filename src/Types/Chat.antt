-- ===== src/Types/Chat.antt =====
-- Messages, polls, attachments and direct messages of clients/web/src/types/index.ts. A field that may be
-- null or absent is an `Option`.
use together.Base.{ℕ, String, Bool, Option, List}

pub record PollOption : Type 0 where
  pub id : String
  pub text : String
  pub votes : ℕ

pub record PollDto : Type 0 where
  pub id : String
  pub question : String
  pub options : List PollOption
  pub total_votes : ℕ
  pub user_vote : Option String

pub record ServerEventDto : Type 0 where
  pub id : String
  pub name : String
  pub description : Option String
  pub starts_at : String
  pub created_by : Option String
  pub created_at : String

pub record Message : Type 0 where
  pub id : String
  pub channel_id : String
  pub author_id : Option String
  pub content : String
  pub reply_to : Option String
  pub mention_user_ids : List String
  pub mention_everyone : Bool
  pub thread_id : Option String
  pub thread_reply_count : ℕ
  pub edited_at : Option String
  pub deleted : Bool
  pub created_at : String
  pub pinned : Bool
  pub pinned_by : Option String
  pub pinned_at : Option String
  pub poll : Option PollDto
  pub event : Option ServerEventDto

pub record MessageDeleteEvent : Type 0 where
  pub id : String
  pub channel_id : String

pub record Attachment : Type 0 where
  pub id : String
  pub message_id : String
  pub filename : String
  pub file_size : ℕ
  pub mime_type : String
  pub url : String
  -- width and height, which are null together
  pub dimensions : Option (ℕ × ℕ)
  pub created_at : String

pub record DirectMessage : Type 0 where
  pub id : String
  pub channel_id : String
  pub author_id : Option String
  pub content : String
  pub edited_at : Option String
  pub deleted : Bool
  pub created_at : String

pub record UnreadCount : Type 0 where
  pub channel_id : String
  pub unread_count : ℕ

pub record MentionCount : Type 0 where
  pub channel_id : String
  pub count : ℕ
