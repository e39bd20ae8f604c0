-- ===== src/ReadState.antt =====
-- clients/web/src/stores/readStateStore.ts: unread messages and mentions of each channel.
pub mod Counting
use together.Base.{ℕ, ◌+◌, String, List, [], ◌∷◌, get_or}
use together.Base.Dict.{Dict, get, put}
use together.Types.Chat.{UnreadCount, MentionCount}

pub record ReadState : Type 0 where
  pub unread_counts : Dict ℕ
  pub mention_counts : Dict ℕ

-- The loops of `setUnreadCounts` and `setMentionCounts`: a later entry of a channel replaces an earlier.
pub unread_map : Dict ℕ → List UnreadCount → Dict ℕ
unread_map counts [] = counts
unread_map counts (c ∷ cs) = unread_map (put counts c.channel_id c.unread_count) cs

pub mention_map : Dict ℕ → List MentionCount → Dict ℕ
mention_map counts [] = counts
mention_map counts (c ∷ cs) = mention_map (put counts c.channel_id c.count) cs

unfoldable pub set_unread_counts : List UnreadCount → ReadState → ReadState
set_unread_counts counts s = record s { unread_counts = unread_map [] counts }

unfoldable pub set_mention_counts : List MentionCount → ReadState → ReadState
set_mention_counts counts s = record s { mention_counts = mention_map [] counts }

-- One more in the channel, from 0 where there is no count.
unfoldable pub increment : String → Dict ℕ → Dict ℕ
increment channel_id counts = put counts channel_id (get_or (get counts channel_id) 0 + 1)

unfoldable pub mark_read : String → ReadState → ReadState
mark_read channel_id s = record s { unread_counts = put s.unread_counts channel_id 0 }

unfoldable pub increment_unread : String → ReadState → ReadState
unfolding increment
increment_unread channel_id s = record s { unread_counts = increment channel_id s.unread_counts }

unfoldable pub increment_mention : String → ReadState → ReadState
unfolding increment
increment_mention channel_id s = record s { mention_counts = increment channel_id s.mention_counts }

unfoldable pub clear_mentions : String → ReadState → ReadState
clear_mentions channel_id s = record s { mention_counts = put s.mention_counts channel_id 0 }
