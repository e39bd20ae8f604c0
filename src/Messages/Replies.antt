-- ===== src/Messages/Replies.antt =====
-- clients/web/src/stores/messageStore.ts: the previews of reply targets, and the threads.
use together.Base.{
  ◌+◌, String, Bool, true, false, not, ◌||◌, none, some, List, [], ◌∷◌, ◌++◌, if◌then◌else◌, has_id,
  update_id, filter, includes, is_some, get_or, ◌==◌, Reply, ok, failed, describe, Outcome,
  returned, thrown,
}
use together.Base.Dict.{get, put}
use together.Types.Chat.{Message}
use together.Messages.{MessageState, message_id}

-- `ensureReplyTarget` returns at once for a message that is at hand or already asked for.
unfoldable pub needs_reply_target : String → MessageState → Bool
needs_reply_target id s = not (
    has_id message_id id s.messages
    || is_some (get s.reply_target_cache id)
    || includes s.pending_reply_fetches id)

-- A failed fetch is not fatal: nothing is cached.
pub cache_reply_target : String → Reply Message → MessageState → MessageState
cache_reply_target id (ok msg) s = record s { reply_target_cache = put s.reply_target_cache id msg }
cache_reply_target id (failed err) s = s

pub forget_reply_fetch : String → MessageState → MessageState
forget_reply_fetch id s = record s {
  pending_reply_fetches = filter (λ j. not (j == id)) s.pending_reply_fetches;
}

unfoldable pub ensure_reply_target :
    String → (meanwhile : MessageState → MessageState) → Reply Message → MessageState → MessageState
unfolding cache_reply_target forget_reply_fetch
ensure_reply_target id meanwhile reply s =
    if needs_reply_target id s
    then forget_reply_fetch id (
        cache_reply_target id reply
          (meanwhile (record s { pending_reply_fetches = id ∷ s.pending_reply_fetches })))
    else s

pub open_thread : String → MessageState → MessageState
open_thread id s = record s { active_thread_id = some id }

pub close_thread : MessageState → MessageState
close_thread s = record s { active_thread_id = none }

unfoldable pub fetch_thread_replies :
    String
    → (meanwhile : MessageState → MessageState) → Reply (List Message)
    → MessageState
    → MessageState
fetch_thread_replies id meanwhile (ok replies) s =
    let s' = meanwhile (record s { is_thread_loading = true; thread_error = none }) in
    record s' { thread_cache = put s'.thread_cache id replies; is_thread_loading = false }
fetch_thread_replies id meanwhile (failed err) s =
    let s' = meanwhile (record s { is_thread_loading = true; thread_error = none }) in
    record s' {
      thread_error = some (describe err "Failed to load thread replies");
      is_thread_loading = false;
    }

abbrev pub bump_reply_count : Message → Message
bump_reply_count m = record m { thread_reply_count = m.thread_reply_count + 1 }

-- What `sendThreadReply` does with the reply that the server made.
unfoldable pub thread_reply_sent : String → Message → MessageState → MessageState
thread_reply_sent id reply s =
    let existing = get_or (get s.thread_cache id) [] in
    let already_added = has_id message_id reply.id existing in
    record s {
      thread_cache =
          put s.thread_cache id (if already_added then existing else existing ++ reply ∷ []);
      messages =
          update_id message_id id (λ m. if already_added then m else bump_reply_count m) s.messages;
    }

unfoldable pub send_thread_reply :
    String → Reply Message → MessageState → MessageState × Outcome (Unit {0})
send_thread_reply id (ok reply) s = (thread_reply_sent id reply s, returned tt)
send_thread_reply id (failed err) s =
    (record s { error = some (describe err "Failed to send thread reply") }, thrown err)

-- A reply in the thread of `root`, as the gateway announces it.
unfoldable pub thread_message_arrived : String → Message → MessageState → MessageState
thread_message_arrived root msg s = elim (get s.thread_cache root) [
  | none ↦ record s { messages = update_id message_id root bump_reply_count s.messages }
  | some existing ↦
      if has_id message_id msg.id existing
      then record s { thread_cache = put s.thread_cache root existing }
      else record s {
        thread_cache = put s.thread_cache root (existing ++ msg ∷ []);
        messages = update_id message_id root bump_reply_count s.messages;
      }
]

-- A message with no `thread_id`, or an empty one, is ignored with a warning.
unfoldable pub add_thread_message : Message → MessageState → MessageState
add_thread_message msg s = elim msg.thread_id [
  | none ↦ s
  | some root ↦ if root == "" then s else thread_message_arrived root msg s
]
