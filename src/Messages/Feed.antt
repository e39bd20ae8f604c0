-- ===== src/Messages/Feed.antt =====
-- messageStore.ts: what the operations on single messages do to the list of the open channel.
use together.Base.{
  String, ◌≡◌, refl, Bool, true, none, some, ◌∷◌, [], List, arith, ◌==◌, eq_iff, eq_refl,
  if◌then◌else◌, find_id, distinct, distinct-append_one, distinct-update_id, any-append,
  find_id-update_id, find_id-append_one, has_id-find_id, map_where, get_or, or_else,
  distinct-map_where, get_or, or_else, ◌∙◌,
}
use mathlib.Core.Option
use together.Types.Chat.{Message, MessageDeleteEvent, PollDto}
use together.Messages.{
  MessageState, message_id, tombstone, add_message, update_message, remove_message,
  update_message_poll, update_pinned_status, set_pinned,
}
use together.Messages.Replies.{add_thread_message, thread_message_arrived, bump_reply_count}

-- No message stands twice.
abbrev pub IsDistinct : MessageState → Type 0
IsDistinct s = distinct message_id s.messages ≡ true

-- A second delivery of a message changes nothing. After a delivery each id finds the message that it
-- found before, and the new message's id finds it where it found none.
add_message_once :
    (m : Message) (s : MessageState) (j : String)
    → (add_message m (add_message m s) ≡ add_message m s)
      × (find_id message_id j (add_message m s).messages
          ≡ or_else (find_id message_id j s.messages) (if m.id == j then some m else none))
unfolding add_message
add_message_once m s j = (
  ground (arith, any-append (λ x. x.id == m.id) s.messages (m ∷ []), eq_refl m.id),
  ground (
    arith,
    find_id-append_one message_id j s.messages m,
    has_id-find_id message_id m.id s.messages,
    eq_iff m.id j,
  ),
)

pub add_message-IsDistinct :
    (m : Message) (s : MessageState) → IsDistinct s → IsDistinct (add_message m s)
unfolding add_message
add_message-IsDistinct m s h = ground (arith, distinct-append_one message_id s.messages m)

-- A map over the list that keeps every id.
keep_ids :
    (p : Message → Bool) (f : Message → Message) (ms : List Message)
    → ((m : Message) → (f m).id ≡ m.id)
    → distinct message_id ms ≡ true
    → distinct message_id (map_where p f ms) ≡ true
keep_ids p f ms keeps h = distinct-map_where message_id p f keeps ms ∙ h

update_message-IsDistinct :
    (m : Message) (s : MessageState) → IsDistinct s → IsDistinct (update_message m s)
unfolding update_message
update_message-IsDistinct m s h =
    distinct-update_id message_id m.id (λ _. m) (λ x e. refl) s.messages ∙ h

thread_message_arrived-IsDistinct :
    (root : String) (m : Message) (s : MessageState)
    → IsDistinct s
    → IsDistinct (thread_message_arrived root m s)
unfolding thread_message_arrived
thread_message_arrived-IsDistinct root m s h =
    ground (arith, keep_ids (λ x. x.id == root) bump_reply_count s.messages (λ x. refl) h)

add_thread_message-IsDistinct :
    (m : Message) (s : MessageState) → IsDistinct s → IsDistinct (add_thread_message m s)
unfolding add_thread_message
add_thread_message-IsDistinct m s h =
    ground (arith, thread_message_arrived-IsDistinct (get_or m.thread_id "") m s h)

-- Each gateway event on messages keeps the ids of the list different from one another.
pub events-IsDistinct :
    (s : MessageState) (m : Message) (event : MessageDeleteEvent) (k : String) (b : Bool)
    (p : PollDto)
    → IsDistinct s
    → IsDistinct (add_message m s)
      × IsDistinct (update_message m s)
      × IsDistinct (remove_message event s)
      × IsDistinct (update_message_poll k p s)
      × IsDistinct (update_pinned_status k b s)
      × IsDistinct (add_thread_message m s)
unfolding remove_message update_message_poll update_pinned_status
events-IsDistinct s m event k b p h = (
  add_message-IsDistinct m s h,
  update_message-IsDistinct m s h,
  keep_ids _ tombstone s.messages (λ x. refl) h,
  keep_ids _ _ s.messages (λ x. refl) h,
  keep_ids _ (set_pinned b) s.messages (λ x. refl) h,
  add_thread_message-IsDistinct m s h,
)

-- `removeMessage` leaves the deleted message in its place, marked and emptied, and every other message
-- as it was.
find_id-remove_message :
    (event : MessageDeleteEvent) (s : MessageState) (j : String)
    → find_id message_id j (remove_message event s).messages ≡ (
        if event.id == j
        then Option.map tombstone (find_id message_id j s.messages)
        else find_id message_id j s.messages)
unfolding remove_message
find_id-remove_message event s j =
    find_id-update_id message_id event.id tombstone (λ x e. (eq_iff x.id event.id).0 e) j s.messages
