-- ===== src/Messages/Threads.antt =====
-- messageStore.ts: a reply of the user's own comes back twice, as the answer of the API and as an event
-- of the gateway, in either order.
use together.Base.{
  String, ◌≡◌, refl, true, false, none, some, ◌∷◌, ◌++◌, [], List, arith, ◌==◌, eq_refl, has_id,
  update_id, any-append,
}
use together.Base.Dict.{Dict, get, put, get-put_self}
use together.Types.Chat.{Message}
use together.Messages.{MessageState, message_id}
use together.Messages.Replies.{bump_reply_count, thread_message_arrived, thread_reply_sent}

put-put {ℓ} : {V : Type ℓ} (d : Dict V) (k : String) (v w : V) → put (put d k v) k w ≡ put d k w
unfolding put
put-put [] k v w = ground (arith, eq_refl k)
put-put ((j, x) ∷ d) k v w = ground (arith, put-put d k v w)

put-get {ℓ} : {V : Type ℓ} (d : Dict V) (k : String) (v : V) → get d k ≡ some v → put d k v ≡ d
unfolding put get
put-get [] k v h = ground arith
put-get ((j, x) ∷ d) k v h = ground (arith, put-get d k v)

has_id-appended : (m : Message) (ms : List Message) → has_id message_id m.id (ms ++ m ∷ []) ≡ true
has_id-appended m ms = ground (arith, any-append (λ x. x.id == m.id) ms (m ∷ []), eq_refl m.id)

update_id-same : (k : String) (ms : List Message) → update_id message_id k (λ m. m) ms ≡ ms
update_id-same k [] = refl
update_id-same k (m ∷ ms) = ground (arith, update_id-same k ms)

-- The state with the reply at the end of its loaded thread, and counted once.
abbrev pub counted_once : String → Message → List Message → MessageState → MessageState
counted_once root reply existing s = record s {
  thread_cache = put s.thread_cache root (existing ++ reply ∷ []);
  messages = update_id message_id root bump_reply_count s.messages;
}

module _ (root : String) (reply : Message) (existing : List Message) (s : MessageState)
    (loaded : get s.thread_cache root ≡ some existing)
    (new : has_id message_id reply.id existing ≡ false) where
  sent_first : thread_reply_sent root reply s ≡ counted_once root reply existing s
  unfolding thread_reply_sent
  sent_first = rw (loaded, new)

  arrived_first : thread_message_arrived root reply s ≡ counted_once root reply existing s
  unfolding thread_message_arrived
  arrived_first = ground arith

sent_again :
    (root : String) (reply : Message) (existing : List Message) (s : MessageState)
    → thread_reply_sent root reply (counted_once root reply existing s)
      ≡ counted_once root reply existing s
unfolding thread_reply_sent
sent_again root reply existing s = simp (get-put_self, has_id-appended, put-put, update_id-same)

-- An event for a reply that the loaded thread holds already changes nothing.
arrived_cached :
    (root : String) (reply : Message) (existing : List Message) (s : MessageState)
    → get s.thread_cache root ≡ some existing
    → has_id message_id reply.id existing ≡ true
    → thread_message_arrived root reply s ≡ s
unfolding thread_message_arrived
arrived_cached root reply existing s loaded old =
    ground (arith, put-get s.thread_cache root existing loaded)

arrived_again :
    (root : String) (reply : Message) (existing : List Message) (s : MessageState)
    → thread_message_arrived root reply (counted_once root reply existing s)
      ≡ counted_once root reply existing s
arrived_again root reply existing s =
    arrived_cached root reply (existing ++ reply ∷ []) (counted_once root reply existing s)
      (get-put_self s.thread_cache root _) (has_id-appended reply existing)

-- With the thread loaded and the reply not yet in it, the answer of the API and the event of the gateway
-- leave the same state in either order: the reply stands once, at the end, and the root's count has grown
-- by one.
pub send_and_event_commute :
    (root : String) (reply : Message) (existing : List Message) (s : MessageState)
    → get s.thread_cache root ≡ some existing
    → has_id message_id reply.id existing ≡ false
    → (thread_message_arrived root reply (thread_reply_sent root reply s)
        ≡ counted_once root reply existing s)
      × (thread_reply_sent root reply (thread_message_arrived root reply s)
          ≡ counted_once root reply existing s)
send_and_event_commute root reply existing s loaded new = (
  rw (sent_first root reply existing s loaded new) (arrived_again root reply existing s),
  rw (arrived_first root reply existing s loaded new) (sent_again root reply existing s),
)

-- Without the thread loaded, the event before the answer counts the reply twice, though it stands once;
-- in the other order it is counted once.
unloaded_thread_counts_twice :
    (root : String) (reply : Message) (s : MessageState)
    → get s.thread_cache root ≡ none
    → ((thread_reply_sent root reply (thread_message_arrived root reply s)).messages
        ≡ update_id message_id root bump_reply_count
            (update_id message_id root bump_reply_count s.messages))
      × ((thread_message_arrived root reply (thread_reply_sent root reply s)).messages
          ≡ update_id message_id root bump_reply_count s.messages)
      × (get (thread_reply_sent root reply (thread_message_arrived root reply s)).thread_cache root
          ≡ some (reply ∷ []))
unfolding thread_reply_sent thread_message_arrived
unloaded_thread_counts_twice root reply s unloaded = (
  ground arith,
  ground (arith, get-put_self s.thread_cache root (reply ∷ []), eq_refl reply.id),
  ground (arith, get-put_self s.thread_cache root (reply ∷ [])),
)
