-- ===== src/Examples/OfMessages.antt =====
-- The theorems on messageStore.ts at concrete messages.
use together.Base.{String, ◌≡◌, refl, none, some, List, [], ◌∷◌, true, Reply, ok}
use together.Base.Dict.{get}
use together.Types.Chat.{Attachment, PollDto, MessageDeleteEvent}
use together.Messages.{MessageState, add_message, load_page}
use together.Messages.Replies.{thread_reply_sent, thread_message_arrived}
use together.Messages.Feed.{IsDistinct, events-IsDistinct}
use together.Messages.Threads.{send_and_event_commute, counted_once}
use together.Messages.Paging.{pages-reverse, load_older}
use together.Examples.Data.{message, feed, reply}

no_attachments : String → Reply (List Attachment)
no_attachments id = ok []

quiet : MessageState → MessageState
quiet s = s

abbrev poll : PollDto
poll = record { id = "p1"; question = "when?"; options = []; total_votes = 0; user_vote = none }

abbrev deletion : MessageDeleteEvent
deletion = record { id = "m1"; channel_id = "general" }

events-IsDistinct_example : IsDistinct (add_message (message "m3") feed)
events-IsDistinct_example = (events-IsDistinct feed (message "m3") deletion "m2" true poll refl).0

abbrev loaded : get feed.thread_cache "m1" ≡ some []
unfolding get
loaded = refl

abbrev unloaded : get feed.thread_cache "m2" ≡ none
unfolding get
unloaded = refl

send_and_event_commute_example :
    thread_message_arrived "m1" reply (thread_reply_sent "m1" reply feed)
    ≡ counted_once "m1" reply [] feed
send_and_event_commute_example = (send_and_event_commute "m1" reply [] feed loaded refl).0

pages-reverse_example :
    (load_older "m4"
      ((message "m3" ∷ message "m2" ∷ []) ∷ [])
      (load_page none (message "m5" ∷ message "m4" ∷ []) feed)).messages
    ≡ message "m2" ∷ message "m3" ∷ message "m4" ∷ message "m5" ∷ []
pages-reverse_example =
    pages-reverse "m4" refl (message "m5" ∷ message "m4" ∷ [])
      ((message "m3" ∷ message "m2" ∷ []) ∷ []) feed
