-- ===== src/Messages/Paging.antt =====
-- messageStore.ts: `fetchMessages`, page by page.
use together.Base.{
  String, ◌≡◌, refl, sym, ap, ◌∙◌, true, false, Option, none, some, ◌∷◌, ◌++◌, [], List, arith,
  reverse, eqb, length, truthy, has_id, any-append, ◌==◌, Reply, ok, failed, Failure,
}
use mathlib.Core.List.{reverse-append, append_assoc}
use together.Types.Chat.{Message, Attachment}
use together.Messages.{
  MessageState, load_page, load_attachments, fetch_messages, page_size, message_id, add_message,
}

-- The pages that scrolling back brings in, each asked for with `before`, the newest page first.
abbrev pub load_older : String → List (List Message) → MessageState → MessageState
load_older before [] s = s
load_older before (page ∷ pages) s = load_older before pages (load_page (some before) page s)

-- The pages put together, newest message first, as the server lists the channel.
abbrev pub listing : List (List Message) → List Message
listing [] = []
listing (page ∷ pages) = page ++ listing pages

older_reverse :
    (before : String)
    → truthy (some before) ≡ true
    → (pages : List (List Message)) (s : MessageState)
    → (load_older before pages s).messages ≡ reverse (listing pages) ++ s.messages
unfolding load_page
older_reverse before h [] s = refl
older_reverse before h (page ∷ pages) s =
    older_reverse before h pages (load_page (some before) page s)
    ∙ rw (h, reverse-append)
        (sym (append_assoc (reverse (listing pages)) (reverse page) s.messages))

-- A first page without `before`, then any pages with one, leave the listing in reverse: the oldest
-- message stands first, nothing is lost or repeated, and what the store held before is gone.
pub pages-reverse :
    (before : String)
    → truthy (some before) ≡ true
    → (first : List Message) (pages : List (List Message)) (s : MessageState)
    → (load_older before pages (load_page none first s)).messages
      ≡ reverse (listing (first ∷ pages))
unfolding load_page
pages-reverse before h first pages s =
    older_reverse before h pages (load_page none first s)
    ∙ sym (reverse-append first (listing pages))

module _ (meanwhile : MessageState → MessageState)
    (list_attachments : String → Reply (List Attachment)) (s : MessageState) where
  abbrev awaited : MessageState
  awaited = meanwhile (record s { is_loading = true })

  -- However the store changed while the page was awaited: a first page replaces the list, a page with
  -- `before` stands before what the list holds by then, and a failure leaves the list as it is by then.
  -- In each case loading is over. `hasMore` says whether a page was full.
  fetch_messages_lem :
      (before : String)
      → truthy (some before) ≡ true
      → (fetched : List Message) (err : Failure)
      → let fetch = λ (b : Option String) (r : Reply (List Message)).
        fetch_messages b meanwhile r (λ t. t) list_attachments s in
        ((fetch none (ok fetched)).messages ≡ reverse fetched)
        × ((fetch (some before) (ok fetched)).messages ≡ reverse fetched ++ awaited.messages)
        × ((fetch none (ok fetched)).has_more ≡ eqb (length fetched) page_size)
        × ((fetch none (ok fetched)).is_loading ≡ false)
        × ((fetch (some before) (ok fetched)).is_loading ≡ false)
        × ((fetch none (failed err)).messages ≡ awaited.messages)
        × ((fetch none (failed err)).is_loading ≡ false)
  unfolding fetch_messages load_page load_attachments
  fetch_messages_lem before h fetched err = (refl, rw h, refl, refl, refl, refl, refl)

has_id-reverse :
    (k : String) (ms : List Message) → has_id message_id k (reverse ms) ≡ has_id message_id k ms
has_id-reverse k [] = refl
has_id-reverse k (m ∷ ms) =
    ap (has_id message_id k) (reverse-append (m ∷ []) ms)
    ∙ ground (arith, any-append (λ x. x.id == k) (reverse ms) (m ∷ []), has_id-reverse k ms)

-- A message that the gateway announces while the first page is awaited, and that the page does not hold
-- yet, is not in the list afterwards.
first_page_drops_arrival :
    (list_attachments : String → Reply (List Attachment)) (s : MessageState) (m : Message)
    (fetched : List Message)
    → has_id message_id m.id fetched ≡ false
    → has_id message_id m.id
        (fetch_messages none (add_message m) (ok fetched) (λ t. t) list_attachments s).messages
      ≡ false
unfolding fetch_messages load_page load_attachments
first_page_drops_arrival list_attachments s m fetched h = has_id-reverse m.id fetched ∙ h
