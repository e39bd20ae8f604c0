-- ===== src/Messages/Sending.antt =====
-- messageStore.ts: `ensureReplyTarget`.
use together.Base.{
  String, ◌≡◌, refl, true, false, not, some, ◌∷◌, [], List, arith, ◌==◌, Reply, ok, includes,
  filter,
}
use together.Base.Dict.{get, get-put_self}
use together.Types.Chat.{Message}
use together.Messages.{MessageState}
use together.Messages.Replies.{needs_reply_target, ensure_reply_target}

not_pending :
    (id : String) (ids : List String) → includes (filter (λ j. not (j == id)) ids) id ≡ false
not_pending id [] = refl
not_pending id (j ∷ ids) = ground (arith, not_pending id ids)

-- While a request for the id is out, `ensureReplyTarget` does nothing.
pub ensure_reply_target_pending :
    (id : String) (meanwhile : MessageState → MessageState) (reply : Reply Message)
    (s : MessageState)
    → includes s.pending_reply_fetches id ≡ true
    → ensure_reply_target id meanwhile reply s ≡ s
unfolding ensure_reply_target needs_reply_target
ensure_reply_target_pending id meanwhile reply s h = ground arith

skip_cached :
    (id : String) (later : MessageState → MessageState) (again : Reply Message) (msg : Message)
    (s : MessageState)
    → get s.reply_target_cache id ≡ some msg
    → ensure_reply_target id later again s ≡ s
unfolding ensure_reply_target needs_reply_target
skip_cached id later again msg s h = ground arith

module _ (id : String) (meanwhile : MessageState → MessageState) (s : MessageState)
    (asks : needs_reply_target id s ≡ true) where
  settled_pending :
      (reply : Reply Message)
      → includes (ensure_reply_target id meanwhile reply s).pending_reply_fetches id ≡ false
  unfolding ensure_reply_target
  settled_pending reply = rw asks (not_pending id _)

  settled_cached :
      (msg : Message)
      → get (ensure_reply_target id meanwhile (ok msg) s).reply_target_cache id ≡ some msg
  unfolding ensure_reply_target
  settled_cached msg = rw asks (get-put_self _ id msg)

-- A call that asks ends with no request marked as out for the id, whatever happened meanwhile and
-- whatever the answer was; a message that came is cached, so that a later call does nothing.
ensure_reply_target_settles :
    (id : String) (meanwhile : MessageState → MessageState) (reply : Reply Message) (msg : Message)
    (later : MessageState → MessageState) (again : Reply Message) (s : MessageState)
    → needs_reply_target id s ≡ true
    → (includes (ensure_reply_target id meanwhile reply s).pending_reply_fetches id ≡ false)
      × (get (ensure_reply_target id meanwhile (ok msg) s).reply_target_cache id ≡ some msg)
      × (ensure_reply_target id later again (ensure_reply_target id meanwhile (ok msg) s)
          ≡ ensure_reply_target id meanwhile (ok msg) s)
ensure_reply_target_settles id meanwhile reply msg later again s h =
    let cached = settled_cached id meanwhile s h msg in
    (settled_pending id meanwhile s h reply, cached, skip_cached id later again msg _ cached)
