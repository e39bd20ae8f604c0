-- ===== src/Emojis/Loading.antt =====
-- customEmojiStore.ts: events against loading.
use together.Base.{
  String, ◌≡◌, not, ◌&&◌, ◌||◌, none, List, [], ◌∷◌, arith, ◌==◌, eq_iff, has_id, any-append,
  has_id-remove_id, get_or, ◌++◌, remove_id, Reply,
}
use together.Base.Dict.{get, get-put, get-put_self}
use together.Emojis.{
  EmojiState, CustomEmoji, emoji_key, get_emojis, load_emojis, add_emoji, remove_emoji,
}

has_id-add_emoji :
    (e : CustomEmoji) (other_server other : String) (s : EmojiState)
    → has_id emoji_key other (get_emojis other_server (add_emoji e s)) ≡ (
        e.server_id == other_server && e.id == other
        || has_id emoji_key other (get_emojis other_server s))
unfolding get_emojis add_emoji
has_id-add_emoji e other_server other s =
    let current = get_or (get s.emojis e.server_id) [] in
    ground (
      arith,
      get-put s.emojis e.server_id (current ++ e ∷ []) other_server,
      any-append (λ x. x.id == other) current (e ∷ []),
      eq_iff e.server_id other_server,
      eq_iff e.id other,
    )

has_id-remove_emoji :
    (server id other_server other : String) (s : EmojiState)
    → has_id emoji_key other (get_emojis other_server (remove_emoji server id s)) ≡ (
        not (server == other_server && id == other)
        && has_id emoji_key other (get_emojis other_server s))
unfolding get_emojis remove_emoji
has_id-remove_emoji server id other_server other s =
    let current = get_or (get s.emojis server) [] in
    ground (
      arith,
      get-put s.emojis server (remove_id emoji_key id current) other_server,
      has_id-remove_id emoji_key other id current,
      eq_iff server other_server,
    )

-- What is there after the events of an emoji: after its creation it is in its server, after its deletion
-- it is not, and each other emoji, of this or of another server, is there exactly if it was.
emoji_events :
    (e : CustomEmoji) (server id other_server other : String) (s : EmojiState)
    → (has_id emoji_key other (get_emojis other_server (add_emoji e s)) ≡ (
        e.server_id == other_server && e.id == other
        || has_id emoji_key other (get_emojis other_server s)))
      × (has_id emoji_key other (get_emojis other_server (remove_emoji server id s)) ≡ (
          not (server == other_server && id == other)
          && has_id emoji_key other (get_emojis other_server s)))
emoji_events e server id other_server other s =
    (has_id-add_emoji e other_server other s, has_id-remove_emoji server id other_server other s)

-- The creation of an emoji in a server whose emojis are not loaded yet keeps them from being loaded: the later
-- `loadEmojis` does nothing, and the server's list is that one emoji.
event_blocks_loading :
    (e : CustomEmoji) (meanwhile : EmojiState → EmojiState) (reply : Reply (List CustomEmoji))
    (s : EmojiState)
    → get s.emojis e.server_id ≡ none
    → get_emojis e.server_id (load_emojis e.server_id meanwhile reply (add_emoji e s)) ≡ e ∷ []
unfolding get_emojis add_emoji load_emojis
event_blocks_loading e meanwhile reply s h =
    ground (arith, get-put_self s.emojis e.server_id (e ∷ []))
