-- ===== src/Emojis.antt =====
-- clients/web/src/stores/customEmojiStore.ts: the custom emojis of each server, loaded once.
pub mod Loading
use together.Base.{
  ℕ, String, Option, none, some, List, [], ◌∷◌, ◌++◌, if◌then◌else◌, has_id, remove_id, get_or,
  Reply, ok, failed,
}
use together.Base.Dict.{Dict, get, put}

pub record CustomEmoji : Type 0 where
  pub id : String
  pub server_id : String
  pub created_by : String
  pub name : String
  pub url : String
  pub content_type : String
  pub file_size : ℕ
  pub created_at : String

pub record EmojiState : Type 0 where
  pub emojis : Dict (List CustomEmoji)

abbrev pub emoji_key : CustomEmoji → String
emoji_key e = e.id

unfoldable pub get_emojis : String → EmojiState → List CustomEmoji
get_emojis server_id s = get_or (get s.emojis server_id) []

-- A failure is only logged.
unfoldable pub refresh_emojis :
    String
    → (meanwhile : EmojiState → EmojiState) → Reply (List CustomEmoji)
    → EmojiState
    → EmojiState
refresh_emojis server_id meanwhile (ok list) s =
    let s' = meanwhile s in record { emojis = put s'.emojis server_id list }
refresh_emojis server_id meanwhile (failed err) s = meanwhile s

unfoldable pub load_emojis :
    String
    → (meanwhile : EmojiState → EmojiState) → Reply (List CustomEmoji)
    → EmojiState
    → EmojiState
unfolding refresh_emojis
load_emojis server_id meanwhile reply s = elim (get s.emojis server_id) [
  | none ↦ refresh_emojis server_id meanwhile reply s
  | some list ↦ s
]

unfoldable pub add_emoji : CustomEmoji → EmojiState → EmojiState
add_emoji emoji s =
    let current = get_or (get s.emojis emoji.server_id) [] in
    if has_id emoji_key emoji.id current
    then s
    else record { emojis = put s.emojis emoji.server_id (current ++ emoji ∷ []) }

unfoldable pub remove_emoji : String → String → EmojiState → EmojiState
remove_emoji server_id emoji_id s = elim (get s.emojis server_id) [
  | none ↦ s
  | some current ↦ record { emojis = put s.emojis server_id (remove_id emoji_key emoji_id current) }
]
