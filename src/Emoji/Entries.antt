-- ===== src/Emoji/Entries.antt =====
-- clients/web/src/utils/emoji.ts: an entry of the table of emoji.
use together.Base.{ℕ, String, Option, none, some, List, map}
use together.Text.{units}

pub record EmojiEntry : Type 0 where
  pub emoji : List ℕ
  pub name : List ℕ
  pub aliases : Option (List (List ℕ))
  pub image_url : Option String
  pub custom_emoji_id : Option String

pub record EmojiCategory : Type 0 where
  pub label : String
  pub icon : String
  pub emojis : List EmojiEntry

-- An entry as it is written in the table, without and with aliases.
abbrev pub entry : String → String → EmojiEntry
entry emoji name = record {
  emoji = units emoji;
  name = units name;
  aliases = none;
  image_url = none;
  custom_emoji_id = none;
}

abbrev pub aliased : String → String → List String → EmojiEntry
aliased emoji name aliases = record {
  emoji = units emoji;
  name = units name;
  aliases = some (map units aliases);
  image_url = none;
  custom_emoji_id = none;
}
