-- ===== src/Emoji/Table.antt =====
-- clients/web/src/utils/emoji.ts: EMOJI_CATEGORIES.
pub mod Smileys
pub mod People
pub mod Animals
pub mod Food
pub mod Travel
pub mod Activities
pub mod Objects
pub mod Symbols
use together.Base.{List, [], ◌∷◌}
use together.Emoji.Entries.{EmojiCategory}
use together.Emoji.Table.Smileys.{smileys}
use together.Emoji.Table.People.{people}
use together.Emoji.Table.Animals.{animals}
use together.Emoji.Table.Food.{food}
use together.Emoji.Table.Travel.{travel}
use together.Emoji.Table.Activities.{activities}
use together.Emoji.Table.Objects.{objects}
use together.Emoji.Table.Symbols.{symbols}

abbrev pub emoji_categories : List EmojiCategory
emoji_categories = smileys ∷ people ∷ animals ∷ food ∷ travel ∷ activities ∷ objects ∷ symbols ∷ []
