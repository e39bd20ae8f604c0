-- ===== src/Emoji.antt =====
-- clients/web/src/utils/emoji.ts: names of emoji in a text, and the search. Texts are lists of UTF-16 code units;
-- `to_lower_case` is the method of String.
pub mod Entries
pub mod Table
pub mod Names
pub mod Searching
pub mod Reachable
use together.Base.{
  ℕ, ◌-◌, String, Bool, true, false, ◌&&◌, ◌||◌, Option, none, some, List, [], ◌∷◌, ◌++◌, reverse,
  if◌then◌else◌, eqb, leb, any, get_or, length, take,
}
use together.Text.{same_text, includes_text, is_letter, is_digit, slice_before}
use together.Emoji.Entries.{EmojiEntry, EmojiCategory}

-- A Map that is only written by `set` and read by `get`: the latest pair stands first.
abbrev pub TextMap : Type 0
TextMap = List (List ℕ × List ℕ)

unfoldable pub map_get : TextMap → List ℕ → Option (List ℕ)
map_get [] k = none
map_get ((j, v) ∷ m) k = if same_text j k then some v else map_get m k

abbrev pub set_all : List (List ℕ) → List ℕ → TextMap → TextMap
set_all [] emoji m = m
set_all (k ∷ ks) emoji m = set_all ks emoji ((k, emoji) ∷ m)

-- The loops that fill NAME_TO_EMOJI.
pub add_entries : List EmojiEntry → TextMap → TextMap
add_entries [] m = m
add_entries (e ∷ es) m =
    add_entries es (set_all (get_or e.aliases []) e.emoji ((e.name, e.emoji) ∷ m))

pub add_categories : List EmojiCategory → TextMap → TextMap
add_categories [] m = m
add_categories (c ∷ cs) m = add_categories cs (add_entries c.emojis m)

unfoldable pub name_to_emoji : List EmojiCategory → TextMap
unfolding add_categories add_entries
name_to_emoji categories = add_categories categories []

abbrev pub colon : ℕ
colon = 0x3a

-- [a-zA-Z0-9_+-]
unfoldable pub in_name : ℕ → Bool
in_name c = is_letter c || is_digit c || eqb c 0x5f || eqb c 0x2b || eqb c 0x2d

-- What a match is replaced by.
abbrev pub emoji_or_match : TextMap → List ℕ → List ℕ
emoji_or_match names name = get_or (map_get names name) (colon ∷ name ++ colon ∷ [])

-- text.replace(/:([a-zA-Z0-9_+-]+):/g, …), unit by unit: what is held back, read backwards, are the units since a
-- colon that may open a match; each unit gives what is held back next, and what goes out.
unfoldable pub next_unit : TextMap → Option (List ℕ) → ℕ → Option (List ℕ) × List ℕ
next_unit names none c = if eqb c colon then (some [], []) else (none, c ∷ [])
next_unit names (some []) c =
    if eqb c colon
    then (some [], colon ∷ [])
    else if in_name c
    then (some (c ∷ []), [])
    else (none, colon ∷ c ∷ [])
next_unit names (some (d ∷ opened)) c =
    if eqb c colon
    then (none, emoji_or_match names (reverse (d ∷ opened)))
    else if in_name c
    then (some (c ∷ d ∷ opened), [])
    else (none, colon ∷ reverse (d ∷ opened) ++ c ∷ [])

unfoldable pub replace_names : TextMap → Option (List ℕ) → List ℕ → List ℕ
unfolding next_unit
replace_names names none [] = []
replace_names names (some opened) [] = colon ∷ reverse opened
replace_names names held (c ∷ text) =
    let (held', out) = next_unit names held c in out ++ replace_names names held' text

unfoldable pub parse_emoji : List EmojiCategory → List ℕ → List ℕ
unfolding replace_names
parse_emoji categories text = replace_names (name_to_emoji categories) none text

unfoldable pub matches_query : List ℕ → EmojiEntry → Bool
matches_query q e = includes_text e.name q || any (λ a. includes_text a q) (get_or e.aliases [])

-- A loop that may return: what it has found so far, and whether it returned.
abbrev pub Found : Type 0
Found = List EmojiEntry × Bool

unfoldable pub search_entries : List ℕ → ℕ → List EmojiEntry → List EmojiEntry → Found
search_entries q limit [] results = (results, false)
search_entries q limit (e ∷ es) results =
    let found = results ++ e ∷ [] in
    let further = search_entries q limit es found in
    let passed = search_entries q limit es results in
    if matches_query q e
    then (if leb limit (length found) then (found, true) else further)
    else passed

unfoldable pub search_categories :
    List ℕ → ℕ → List EmojiCategory → List EmojiEntry → List EmojiEntry
search_categories q limit [] results = results
search_categories q limit (c ∷ cs) results =
    let (found, returned) = search_entries q limit c.emojis results in
    if returned then found else search_categories q limit cs found

pub record CustomName : Type 0 where
  pub id : String
  pub name : List ℕ
  pub url : String

abbrev pub custom_entry : CustomName → EmojiEntry
custom_entry ce = record {
  emoji = colon ∷ ce.name ++ colon ∷ [];
  name = ce.name;
  aliases = none;
  image_url = some ce.url;
  custom_emoji_id = some ce.id;
}

unfoldable pub search_custom : List ℕ → ℕ → List CustomName → List EmojiEntry → Found
search_custom q limit [] results = (results, false)
search_custom q limit (ce ∷ ces) results =
    let found = results ++ custom_entry ce ∷ [] in
    let further = search_custom q limit ces found in
    let passed = search_custom q limit ces results in
    if includes_text ce.name q
    then (if leb limit (length found) then (found, true) else further)
    else passed

module _ (to_lower_case : List ℕ → List ℕ) (categories : List EmojiCategory) where
  unfoldable pub search_emoji : List ℕ → ℕ → List EmojiEntry
  unfolding search_categories search_entries
  search_emoji query limit = search_categories (to_lower_case query) limit categories []

  unfoldable pub search_all_emoji : List ℕ → List CustomName → ℕ → List EmojiEntry
  unfolding search_custom
  search_all_emoji query custom_emojis limit =
      let q = to_lower_case query in
      let (results, returned) = search_custom q limit custom_emojis [] in
      if returned then results else take limit (results ++ search_emoji q (limit - length results))
