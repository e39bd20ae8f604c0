-- ===== src/Emoji/Reachable.antt =====
-- emoji.ts: every name in the table.
use mathlib.Core.List.{Memᴰ}
use together.Base.{ℕ, ◌≡◌, refl, ap, ◌∙◌, Bool, true, none, List, [], ◌∷◌, ◌++◌, all, get_or, arith}
use together.Text.{same_text, units, encode, is_letter, is_digit}
use together.Emoji.{
  TextMap, colon, name_to_emoji, add_categories, add_entries, in_name, map_get, replace_names,
  next_unit, parse_emoji,
}
use together.Emoji.Entries.{EmojiEntry}
use together.Emoji.Table.{emoji_categories}
use together.Emoji.Searching.{entries}

-- A name between colons.
abbrev pub between_colons : List ℕ → List ℕ
between_colons name = colon ∷ (name ++ colon ∷ [])

-- The names under which an entry stands in the table.
abbrev pub names_of : EmojiEntry → List (List ℕ)
names_of e = e.name ∷ get_or e.aliases []

leads_to : TextMap → EmojiEntry → Bool
leads_to names e =
    all (λ name. same_text (replace_names names none (between_colons name)) e.emoji) (names_of e)

all_lead : all (leads_to (name_to_emoji emoji_categories)) (entries emoji_categories) ≡ true
unfolding leads_to replace_names next_unit name_to_emoji add_categories add_entries map_get units
    encode in_name is_letter is_digit same_text
all_lead = refl

same_text-eq : (s t : List ℕ) → same_text s t ≡ true → s ≡ t
unfolding same_text
same_text-eq [] [] h = refl
same_text-eq [] (b ∷ t) h = absurd (ground (arith, h))
same_text-eq (a ∷ s) [] h = absurd (ground (arith, h))
same_text-eq (a ∷ s) (b ∷ t) h = ground (arith, same_text-eq s t, h)

all-Mem {ℓ} :
    {A : Type ℓ} (p : A → Bool) (x : A) (xs : List A) → Memᴰ x xs → all p xs ≡ true → p x ≡ true
all-Mem p x [] m h = elim m [ ]
all-Mem p x (y ∷ ys) (Memᴰ.head e) h = ap p e ∙ ground (arith, h)
all-Mem p x (y ∷ ys) (Memᴰ.tail m) h = all-Mem p x ys m (ground (arith, h))

-- Each name and each alias of each entry of the table, between colons, is replaced by the emoji of its entry, although
-- some names stand in the table twice.
pub table-parse_emoji :
    (e : EmojiEntry) (name : List ℕ)
    → Memᴰ e (entries emoji_categories)
    → Memᴰ name (names_of e)
    → parse_emoji emoji_categories (between_colons name) ≡ e.emoji
unfolding parse_emoji leads_to
table-parse_emoji e name in_table of_entry =
    let names = name_to_emoji emoji_categories in
    same_text-eq (replace_names names none (between_colons name)) e.emoji (
      all-Mem (λ n. same_text (replace_names names none (between_colons n)) e.emoji) name
        (names_of e) of_entry
        (all-Mem (leads_to names) e (entries emoji_categories) in_table all_lead))
