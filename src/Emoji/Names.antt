-- ===== src/Emoji/Names.antt =====
-- emoji.ts: names between colons.
use together.Base.{
  ℕ, ◌≡◌, refl, ap, ◌∙◌, true, false, not, none, some, List, [], ◌∷◌, ◌++◌, all, eqb, arith,
}
use mathlib.Core.List.{reverse_aux}
use together.Text.{is_letter, is_digit}
use together.Emoji.{
  TextMap, colon, in_name, emoji_or_match, next_unit, replace_names, name_to_emoji, parse_emoji,
}
use together.Emoji.Entries.{EmojiCategory}

pub in_name-colon : (c : ℕ) → in_name c ≡ true → eqb c colon ≡ false
unfolding in_name is_letter is_digit
in_name-colon c h = ground (arith, h)

-- Before a colon, units go out as they are.
replace_names-plain :
    (names : TextMap) (text rest : List ℕ)
    → all (λ c. not (eqb c colon)) text ≡ true
    → replace_names names none (text ++ rest) ≡ text ++ replace_names names none rest
unfolding replace_names next_unit
replace_names-plain names [] rest h = refl
replace_names-plain names (c ∷ text) rest h = ground (arith, replace_names-plain names text rest, h)

next_unit-in_name :
    (names : TextMap) (d c : ℕ) (opened : List ℕ)
    → in_name c ≡ true
    → next_unit names (some (d ∷ opened)) c ≡ (some (c ∷ d ∷ opened), [])
unfolding next_unit
next_unit-in_name names d c opened h = rw (in_name-colon c h, h) refl

-- From the second unit of a name to its closing colon.
replace_names-rest :
    (names : TextMap) (d : ℕ) (opened name rest : List ℕ)
    → all in_name name ≡ true
    → replace_names names (some (d ∷ opened)) (name ++ colon ∷ rest)
      ≡ emoji_or_match names (reverse_aux (d ∷ opened) name) ++ replace_names names none rest
unfolding replace_names next_unit
replace_names-rest names d opened [] rest h = refl
replace_names-rest names d opened (c ∷ name) rest h =
    let here : in_name c ≡ true = ground (arith, h) in
    let later : all in_name name ≡ true = ground (arith, h) in
    rw (in_name-colon c here, here) (replace_names-rest names c (d ∷ opened) name rest later)

next_unit-first :
    (names : TextMap) (c : ℕ) → in_name c ≡ true → next_unit names (some []) c ≡ (some (c ∷ []), [])
unfolding next_unit
next_unit-first names c h = rw (in_name-colon c h, h) refl

-- A name between colons, after a text without colons, is replaced by its emoji, or stays if there is none; what
-- follows the closing colon is read by itself.
parse_emoji-name :
    (categories : List EmojiCategory) (before : List ℕ) (c : ℕ) (name rest : List ℕ)
    → all (λ u. not (eqb u colon)) before ≡ true
    → all in_name (c ∷ name) ≡ true
    → parse_emoji categories (before ++ colon ∷ c ∷ (name ++ colon ∷ rest))
      ≡ before
        ++ (emoji_or_match (name_to_emoji categories) (c ∷ name) ++ parse_emoji categories rest)
unfolding parse_emoji replace_names next_unit
parse_emoji-name categories before c name rest h n =
    let names = name_to_emoji categories in
    let here : in_name c ≡ true = ground (arith, n) in
    let later : all in_name name ≡ true = ground (arith, n) in
    replace_names-plain names before (colon ∷ c ∷ (name ++ colon ∷ rest)) h
    ∙ ap (λ t. before ++ t)
        (rw (in_name-colon c here, here) (replace_names-rest names c [] name rest later))
