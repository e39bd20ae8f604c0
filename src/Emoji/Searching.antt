-- ===== src/Emoji/Searching.antt =====
-- emoji.ts: the search.
use together.Base.{
  refl, Bool, any, get_or, ℕ, ◌-◌, ◌<◌, ◌≡◌, sym, ap, ◌∙◌, true, false, List, [], ◌∷◌, ◌++◌, map,
  length, length-append, take, take-all, take-append_length, take-append-le, take-append-take,
  filter-append, filter, leb, arith, Bool-cases, inl, inr,
}
use mathlib.Core.List.{append-nil, append_assoc}
use together.Text.{includes_text}
use together.Emoji.Entries.{EmojiEntry, EmojiCategory}
use together.Emoji.{
  Found, matches_query, search_entries, search_categories, CustomName, custom_entry, search_custom,
  search_emoji, search_all_emoji,
}

-- All entries of a table.
abbrev pub entries : List EmojiCategory → List EmojiEntry
entries [] = []
entries (c ∷ cs) = c.emojis ++ entries cs

-- The names of an entry: its own and its aliases.
abbrev pub names_of : EmojiEntry → List (List ℕ)
names_of e = e.name ∷ get_or e.aliases []

-- Whether a name of the entry holds the query.
abbrev pub is_named : List ℕ → EmojiEntry → Bool
is_named q e = any (λ name. includes_text name q) (names_of e)

-- What a loop has found that stops at the limit: the first matches, and whether the limit is met.
abbrev Finds : ℕ → List EmojiEntry → Found → Type 0
Finds limit all_found f = (f.0 ≡ take limit all_found) × (f.1 ≡ leb limit (length all_found))

-- The custom emoji whose names match, as entries.
abbrev pub custom_matches : List ℕ → List CustomName → List EmojiEntry
custom_matches q ces = map custom_entry (filter (λ ce. includes_text ce.name q) ces)

module _ (limit : ℕ) where
  Finds-none :
      (results : List EmojiEntry)
      → length results < limit
      → Finds limit (results ++ []) (results, false)
  Finds-none results h =
      let e = append-nil results in
      (
        sym (ap (take limit) e ∙ take-all limit results (omega arith)),
        ground (arith, h, ap length e),
      )

  Finds-last :
      (results rest : List EmojiEntry) (e : EmojiEntry)
      → length results < limit
      → leb limit (length (results ++ e ∷ [])) ≡ true
      → Finds limit (results ++ e ∷ rest) (results ++ e ∷ [], true)
  Finds-last results rest e h full =
      let n : length (results ++ e ∷ []) ≡ limit =
        ground (arith, length-append results (e ∷ []), h, full) in
      (
        sym (
            ap (take limit) (sym (append_assoc results (e ∷ []) rest))
            ∙ take-append_length limit (results ++ e ∷ []) rest n),
        ground (arith, h, full, length-append results (e ∷ rest), length-append results (e ∷ [])),
      )

  search_entries-Finds :
      (q : List ℕ) (es results : List EmojiEntry)
      → length results < limit
      → Finds limit (results ++ filter (matches_query q) es) (search_entries q limit es results)
  unfolding search_entries
  search_entries-Finds q [] results h = Finds-none results h
  search_entries-Finds q (e ∷ es) results h = elim (Bool-cases (matches_query q e)) [
    | inr misses ↦ rw misses (search_entries-Finds q es results h)
    | inl hits ↦ ground (
      arith,
      hits,
      Finds-last results (filter (matches_query q) es) e h,
      search_entries-Finds q es (results ++ e ∷ []),
      append_assoc results (e ∷ []) (filter (matches_query q) es),
    )
  ]

  search_custom-Finds :
      (q : List ℕ) (ces : List CustomName) (results : List EmojiEntry)
      → length results < limit
      → Finds limit (results ++ custom_matches q ces) (search_custom q limit ces results)
  unfolding search_custom
  search_custom-Finds q [] results h = Finds-none results h
  search_custom-Finds q (ce ∷ ces) results h = elim (Bool-cases (includes_text ce.name q)) [
    | inr misses ↦ rw misses (search_custom-Finds q ces results h)
    | inl hits ↦ ground (
      arith,
      hits,
      Finds-last results (custom_matches q ces) (custom_entry ce) h,
      search_custom-Finds q ces (results ++ custom_entry ce ∷ []),
      append_assoc results (custom_entry ce ∷ []) (custom_matches q ces),
    )
  ]

  search_categories-take :
      (q : List ℕ) (cs : List EmojiCategory) (results : List EmojiEntry)
      → length results < limit
      → search_categories q limit cs results
        ≡ take limit (results ++ filter (matches_query q) (entries cs))
  unfolding search_categories
  search_categories-take q [] results h = (Finds-none results h).0
  search_categories-take q (c ∷ cs) results h =
      let here = filter (matches_query q) c.emojis in
      let later = filter (matches_query q) (entries cs) in
      let f = search_entries-Finds q c.emojis results h in
      let split : results ++ filter (matches_query q) (entries (c ∷ cs))
          ≡ (results ++ here) ++ later =
        ap (λ t. results ++ t) (filter-append (matches_query q) c.emojis (entries cs))
        ∙ sym (append_assoc results here later) in
      ground (
        arith,
        f,
        ap (take limit) split,
        take-append-le limit (results ++ here) later,
        take-all limit (results ++ here),
        search_categories-take q cs (results ++ here),
      )

matches-named :
    (q : List ℕ) (es : List EmojiEntry) → filter (matches_query q) es ≡ filter (is_named q) es
unfolding matches_query
matches-named q [] = refl
matches-named q (e ∷ es) = ground (arith, matches-named q es)

-- `searchAllEmoji` with room for a result gives the first of all that match: of the custom emoji first, by their names, then of
-- the table in its order, each entry by any of its names. The query is put in lower case for the custom emoji, and once
-- more for the table.
pub search_all_emoji-take :
    (limit : ℕ) (to_lower_case : List ℕ → List ℕ) (categories : List EmojiCategory) (query : List ℕ)
    (custom_emojis : List CustomName)
    → 0 < limit
    → search_all_emoji to_lower_case categories query custom_emojis limit
      ≡ take limit (
          custom_matches (to_lower_case query) custom_emojis
          ++ filter (is_named (to_lower_case (to_lower_case query))) (entries categories))
unfolding search_all_emoji search_emoji
search_all_emoji-take limit to_lower_case categories query custom_emojis h =
    let q = to_lower_case query in
    let custom = custom_matches q custom_emojis in
    let twice = to_lower_case q in
    let standard = filter (matches_query twice) (entries categories) in
    ground (
      arith,
      search_custom-Finds limit q custom_emojis [] h,
      take-append-le limit custom standard,
      take-all limit custom,
      take-append-take limit custom standard,
      search_categories-take (limit - length custom) twice categories [],
    )
    ∙ ap (λ es. take limit (custom ++ es)) (matches-named twice (entries categories))
