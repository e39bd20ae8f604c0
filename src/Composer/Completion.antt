-- ===== src/Composer/Completion.antt =====
-- MessageInput.tsx: what the choice of a mention or an emoji does to the text.
use together.Base.{
  ℕ, suc, ◌+◌, ◌≤◌, ◌≡◌, refl, sym, ap, ◌∙◌, Bool, true, false, not, none, some, List, [], ◌∷◌,
  ◌++◌, length, length-append, all, eqb, arith, reverse,
}
use together.Text.{
  slice_before, slice_from, last_index_of, is_word, is_letter, is_digit, match_back,
}
use together.Text.Matching.{match_back-EndsIn}
use together.Emoji.{colon, in_name}
use together.Emoji.Names.{in_name-colon}
use together.Composer.{
  Composer, at_sign, after_blank, anywhere, emoji_match, mention_match, apply_emoji, apply_mention,
  code_points,
}

slice_before-append : (xs ys : List ℕ) → slice_before (length xs) (xs ++ ys) ≡ xs
slice_before-append [] ys = refl
slice_before-append (x ∷ xs) ys = ap (λ t. x ∷ t) (slice_before-append xs ys)

last_index_of-none :
    (c : ℕ) (ys : List ℕ) → all (λ u. not (eqb u c)) ys ≡ true → last_index_of c ys ≡ none
unfolding last_index_of
last_index_of-none c [] h = refl
last_index_of-none c (y ∷ ys) h = ground (arith, last_index_of-none c ys, h)

last_index_of-mark :
    (c : ℕ) (xs ys : List ℕ)
    → all (λ u. not (eqb u c)) ys ≡ true
    → last_index_of c (xs ++ c ∷ ys) ≡ some (length xs)
unfolding last_index_of
last_index_of-mark c [] ys h = rw (last_index_of-none c ys h) (ground arith)
last_index_of-mark c (x ∷ xs) ys h = rw (last_index_of-mark c xs ys h) refl

-- A class that leaves the mark out.
class-no_mark :
    (word : ℕ → Bool) (c : ℕ) (query : List ℕ)
    → ((u : ℕ) → word u ≡ true → eqb u c ≡ false)
    → all word query ≡ true
    → all (λ u. not (eqb u c)) query ≡ true
class-no_mark word c [] k h = refl
class-no_mark word c (u ∷ query) k h = ground (arith, class-no_mark word c query k, k u, h)

is_word-at_sign : (u : ℕ) → is_word u ≡ true → eqb u at_sign ≡ false
unfolding is_word is_letter is_digit
is_word-at_sign u h = ground (arith, h)

-- Where the picker for mentions is open, the choice of a user puts the name and a blank in place of what was typed
-- after the last `@`, keeps the text before and after, and asks for the caret behind the blank.
pub apply_mention-completes :
    (cursor : ℕ) (username query : List ℕ) (s : Composer)
    → mention_match (slice_before cursor s.content) ≡ some query
    → let t = apply_mention cursor username s in
      (text : List ℕ) × (slice_before cursor s.content ≡ text ++ at_sign ∷ query)
      × (t.content ≡ text ++ (at_sign ∷ (username ++ 0x20 ∷ []) ++ slice_from cursor s.content))
      × (t.caret ≡ some (length (text ++ at_sign ∷ (username ++ 0x20 ∷ []))))
      × (t.mention_query ≡ none)
unfolding apply_mention mention_match
apply_mention-completes cursor username query s h =
    let e = match_back-EndsIn is_word at_sign after_blank (slice_before cursor s.content) query h in
    let found : last_index_of at_sign (slice_before cursor s.content) ≡ some (length e.beginning) =
      rw e.read (
        last_index_of-mark at_sign e.beginning query
          (class-no_mark is_word at_sign query is_word-at_sign e.in_class)) in
    let kept : slice_before (length e.beginning) (slice_before cursor s.content) ≡ e.beginning =
      rw e.read (slice_before-append e.beginning (at_sign ∷ query)) in
    (
      e.beginning,
      e.read,
      rw (found, kept) refl,
      rw found (ap some (sym (length-append e.beginning (at_sign ∷ (username ++ 0x20 ∷ []))))),
      refl,
    )

emoji_match-query :
    (before query : List ℕ)
    → emoji_match before ≡ some query
    → match_back in_name colon anywhere (reverse before) [] ≡ some query
unfolding emoji_match
emoji_match-query before query h = ground (arith, h)

-- Where the picker for emoji is open, the choice of one puts it in place of the colon and what was typed after it,
-- keeps the text before and after, and asks for the caret as many units behind the text before as the emoji has code
-- points.
pub apply_emoji-completes :
    (cursor : ℕ) (emoji query : List ℕ) (s : Composer)
    → emoji_match (slice_before cursor s.content) ≡ some query
    → let t = apply_emoji cursor emoji s in
      (text : List ℕ) × (slice_before cursor s.content ≡ text ++ colon ∷ query)
      × (t.content ≡ text ++ (emoji ++ slice_from cursor s.content))
      × (t.caret ≡ some (length text + code_points emoji))
      × (t.emoji_query ≡ none)
unfolding apply_emoji
apply_emoji-completes cursor emoji query s h =
    let before = slice_before cursor s.content in
    let e =
      match_back-EndsIn in_name colon anywhere before query (emoji_match-query before query h) in
    let found : last_index_of colon before ≡ some (length e.beginning) = rw e.read (
      last_index_of-mark colon e.beginning query
        (class-no_mark in_name colon query in_name-colon e.in_class)) in
    let kept : slice_before (length e.beginning) before ≡ e.beginning =
      rw e.read (slice_before-append e.beginning (colon ∷ query)) in
    (e.beginning, e.read, rw (found, kept) refl, rw found refl, refl)

between :
    (text : List ℕ) (c : ℕ) (after : List ℕ)
    → slice_before (suc (length text)) (text ++ c ∷ after) ≡ text ++ c ∷ []
between [] c after = refl
between (x ∷ text) c after = ap (λ t. x ∷ t) (between text c after)

code_points-pair :
    (hi lo : ℕ)
    → (0xd800 ≤ hi) × (hi ≤ 0xdbff)
    → (0xdc00 ≤ lo) × (lo ≤ 0xdfff)
    → code_points (hi ∷ lo ∷ []) ≡ 1
unfolding code_points
code_points-pair hi lo h k = ground (arith, h, k)

-- The choice of an emoji that is one code point in two units asks for a caret between the two: the text up to the
-- caret ends with the first of them.
emoji_caret_splits_pair :
    (cursor hi lo : ℕ) (query : List ℕ) (s : Composer)
    → (0xd800 ≤ hi) × (hi ≤ 0xdbff)
    → (0xdc00 ≤ lo) × (lo ≤ 0xdfff)
    → emoji_match (slice_before cursor s.content) ≡ some query
    → let t = apply_emoji cursor (hi ∷ lo ∷ []) s in
      (text : List ℕ) × (pos : ℕ) × (t.caret ≡ some pos)
      × (t.content ≡ text ++ hi ∷ lo ∷ slice_from cursor s.content)
      × (slice_before pos t.content ≡ text ++ hi ∷ [])
emoji_caret_splits_pair cursor hi lo query s h k m =
    let (text, read, content, caret, _) = apply_emoji-completes cursor (hi ∷ lo ∷ []) query s m in
    let after = slice_from cursor s.content in
    (
      text,
      suc (length text),
      caret ∙ ap some (ap (λ n. length text + n) (code_points-pair hi lo h k) ∙ omega arith),
      content,
      rw content (between text hi (lo ∷ after)),
    )
