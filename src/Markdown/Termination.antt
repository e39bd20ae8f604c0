-- ===== src/Markdown/Termination.antt =====
-- markdown.ts: parseMarkdown comes to an end.
use together.Base.{
  ℕ, zero, suc, ◌+◌, ◌*◌, ◌≤◌, ◌≡◌, refl, Bool, true, false, Option, none, some, List, [], ◌∷◌,
  ◌++◌, length, is_some, arith,
}
use together.Markdown.{
  Segments, Placeholder, and_then, parse_unless_empty, quote_and_rest, parse_inner, parse_markdown,
  parse_quote, parse_marked, parse_placeholder, nil, cons, blockquote, marked, text_unless_empty,
  found_segments, join, extract, code_block_segment, code_inline_segment,
}
use together.Markdown.Patterns.{
  first_match, placeholder_here, first_marker, quoted_line, split_lines, join_lines, split_quote,
  placeholder_mark, Marked,
}
use together.Markdown.Shrinking.{match_size, marked_size, first_placeholder-size, first_marker-size}
use together.Markdown.Lines.{split_quote-lt}

abbrev Ends : Option Segments → Type 0
Ends o = is_some o ≡ true

and_then-Ends :
    (o : Option Segments) (f : Segments → Option Segments)
    → Ends o
    → ((a : Segments) → Ends (f a))
    → Ends (and_then o f)
and_then-Ends none f h k = h
and_then-Ends (some a) f h k = k a

-- Two for each unit, and one more before the loop than in it.
abbrev needed : Bool → List ℕ → ℕ
needed true s = length s * 2 + 2
needed false s = length s * 2 + 1

module _ (n : ℕ) (parse loop : List ℕ → Option Segments)
    (parses : (s : List ℕ) → needed true s ≤ n → Ends (parse s))
    (loops : (s : List ℕ) → needed false s ≤ n → Ends (loop s)) where
  parse_unless_empty-Ends :
      (s : List ℕ) → needed true s ≤ n → Ends (parse_unless_empty parse loop s)
  parse_unless_empty-Ends [] h = refl
  parse_unless_empty-Ends (c ∷ s) h = parses (c ∷ s) h

  quote_and_rest-Ends :
      (rest : List (List ℕ)) (inner : Segments)
      → needed true (join_lines rest) ≤ n
      → Ends (quote_and_rest parse loop rest inner)
  quote_and_rest-Ends [] inner h = refl
  quote_and_rest-Ends (l ∷ ls) inner h =
      and_then-Ends (parse (join_lines (l ∷ ls))) (λ others. some (cons (blockquote inner) others))
        (parses (join_lines (l ∷ ls)) h) (λ _. refl)

  parse_quote-Ends :
      (s : List ℕ) (found : Option (List ℕ))
      → quoted_line s ≡ found
      → needed true s ≤ suc n
      → Ends (parse_quote parse loop s found)
  parse_quote-Ends s none e h = loops s (omega (arith, h))
  parse_quote-Ends s (some rest) e h =
      let (quote_lt, rest_lt) = split_quote-lt s rest e in
      let parts = split_quote (split_lines s) in
      and_then-Ends (parse (join_lines parts.0)) (quote_and_rest parse loop parts.1)
        (parses (join_lines parts.0) (omega (arith, h, quote_lt)))
        (λ inner. quote_and_rest-Ends parts.1 inner (omega (arith, h, rest_lt)))

  parse_marked-Ends :
      (s : List ℕ) (found : Marked)
      → marked_size found ≤ length s
      → needed false s ≤ suc n
      → Ends (parse_marked parse loop s found)
  parse_marked-Ends s none e h = refl
  parse_marked-Ends s (some (marker, before, inner, after)) e h =
      and_then-Ends (parse inner)
        (λ content.
          and_then (loop after)
            (λ later. some (text_unless_empty before (cons (marked marker content) later))))
        (parses inner (omega (arith, h, e)))
        (λ content.
          and_then-Ends (loop after)
            (λ later. some (text_unless_empty before (cons (marked marker content) later)))
            (loops after (omega (arith, h, e))) (λ _. refl))

  parse_placeholder-Ends :
      (placeholders : List Placeholder) (s : List ℕ) (found : Option (List ℕ × List ℕ × List ℕ))
      → match_size found ≤ length s
      → needed false s ≤ suc n
      → Ends (parse_placeholder parse loop placeholders s found)
  parse_placeholder-Ends placeholders s none e h =
      parse_marked-Ends s (first_marker s) (first_marker-size s) h
  parse_placeholder-Ends placeholders s (some (before, digits, after)) e h =
      let id = placeholder_mark ++ (digits ++ 0xe000 ∷ []) in
      let code = found_segments placeholders id in
      and_then-Ends (parse_unless_empty parse loop before)
        (λ earlier. and_then (loop after) (λ later. some (join earlier (join code later))))
        (parse_unless_empty-Ends before (omega (arith, h, e)))
        (λ earlier.
          and_then-Ends (loop after) (λ later. some (join earlier (join code later)))
            (loops after (omega (arith, h, e))) (λ _. refl))

pub parse_inner-Ends :
    (placeholders : List Placeholder) (n : ℕ) (at_start : Bool) (s : List ℕ)
    → needed at_start s ≤ n
    → Ends (parse_inner placeholders n at_start s)
unfolding parse_inner
parse_inner-Ends placeholders zero true s h = absurd (omega (arith, h))
parse_inner-Ends placeholders zero false s h = absurd (omega (arith, h))
parse_inner-Ends placeholders (suc n) true s h =
    parse_quote-Ends n (parse_inner placeholders n true) (parse_inner placeholders n false)
      (parse_inner-Ends placeholders n true) (parse_inner-Ends placeholders n false) s
      (quoted_line s) refl h
parse_inner-Ends placeholders (suc n) false [] h = refl
parse_inner-Ends placeholders (suc n) false (c ∷ s) h =
    parse_placeholder-Ends n (parse_inner placeholders n true) (parse_inner placeholders n false)
      (parse_inner-Ends placeholders n true) (parse_inner-Ends placeholders n false) placeholders
      (c ∷ s) (first_match placeholder_here (c ∷ s)) (first_placeholder-size (c ∷ s)) h

pub given : (o : Option Segments) → Ends o → (segments : Segments) × (o ≡ some segments)
given none h = absurd (ground (arith, h))
given (some a) h = (a, refl)

-- `parseMarkdown` comes to an end on every text and gives a list of segments: each pass of `parseInner`, its loop and its
-- calls of itself included, is over a shorter text.
pub parse_markdown-Ends :
    (text : List ℕ) → (segments : Segments) × (parse_markdown text ≡ some segments)
unfolding parse_markdown
parse_markdown-Ends [] = (nil, refl)
parse_markdown-Ends (c ∷ s) =
    let (without_blocks, blocks) = extract code_block_segment 0 0 (c ∷ s) in
    let (working, inlines) = extract code_inline_segment 0 (length blocks) without_blocks in
    given (parse_inner (blocks ++ inlines) (length working * 2 + 2) true working)
      (parse_inner-Ends (blocks ++ inlines) (length working * 2 + 2) true working (omega arith))
