-- ===== src/Markdown.antt =====
-- clients/web/src/utils/markdown.ts: parseMarkdown, on UTF-16 code units. Code is cut out first and stands in the text
-- as placeholders; the rest is parsed by `parse_inner`. The global replacements of regular expressions are
-- recursions that skip what a match has taken.
pub mod Patterns
pub mod Shrinking
pub mod Lines
pub mod Termination
pub mod Precedence
pub mod Verbatim
use together.Base.{
  ℕ, zero, suc, ◌+◌, ◌-◌, ◌*◌, ◌/◌, ◌%◌, Bool, true, false, Option, none, some, List, [], ◌∷◌, ◌++◌,
  length, if◌then◌else◌, ltb,
}
use together.Text.{units, same_text}
use together.Markdown.Patterns.{
  Taken, Marked, first_match, code_block_here, code_inline_here, placeholder_here, placeholder_mark,
  Marker, first_marker, split_lines, join_lines, quoted_line, split_quote,
}

mutual
  pub data MarkdownSegment : Type 0 where
    text : List ℕ → MarkdownSegment
    marked : Marker → Segments → MarkdownSegment
    code_inline : List ℕ → MarkdownSegment
    code_block : (content lang : List ℕ) → MarkdownSegment
    blockquote : Segments → MarkdownSegment

  pub data Segments : Type 0 where
    nil : Segments
    cons : MarkdownSegment → Segments → Segments

unfoldable pub join : Segments → Segments → Segments
join nil ys = ys
join (cons x xs) ys = cons x (join xs ys)

-- The decimal digits of a number, with fuel; a number below 10 ^ fuel needs no more.
unfoldable pub decimal : ℕ → ℕ → List ℕ
decimal zero n = []
decimal (suc fuel) n =
    let higher = decimal fuel (n / 10) in
    if ltb n 10 then (0x30 + n) ∷ [] else higher ++ (0x30 + n % 10) ∷ []

-- What stands in the text for the code with this number.
unfoldable pub placeholder : ℕ → List ℕ
unfolding decimal
placeholder counter = placeholder_mark ++ (decimal (suc counter) counter ++ 0xe000 ∷ [])

abbrev pub Placeholder : Type 0
Placeholder = List ℕ × MarkdownSegment

-- text.replace(pattern, (…) => placeholder(…)): a match here, or the unit goes out; `skip` units are in a match
-- that has been replaced.
unfoldable pub extract :
    (List ℕ → Option (MarkdownSegment × List ℕ))
    → (skip counter : ℕ) → List ℕ
    → List ℕ × List Placeholder
unfolding placeholder
extract here skip counter [] = ([], [])
extract here (suc skip) counter (c ∷ s) = extract here skip counter s
extract here zero counter (c ∷ s) = elim (here (c ∷ s)) [
  | none ↦ (let (out, ps) = extract here zero counter s in (c ∷ out, ps))
  | some (segment, after) ↦
      (let (out, ps) = extract here (length s - length after) (suc counter) s in
        (placeholder counter ++ out, (placeholder counter, segment) ∷ ps))
]

abbrev pub code_block_segment : List ℕ → Option (MarkdownSegment × List ℕ)
code_block_segment s = elim (code_block_here s) [
  | none ↦ none
  | some (lang, body, after) ↦ some (code_block body lang, after)
]

abbrev pub code_inline_segment : List ℕ → Option (MarkdownSegment × List ℕ)
code_inline_segment s = elim (code_inline_here s) [
  | none ↦ none
  | some (body, after) ↦ some (code_inline body, after)
]

-- placeholders.find((p) => p.id === id), and what is pushed for it.
unfoldable pub found_segments : List Placeholder → List ℕ → Segments
found_segments [] id = nil
found_segments ((name, segment) ∷ ps) id =
    if same_text name id then cons segment nil else found_segments ps id

abbrev pub and_then : Option Segments → (Segments → Option Segments) → Option Segments
and_then none f = none
and_then (some a) f = f a

abbrev pub text_unless_empty : List ℕ → Segments → Segments
text_unless_empty [] rest = rest
text_unless_empty (c ∷ s) rest = cons (text (c ∷ s)) rest

-- The parts of `parseInner`, over `parse`, itself, and `loop`, its loop on what remains.
module _ (parse loop : List ℕ → Option Segments) where
  abbrev pub parse_unless_empty : List ℕ → Option Segments
  parse_unless_empty [] = some nil
  parse_unless_empty (c ∷ s) = parse (c ∷ s)

  -- A quote, and what the lines after it are parsed to, if there are any.
  abbrev pub quote_and_rest : List (List ℕ) → Segments → Option Segments
  quote_and_rest [] inner = some (cons (blockquote inner) nil)
  quote_and_rest (l ∷ ls) inner =
      and_then (parse (join_lines (l ∷ ls))) (λ others. some (cons (blockquote inner) others))

  -- Whether the text starts with a quote.
  abbrev pub parse_quote : List ℕ → Option (List ℕ) → Option Segments
  parse_quote s none = loop s
  parse_quote s (some _) =
      let (quote, rest) = split_quote (split_lines s) in
      and_then (parse (join_lines quote)) (quote_and_rest rest)

  -- The pattern that matches, if one does.
  abbrev pub parse_marked : List ℕ → Marked → Option Segments
  parse_marked s none = some (cons (text s) nil)
  parse_marked s (some (marker, before, inner, after)) = and_then (parse inner) (λ content.
      and_then (loop after)
        (λ later. some (text_unless_empty before (cons (marked marker content) later))))

  -- The first placeholder, if there is one.
  abbrev pub parse_placeholder :
      List Placeholder → List ℕ → Option (List ℕ × List ℕ × List ℕ) → Option Segments
  parse_placeholder placeholders s none = parse_marked s (first_marker s)
  parse_placeholder placeholders s (some (before, digits, after)) =
      and_then (parse_unless_empty before) (λ earlier. and_then (loop after) (λ later.
        let id = placeholder_mark ++ (digits ++ 0xe000 ∷ []) in
        some (join earlier (join (found_segments placeholders id) later))))

-- `parseInner`, and with `false` its loop. `none` is lack of fuel.
unfoldable pub parse_inner : List Placeholder → ℕ → Bool → List ℕ → Option Segments
unfolding found_segments join
parse_inner placeholders zero at_start s = none
parse_inner placeholders (suc n) true s =
    parse_quote (parse_inner placeholders n true) (parse_inner placeholders n false) s
      (quoted_line s)
parse_inner placeholders (suc n) false [] = some nil
parse_inner placeholders (suc n) false (c ∷ s) =
    parse_placeholder (parse_inner placeholders n true) (parse_inner placeholders n false)
      placeholders (c ∷ s) (first_match placeholder_here (c ∷ s))

unfoldable pub parse_markdown : List ℕ → Option Segments
unfolding extract parse_inner
parse_markdown [] = some nil
parse_markdown (c ∷ s) =
    let (without_blocks, blocks) = extract code_block_segment 0 0 (c ∷ s) in
    let (working, inlines) = extract code_inline_segment 0 (length blocks) without_blocks in
    parse_inner (blocks ++ inlines) (length working * 2 + 2) true working
