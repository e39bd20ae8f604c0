-- ===== src/Markdown/Lines.antt =====
-- markdown.ts: the lines of a quote.
use together.Base.{
  ℕ, suc, ◌+◌, ◌≤◌, ◌<◌, ◌≡◌, refl, some, List, [], ◌∷◌, length, length-append, arith,
}
use together.Markdown.Patterns.{
  strip_prefix, split_lines, onto_line, join_lines, quoted_line, split_quote,
}
use together.Markdown.Shrinking.{strip_prefix-size}

-- The units of lines, with a newline after each.
abbrev weight : List (List ℕ) → ℕ
weight [] = 0
weight (l ∷ ls) = suc (length l) + weight ls

join_lines-le : (ls : List (List ℕ)) → length (join_lines ls) ≤ weight ls
unfolding join_lines
join_lines-le [] = omega arith
join_lines-le (l ∷ []) = omega arith
join_lines-le (l ∷ k ∷ ls) =
    omega (arith, length-append l (0xa ∷ join_lines (k ∷ ls)), join_lines-le (k ∷ ls))

join_lines-lt : (l : List ℕ) (ls : List (List ℕ)) → length (join_lines (l ∷ ls)) < weight (l ∷ ls)
unfolding join_lines
join_lines-lt l [] = omega arith
join_lines-lt l (k ∷ ls) =
    omega (arith, length-append l (0xa ∷ join_lines (k ∷ ls)), join_lines-lt k ls)

split_lines-weight : (s : List ℕ) → weight (split_lines s) ≡ suc (length s)
unfolding split_lines
split_lines-weight [] = refl
split_lines-weight (c ∷ s) = ground (arith, split_lines-weight s)

split_quote-weight :
    (ls : List (List ℕ)) → weight (split_quote ls).0 + weight (split_quote ls).1 ≤ weight ls
unfolding split_quote quoted_line
split_quote-weight [] = omega arith
split_quote-weight (l ∷ ls) =
    ground (arith, split_quote-weight ls, strip_prefix-size (0x3e ∷ 0x20 ∷ []) l)

onto_first :
    (c : ℕ) (lines : List (List ℕ))
    → (l : List ℕ) × (ls : List (List ℕ)) × (onto_line c lines ≡ (c ∷ l) ∷ ls)
onto_first c [] = ([], [], refl)
onto_first c (l ∷ ls) = (l, ls, refl)

-- The first line of a text that starts with a quote is quoted.
first_quoted :
    (s rest : List ℕ)
    → quoted_line s ≡ some rest
    → (l : List ℕ) × (ls : List (List ℕ)) × (split_lines s ≡ (0x3e ∷ 0x20 ∷ l) ∷ ls)
unfolding quoted_line strip_prefix split_lines
first_quoted [] rest h = absurd (ground (arith, h))
first_quoted (c ∷ []) rest h = absurd (ground (arith, h))
first_quoted (c ∷ d ∷ s) rest h =
    let marks : (c ≡ 0x3e) × (d ≡ 0x20) = ground (arith, h) in
    let (l, ls, e) = onto_first 0x20 (split_lines s) in (l, ls, rw (marks.0, marks.1, e) refl)

-- Both parts of a text that starts with a quote are shorter than it.
pub split_quote-lt :
    (s rest : List ℕ)
    → quoted_line s ≡ some rest
    → (length (join_lines (split_quote (split_lines s)).0) < length s)
      × (length (join_lines (split_quote (split_lines s)).1) < length s)
unfolding split_quote quoted_line strip_prefix
split_quote-lt s rest h =
    let (l, ls, e) = first_quoted s rest h in
    let w = split_lines-weight s in
    rw e (
      omega (
        arith,
        rw e at w,
        split_quote-weight ls,
        join_lines-lt l (split_quote ls).0,
        join_lines-le (split_quote ls).1,
      ),
      omega (arith, rw e at w, split_quote-weight ls, join_lines-le (split_quote ls).1),
    )
