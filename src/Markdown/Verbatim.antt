-- ===== src/Markdown/Verbatim.antt =====
-- markdown.ts: code goes through as it is.
use together.Base.{
  ℕ, suc, ◌+◌, ◌-◌, ◌*◌, ◌≡◌, refl, ap, ◌∙◌, true, not, Option, none, some, List, [], ◌∷◌, ◌++◌,
  all, eqb, length, arith,
}
use together.Text.{units, encode, same_text, is_digit, is_word, is_letter}
use together.Markdown.{
  Segments, cons, nil, code_inline, code_block, extract, code_block_segment, code_inline_segment,
  parse_inner, parse_markdown, placeholder, decimal, found_segments, join, MarkdownSegment,
  Placeholder,
}
use together.Markdown.Patterns.{
  none_of, backtick, fence, strip_prefix, span, find_text, code_block_here, code_inline_here,
  class_between, closed_run, first_match, placeholder_here, quoted_line,
}

-- No backtick and no newline.
abbrev pub OneLine : List ℕ → Type 0
OneLine body = all (none_of backtick) body ≡ true

abbrev pub tick : List ℕ
tick = backtick ∷ []

-- A single backtick opens no block, wherever it stands.
extract-no_block :
    (k : ℕ) (body : List ℕ)
    → OneLine body
    → extract code_block_segment 0 k (body ++ tick) ≡ (body ++ tick, [])
unfolding extract code_block_here strip_prefix
extract-no_block k [] h = refl
extract-no_block k (c ∷ body) h = ground (arith, h, extract-no_block k body)

no_block :
    (k c : ℕ) (body : List ℕ)
    → OneLine (c ∷ body)
    → extract code_block_segment 0 k (backtick ∷ c ∷ (body ++ tick))
      ≡ (backtick ∷ c ∷ (body ++ tick), [])
unfolding extract code_block_here strip_prefix
no_block k c body h = ground (arith, h, extract-no_block k (c ∷ body) h)

span-closed : (body : List ℕ) → OneLine body → span (none_of backtick) (body ++ tick) ≡ (body, tick)
unfolding span
span-closed [] h = refl
span-closed (c ∷ body) h = ground (arith, h, span-closed body)

inline_here :
    (c : ℕ) (body : List ℕ)
    → OneLine (c ∷ body)
    → code_inline_here (backtick ∷ c ∷ (body ++ tick)) ≡ some (c ∷ body, [])
unfolding code_inline_here class_between strip_prefix
inline_here c body h = ap (closed_run backtick) (span-closed (c ∷ body) h)

inline_segment :
    (c : ℕ) (body : List ℕ)
    → OneLine (c ∷ body)
    → code_inline_segment (backtick ∷ c ∷ (body ++ tick)) ≡ some (code_inline (c ∷ body), [])
inline_segment c body h =
    ap
      (λ (o : Option (List ℕ × List ℕ)). elim o [
        | none ↦ none
        | some (taken, after) ↦ some (code_inline taken, after)
      ])
      (inline_here c body h)

extract-skip :
    (here : List ℕ → Option (MarkdownSegment × List ℕ)) (k : ℕ) (s : List ℕ)
    → extract here (length s) k s ≡ ([], [])
unfolding extract
extract-skip here k [] = refl
extract-skip here k (c ∷ s) = extract-skip here k s

-- What is replaced as a whole leaves its placeholder.
extract-whole :
    (here : List ℕ → Option (MarkdownSegment × List ℕ)) (k c : ℕ) (s : List ℕ)
    (segment : MarkdownSegment)
    → here (c ∷ s) ≡ some (segment, [])
    → extract here 0 k (c ∷ s) ≡ (placeholder k ++ [], (placeholder k, segment) ∷ [])
unfolding extract
extract-whole here k c s segment e =
    let all_left : length s - 0 ≡ length s = omega arith in
    rw (extract, e, all_left, extract-skip here (suc k) s) refl

-- A placeholder alone becomes its segment.
only_placeholder :
    (segment : MarkdownSegment)
    → parse_inner
        ((placeholder 0, segment) ∷ [])
        (length (placeholder 0) * 2 + 2)
        true
        (placeholder 0)
      ≡ some (cons segment nil)
unfolding parse_inner placeholder decimal found_segments join same_text quoted_line first_match
    placeholder_here class_between strip_prefix span is_digit units encode
only_placeholder segment = refl

-- What is left to do when both kinds of code are cut out, and when the blocks are.
abbrev after_code : List Placeholder → List ℕ × List Placeholder → Option Segments
after_code blocks (working, inlines) =
    parse_inner (blocks ++ inlines) (length working * 2 + 2) true working

abbrev after_blocks : List ℕ × List Placeholder → Option Segments
after_blocks (without_blocks, blocks) =
    after_code blocks (extract code_inline_segment 0 (length blocks) without_blocks)

inline_code :
    (c : ℕ) (body : List ℕ)
    → OneLine (c ∷ body)
    → parse_markdown (backtick ∷ c ∷ (body ++ tick)) ≡ some (cons (code_inline (c ∷ body)) nil)
unfolding parse_markdown units
inline_code c body h =
    ap after_blocks (no_block 0 c body h)
    ∙ ap (after_code []) (
        extract-whole code_inline_segment 0 backtick (c ∷ (body ++ tick)) (code_inline (c ∷ body))
          (inline_segment c body h))
    ∙ only_placeholder (code_inline (c ∷ body))

abbrev pub NoTick : List ℕ → Type 0
NoTick body = all (λ u. not (eqb u backtick)) body ≡ true

find_text-fence : (body : List ℕ) → NoTick body → find_text fence (body ++ fence) ≡ some (body, [])
unfolding find_text strip_prefix
find_text-fence [] h = refl
find_text-fence (c ∷ body) h = ground (arith, h, find_text-fence body)

block_here :
    (body : List ℕ)
    → NoTick body
    → code_block_here (fence ++ 0xa ∷ (body ++ fence)) ≡ some ([], body, [])
unfolding code_block_here strip_prefix span is_word is_letter is_digit
block_here body h =
    ap
      (λ (o : Option (List ℕ × List ℕ)). elim o [
        | none ↦ none
        | some (taken, after) ↦ some ([], taken, after)
      ])
      (find_text-fence body h)

block_segment :
    (body : List ℕ)
    → NoTick body
    → code_block_segment (fence ++ 0xa ∷ (body ++ fence)) ≡ some (code_block body [], [])
block_segment body h =
    ap
      (λ (o : Option (List ℕ × List ℕ × List ℕ)). elim o [
        | none ↦ none
        | some (lang, taken, after) ↦ some (code_block taken lang, after)
      ])
      (block_here body h)

-- The text of a placeholder holds no code.
no_inline : extract code_inline_segment 0 1 (placeholder 0 ++ []) ≡ (placeholder 0 ++ [], [])
unfolding extract code_inline_here class_between strip_prefix span placeholder decimal units encode
no_inline = refl

fenced_code :
    (body : List ℕ)
    → NoTick body
    → parse_markdown (fence ++ 0xa ∷ (body ++ fence)) ≡ some (cons (code_block body []) nil)
unfolding parse_markdown units
fenced_code body h =
    ap after_blocks (
      extract-whole code_block_segment 0 backtick (backtick ∷ backtick ∷ 0xa ∷ (body ++ fence))
        (code_block body []) (block_segment body h))
    ∙ ap (after_code ((placeholder 0, code_block body []) ∷ [])) no_inline
    ∙ only_placeholder (code_block body [])

-- Code comes out as it was typed, whatever markers are in it: a text of one line without backticks, between two of
-- them, becomes inline code, and a text without backticks, on the line after a fence and before another, a block.
pub code_verbatim :
    (c : ℕ) (line block : List ℕ)
    → OneLine (c ∷ line)
    → NoTick block
    → (parse_markdown (backtick ∷ c ∷ (line ++ tick)) ≡ some (cons (code_inline (c ∷ line)) nil))
      × (parse_markdown (fence ++ 0xa ∷ (block ++ fence)) ≡ some (cons (code_block block []) nil))
code_verbatim c line block h k = (inline_code c line h, fenced_code block k)
