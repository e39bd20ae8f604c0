-- ===== src/Markdown/Patterns.antt =====
-- markdown.ts: the regular expressions of parseMarkdown, each as what it takes at the start of a text, and the leftmost
-- place where it matches.
use together.Base.{ℕ, Bool, not, ◌&&◌, Option, none, some, List, [], ◌∷◌, ◌++◌, eqb, if◌then◌else◌}
use together.Text.{units, is_word, is_digit}

-- The rest of a text after a beginning.
unfoldable pub strip_prefix : List ℕ → List ℕ → Option (List ℕ)
strip_prefix [] s = some s
strip_prefix (a ∷ t) [] = none
strip_prefix (a ∷ t) (c ∷ s) = if eqb a c then strip_prefix t s else none

-- The first place of a text in another: what is before it and after it.
abbrev pub before_unit : ℕ → Option (List ℕ × List ℕ) → Option (List ℕ × List ℕ)
before_unit c none = none
before_unit c (some (before, after)) = some (c ∷ before, after)

unfoldable pub find_text : List ℕ → List ℕ → Option (List ℕ × List ℕ)
unfolding strip_prefix
find_text t [] = none
find_text t (c ∷ s) = elim (strip_prefix t (c ∷ s)) [
  | some after ↦ some ([], after)
  | none ↦ before_unit c (find_text t s)
]

-- The longest beginning whose units are in a class, and the rest.
unfoldable pub span : (ℕ → Bool) → List ℕ → List ℕ × List ℕ
span p [] = ([], [])
span p (c ∷ s) = let (taken, rest) = span p s in if p c then (c ∷ taken, rest) else ([], c ∷ s)

-- What a pattern takes: its group, and the text after the match.
abbrev pub Taken : Type 0
Taken = Option (List ℕ × List ℕ)

-- The leftmost match: the text before it, its group, and the text after it.
abbrev pub shifted : ℕ → Option (List ℕ × List ℕ × List ℕ) → Option (List ℕ × List ℕ × List ℕ)
shifted c none = none
shifted c (some (before, inner, after)) = some (c ∷ before, inner, after)

unfoldable pub first_match : (List ℕ → Taken) → List ℕ → Option (List ℕ × List ℕ × List ℕ)
first_match here [] = none
first_match here (c ∷ s) = elim (here (c ∷ s)) [
  | some (inner, after) ↦ some ([], inner, after)
  | none ↦ shifted c (first_match here s)
]

-- `(.+?)` and a closing mark
unfoldable pub up_to : List ℕ → List ℕ → Taken
unfolding find_text
up_to close [] = none
up_to close (c ∷ s) = before_unit c (find_text close s)

-- Marks on both sides, with any text between, as short as can be.
unfoldable pub between_marks : List ℕ → List ℕ → Taken
unfolding up_to
between_marks mark s = elim (strip_prefix mark s) [ none ↦ none | some rest ↦ up_to mark rest ]

-- A class of units, at least one of them, and a closing unit.
abbrev pub closed_run : ℕ → List ℕ × List ℕ → Taken
closed_run close ([], rest) = none
closed_run close (c ∷ taken, []) = none
closed_run close (c ∷ taken, d ∷ after) = if eqb d close then some (c ∷ taken, after) else none

unfoldable pub class_between : (opening : List ℕ) (p : ℕ → Bool) (close : ℕ) → List ℕ → Taken
unfolding strip_prefix span
class_between opening p close s = elim (strip_prefix opening s) [
  | none ↦ none
  | some rest ↦ closed_run close (span p rest)
]

-- [^c\n]
abbrev pub none_of : ℕ → ℕ → Bool
none_of c u = not (eqb u c) && not (eqb u 0xa)

abbrev pub backtick : ℕ
backtick = 0x60

abbrev pub fence : List ℕ
fence = backtick ∷ backtick ∷ backtick ∷ []

abbrev pub drop_newline : List ℕ → List ℕ
drop_newline [] = []
drop_newline (c ∷ s) = if eqb c 0xa then s else c ∷ s

-- /```(\w*)\n?([\s\S]*?)```/: the language, the body, and what follows. The language and the newline hold no
-- backtick, so that no shorter choice of them matches where the longest does not.
unfoldable pub code_block_here : List ℕ → Option (List ℕ × List ℕ × List ℕ)
unfolding strip_prefix span find_text
code_block_here s = elim (strip_prefix fence s) [
  | none ↦ none
  | some rest ↦
      (let (lang, rest') = span is_word rest in
        elim (find_text fence (drop_newline rest')) [
          | none ↦ none
          | some (body, after) ↦ some (lang, body, after)
        ])
]

-- /`([^`\n]+)`/
unfoldable pub code_inline_here : List ℕ → Taken
unfolding class_between
code_inline_here = class_between (backtick ∷ []) (none_of backtick) backtick

-- /\uE000PLACEHOLDER_\d+\uE000/
abbrev pub placeholder_mark : List ℕ
placeholder_mark = 0xe000 ∷ units "PLACEHOLDER_"

unfoldable pub placeholder_here : List ℕ → Taken
unfolding class_between
placeholder_here = class_between placeholder_mark is_digit 0xe000

-- The segments that have a content of segments, but for quotes. Two patterns make `bold` and two make `italic`.
pub data Marker : Type 0 where
  spoiler bold_italic bold italic strikethrough : Marker

abbrev pub star : ℕ
star = 0x2a

abbrev pub underscore : ℕ
underscore = 0x5f

abbrev pub patterns : List ((List ℕ → Taken) × Marker)
patterns =
    (between_marks (units "||"), spoiler)
    ∷ (between_marks (units "***"), bold_italic)
    ∷ (between_marks (units "**"), bold)
    ∷ (between_marks (units "__"), bold)
    ∷ (class_between (star ∷ []) (none_of star) star, italic)
    ∷ (class_between (underscore ∷ []) (none_of underscore) underscore, italic)
    ∷ (between_marks (units "~~"), strikethrough)
    ∷ []

-- The first pattern of the list that matches anywhere.
abbrev pub Marked : Type 0
Marked = Option (Marker × List ℕ × List ℕ × List ℕ)

unfoldable pub try_patterns : List ((List ℕ → Taken) × Marker) → List ℕ → Marked
unfolding first_match
try_patterns [] s = none
try_patterns ((here, marker) ∷ ps) s = elim (first_match here s) [
  | some (before, inner, after) ↦ some (marker, before, inner, after)
  | none ↦ try_patterns ps s
]

unfoldable pub first_marker : List ℕ → Marked
unfolding try_patterns between_marks class_between
first_marker s = try_patterns patterns s

-- s.split("\n") and lines.join("\n")
abbrev pub onto_line : ℕ → List (List ℕ) → List (List ℕ)
onto_line c [] = (c ∷ []) ∷ []
onto_line c (l ∷ ls) = (c ∷ l) ∷ ls

unfoldable pub split_lines : List ℕ → List (List ℕ)
split_lines [] = [] ∷ []
split_lines (c ∷ s) = let ls = split_lines s in if eqb c 0xa then [] ∷ ls else onto_line c ls

unfoldable pub join_lines : List (List ℕ) → List ℕ
join_lines [] = []
join_lines (l ∷ []) = l
join_lines (l ∷ k ∷ ls) = l ++ 0xa ∷ join_lines (k ∷ ls)

-- /^> /, and the line without it
unfoldable pub quoted_line : List ℕ → Option (List ℕ)
quoted_line = strip_prefix (0x3e ∷ 0x20 ∷ [])

-- The loop over the lines: those of the quote, without their marks, and the rest.
unfoldable pub split_quote : List (List ℕ) → List (List ℕ) × List (List ℕ)
unfolding quoted_line
split_quote [] = ([], [])
split_quote (l ∷ ls) =
    let (quote, rest) = split_quote ls in
    elim (quoted_line l) [ none ↦ ([], l ∷ ls) | some line ↦ (line ∷ quote, rest) ]
