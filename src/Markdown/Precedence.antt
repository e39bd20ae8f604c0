-- ===== src/Markdown/Precedence.antt =====
-- markdown.ts: the order of the patterns decides, not the order in the text.
use mathlib.Core.Path.{subst}
use together.Base.{
  ℕ, suc, ◌*◌, ◌≤◌, ◌≡◌, refl, sym, ap, ◌⊎◌, inl, inr, false, true, Option, none, some, List, [],
  ◌∷◌, length, arith,
}
use together.Markdown.{
  Segments, nil, text, marked, cons, Placeholder, parse_inner, parse_placeholder, parse_marked,
  text_unless_empty,
}
use together.Markdown.Patterns.{
  Taken, Marker, Marked, first_match, shifted, placeholder_here, first_marker, try_patterns,
  patterns,
}
use together.Markdown.Shrinking.{marked_size, first_marker-size}
use together.Markdown.Termination.{parse_inner-Ends, given}

-- A pattern matches at no place of a text.
abbrev pub Nowhere : (List ℕ → Taken) → List ℕ → Type 0
Nowhere here [] = Unit {0}
Nowhere here (c ∷ s) = (here (c ∷ s) ≡ none) × Nowhere here s

-- A pattern matches after `before`, and at no place further left.
abbrev pub Leftmost : (List ℕ → Taken) → (before s inner after : List ℕ) → Type 0
Leftmost here [] s inner after = here s ≡ some (inner, after)
Leftmost here (c ∷ before) s inner after =
    (rest : List ℕ) × (s ≡ c ∷ rest) × (here s ≡ none) × Leftmost here before rest inner after

-- What the first of the patterns takes that matches anywhere: those before it match nowhere. What comes later in the
-- list is not asked, wherever it matches.
pub data Chosen (s before inner after : List ℕ)
    : List ((List ℕ → Taken) × Marker) → Marker → Type 0 where
  matches :
      {here : List ℕ → Taken} {marker : Marker} {ps : List ((List ℕ → Taken) × Marker)}
      → Leftmost here before s inner after
      → Chosen s before inner after ((here, marker) ∷ ps) marker
  passed :
      {here : List ℕ → Taken} {other marker : Marker} {ps : List ((List ℕ → Taken) × Marker)}
      → Nowhere here s
      → Chosen s before inner after ps marker
      → Chosen s before inner after ((here, other) ∷ ps) marker

-- No pattern matches anywhere.
abbrev pub AllNowhere : List ((List ℕ → Taken) × Marker) → List ℕ → Type 0
AllNowhere [] s = Unit {0}
AllNowhere ((here, _) ∷ ps) s = Nowhere here s × AllNowhere ps s

-- What a search for the leftmost match finds.
abbrev Match : (List ℕ → Taken) → List ℕ → Option (List ℕ × List ℕ × List ℕ) → Type 0
Match here s none = Nowhere here s
Match here s (some (before, inner, after)) = Leftmost here before s inner after

shift :
    (here : List ℕ → Taken) (c : ℕ) (s : List ℕ) (found : Option (List ℕ × List ℕ × List ℕ))
    → here (c ∷ s) ≡ none
    → Match here s found
    → Match here (c ∷ s) (shifted c found)
shift here c s none h m = (h, m)
shift here c s (some (before, inner, after)) h m = (s, refl, h, m)

-- The step of the search, where the pattern takes `taken` here.
abbrev step : ℕ → Option (List ℕ × List ℕ × List ℕ) → Taken → Option (List ℕ × List ℕ × List ℕ)
step c further none = shifted c further
step c further (some (inner, after)) = some ([], inner, after)

step-Match :
    (here : List ℕ → Taken) (c : ℕ) (s : List ℕ) (further : Option (List ℕ × List ℕ × List ℕ))
    (taken : Taken)
    → here (c ∷ s) ≡ taken
    → Match here s further
    → Match here (c ∷ s) (step c further taken)
step-Match here c s further none e m = shift here c s further e m
step-Match here c s further (some (inner, after)) e m = e

first_match-Match : (here : List ℕ → Taken) (s : List ℕ) → Match here s (first_match here s)
unfolding first_match
first_match-Match here [] = tt
first_match-Match here (c ∷ s) =
    step-Match here c s (first_match here s) (here (c ∷ s)) refl (first_match-Match here s)

-- What the search through the patterns finds.
abbrev Choice : List ((List ℕ → Taken) × Marker) → List ℕ → Marked → Type 0
Choice ps s none = AllNowhere ps s
Choice ps s (some (marker, before, inner, after)) = Chosen s before inner after ps marker

abbrev try_next : Marker → Option (List ℕ × List ℕ × List ℕ) → Marked → Marked
try_next marker (some (before, inner, after)) others = some (marker, before, inner, after)
try_next marker none others = others

pass :
    (here : List ℕ → Taken) (marker : Marker) (ps : List ((List ℕ → Taken) × Marker)) (s : List ℕ)
    (others : Marked)
    → Nowhere here s
    → Choice ps s others
    → Choice ((here, marker) ∷ ps) s others
pass here marker ps s none h c = (h, c)
pass here marker ps s (some (m, before, inner, after)) h c = passed h c

try_next-Choice :
    (here : List ℕ → Taken) (marker : Marker) (ps : List ((List ℕ → Taken) × Marker)) (s : List ℕ)
    (found : Option (List ℕ × List ℕ × List ℕ)) (others : Marked)
    → Match here s found
    → Choice ps s others
    → Choice ((here, marker) ∷ ps) s (try_next marker found others)
try_next-Choice here marker ps s none others m c = pass here marker ps s others m c
try_next-Choice here marker ps s (some (before, inner, after)) others m c = matches m

try_next-elim :
    (marker : Marker) (found : Option (List ℕ × List ℕ × List ℕ)) (others : Marked)
    → (elim found [
      | some (before, inner, after) ↦ some (marker, before, inner, after)
      | none ↦ others
    ])
      ≡ try_next marker found others
try_next-elim marker none others = refl
try_next-elim marker (some (before, inner, after)) others = refl

try_patterns-step :
    (here : List ℕ → Taken) (marker : Marker) (ps : List ((List ℕ → Taken) × Marker)) (s : List ℕ)
    → try_patterns ((here, marker) ∷ ps) s
      ≡ try_next marker (first_match here s) (try_patterns ps s)
unfolding try_patterns
try_patterns-step here marker ps s = try_next-elim marker (first_match here s) (try_patterns ps s)

try_patterns-Choice :
    (ps : List ((List ℕ → Taken) × Marker)) (s : List ℕ) → Choice ps s (try_patterns ps s)
unfolding try_patterns
try_patterns-Choice [] s = tt
try_patterns-Choice ((here, marker) ∷ ps) s =
    subst (Choice ((here, marker) ∷ ps) s) (sym (try_patterns-step here marker ps s)) (
      try_next-Choice here marker ps s (first_match here s) (try_patterns ps s)
        (first_match-Match here s) (try_patterns-Choice ps s))

-- Segments behind a text, unless that is empty.
abbrev pub led_by : List ℕ → Segments → Segments
led_by [] rest = rest
led_by (c ∷ s) rest = cons (text (c ∷ s)) rest

text_unless_empty-led : (s : List ℕ) (rest : Segments) → text_unless_empty s rest ≡ led_by s rest
text_unless_empty-led [] rest = refl
text_unless_empty-led (c ∷ s) rest = refl

-- What a text without placeholders becomes: itself, if no pattern matches anywhere; otherwise what is before the match
-- of the chosen pattern as text, the marked content, and the rest, each parsed on its own.
abbrev pub Parses : List Placeholder → ℕ → List ℕ → Option Segments → Type 0
Parses placeholders n s result =
    (AllNowhere patterns s × (result ≡ some (cons (text s) nil)))
    ⊎ ((marker : Marker) × (before : List ℕ) × (inner : List ℕ) × (after : List ℕ)
        × (content : Segments) × (later : Segments) × Chosen s before inner after patterns marker
        × (parse_inner placeholders n true inner ≡ some content)
        × (parse_inner placeholders n false after ≡ some later)
        × (result ≡ some (led_by before (cons (marked marker content) later))))

chosen-Parses :
    (placeholders : List Placeholder) (n : ℕ) (s : List ℕ) (found : Marked)
    → Choice patterns s found
    → marked_size found ≤ length s
    → length s * 2 ≤ n
    → Parses placeholders n s
        (parse_marked (parse_inner placeholders n true) (parse_inner placeholders n false) s found)
chosen-Parses placeholders n s none c size enough = inl (c, refl)
chosen-Parses placeholders n s (some (marker, before, inner, after)) c size enough =
    let parse = parse_inner placeholders n true in
    let loop = parse_inner placeholders n false in
    let (content, parsed) =
      given (parse inner)
        (parse_inner-Ends placeholders n true inner (omega (arith, size, enough))) in
    let (later, looped) =
      given (loop after)
        (parse_inner-Ends placeholders n false after (omega (arith, size, enough))) in
    inr (
      marker,
      before,
      inner,
      after,
      content,
      later,
      c,
      parsed,
      looped,
      rw (parsed, looped)
          (ap some (text_unless_empty-led before (cons (marked marker content) later))),
    )

-- The loop of `parseInner` on a text without placeholders: the pattern that matches is the first of the list that matches
-- anywhere, at its leftmost match, and the patterns after it are not asked, even if one of them matches further left. What
-- is before the match becomes text as it is, so that what they match there is not marked.
pub before_marker_is_text :
    (placeholders : List Placeholder) (n c : ℕ) (s : List ℕ)
    → first_match placeholder_here (c ∷ s) ≡ none
    → length (c ∷ s) * 2 ≤ n
    → Parses placeholders n (c ∷ s) (parse_inner placeholders (suc n) false (c ∷ s))
unfolding parse_inner first_marker
before_marker_is_text placeholders n c s no_code enough =
    let parse = parse_inner placeholders n true in
    let loop = parse_inner placeholders n false in
    let parsed =
      chosen-Parses placeholders n (c ∷ s) (first_marker (c ∷ s))
        (try_patterns-Choice patterns (c ∷ s)) (first_marker-size (c ∷ s)) enough in
    subst (Parses placeholders n (c ∷ s))
      (sym (ap (parse_placeholder parse loop placeholders (c ∷ s)) no_code)) parsed
