-- ===== src/Markdown/Shrinking.antt =====
-- markdown.ts: what a pattern leaves is shorter than what it was tried on.
use together.Base.{
  ℕ, suc, ◌+◌, ◌≤◌, ◌<◌, ◌≡◌, refl, Bool, Option, none, some, List, [], ◌∷◌, length, arith,
  Option-cases, inl, inr,
}
use together.Text.{units, encode, is_digit}
use together.Markdown.Patterns.{
  Taken, Marked, Marker, strip_prefix, find_text, span, first_match, up_to, between_marks,
  closed_run, class_between, placeholder_here, patterns, try_patterns, first_marker, star,
  underscore, none_of, placeholder_mark,
}

-- How much a result keeps of a text, by the kind of result; nothing if there is none.
abbrev pub rest_size : List ℕ → Option (List ℕ) → ℕ
rest_size t none = 0
rest_size t (some rest) = length t + length rest

abbrev parted_size : List ℕ → Option (List ℕ × List ℕ) → ℕ
parted_size t none = 0
parted_size t (some (before, after)) = length before + (length t + length after)

abbrev taken_size : Taken → ℕ
taken_size none = 0
taken_size (some (inner, after)) = suc (length inner + length after)

abbrev pub match_size : Option (List ℕ × List ℕ × List ℕ) → ℕ
match_size none = 0
match_size (some (before, inner, after)) = suc (length before + (length inner + length after))

abbrev pub marked_size : Marked → ℕ
marked_size none = 0
marked_size (some (marker, before, inner, after)) =
    suc (length before + (length inner + length after))

-- A match drops a unit at least.
abbrev Shrinks : (List ℕ → Taken) → Type 0
Shrinks here = (s : List ℕ) → taken_size (here s) ≤ length s

pub strip_prefix-size : (t s : List ℕ) → rest_size t (strip_prefix t s) ≤ length s
unfolding strip_prefix
strip_prefix-size [] s = omega arith
strip_prefix-size (a ∷ t) [] = omega arith
strip_prefix-size (a ∷ t) (c ∷ s) = ground (arith, strip_prefix-size t s)

find_text-size : (t s : List ℕ) → parted_size t (find_text t s) ≤ length s
unfolding find_text
find_text-size t [] = omega arith
find_text-size t (c ∷ s) = ground (arith, strip_prefix-size t (c ∷ s), find_text-size t s)

span-length : (p : ℕ → Bool) (s : List ℕ) → length (span p s).0 + length (span p s).1 ≡ length s
unfolding span
span-length p [] = refl
span-length p (c ∷ s) = ground (arith, span-length p s)

closed_run-size :
    (close : ℕ) (taken rest : List ℕ)
    → taken_size (closed_run close (taken, rest)) ≤ length taken + length rest
closed_run-size close [] rest = omega arith
closed_run-size close (c ∷ taken) [] = omega arith
closed_run-size close (c ∷ taken) (d ∷ rest) = ground arith

class_between-Shrinks :
    (opening : List ℕ) (p : ℕ → Bool) (close : ℕ) → Shrinks (class_between opening p close)
unfolding class_between
class_between-Shrinks opening p close s = elim (Option-cases (strip_prefix opening s)) [
  | inl e ↦ ground (arith, e)
  | inr (rest, e) ↦ ground (
    arith,
    e,
    strip_prefix-size opening s,
    span-length p rest,
    closed_run-size close (span p rest).0 (span p rest).1,
  )
]

up_to-size :
    (close s : List ℕ) → taken_size (up_to close s) + length close ≤ suc (length s) + length close
unfolding up_to
up_to-size close [] = omega arith
up_to-size close (c ∷ s) = ground (arith, find_text-size close s)

between_marks-Shrinks : (mark : List ℕ) → 0 < length mark → Shrinks (between_marks mark)
unfolding between_marks
between_marks-Shrinks mark k s = elim (Option-cases (strip_prefix mark s)) [
  | inl e ↦ ground (arith, e)
  | inr (rest, e) ↦ ground (arith, e, k, strip_prefix-size mark s, up_to-size mark rest)
]

-- The leftmost match parts the text into what is before it and what it shrinks.
first_match-size :
    (here : List ℕ → Taken) (s : List ℕ) → Shrinks here → match_size (first_match here s) ≤ length s
unfolding first_match
first_match-size here [] k = omega arith
first_match-size here (c ∷ s) k = ground (arith, k (c ∷ s), first_match-size here s k)

pub first_placeholder-size : (s : List ℕ) → match_size (first_match placeholder_here s) ≤ length s
unfolding placeholder_here
first_placeholder-size s =
    first_match-size placeholder_here s (class_between-Shrinks placeholder_mark is_digit 0xe000)

data AllShrink : List ((List ℕ → Taken) × Marker) → Type 0 where
  none_left : AllShrink []
  shrinks_and :
      {here : List ℕ → Taken} {marker : Marker} {ps : List ((List ℕ → Taken) × Marker)}
      → Shrinks here
      → AllShrink ps
      → AllShrink ((here, marker) ∷ ps)

try_patterns-size :
    (ps : List ((List ℕ → Taken) × Marker)) (s : List ℕ)
    → AllShrink ps
    → marked_size (try_patterns ps s) ≤ length s
unfolding try_patterns
try_patterns-size [] s none_left = omega arith
try_patterns-size ((here, marker) ∷ ps) s (shrinks_and k ks) =
    ground (arith, first_match-size here s k, try_patterns-size ps s ks)

pub first_marker-size : (s : List ℕ) → marked_size (first_marker s) ≤ length s
unfolding first_marker units encode
first_marker-size s = try_patterns-size patterns s (
    shrinks_and (between_marks-Shrinks (units "||") (omega arith)) (
      shrinks_and (between_marks-Shrinks (units "***") (omega arith)) (
        shrinks_and (between_marks-Shrinks (units "**") (omega arith)) (
          shrinks_and (between_marks-Shrinks (units "__") (omega arith)) (
            shrinks_and (class_between-Shrinks (star ∷ []) (none_of star) star) (
              shrinks_and (class_between-Shrinks (underscore ∷ []) (none_of underscore) underscore)
                (shrinks_and (between_marks-Shrinks (units "~~") (omega arith)) none_left)))))))
