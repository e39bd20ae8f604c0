-- ===== src/Text.antt =====
-- Texts as JavaScript has them: a list of UTF-16 code units, with the methods of String and the classes of
-- regular expressions that clients/web/src uses.
pub mod Matching
use Prim.Native.Char.{code}
use together.Base.{
  ℕ, zero, suc, ◌+◌, ◌-◌, ◌/◌, ◌%◌, String, Bool, true, false, ◌&&◌, ◌||◌, Option, none, some, List,
  [], ◌∷◌, ◌++◌, reverse, if◌then◌else◌, eqb, leb, ltb, any,
}

-- One code point in UTF-16: a unit, or two surrogates.
unfoldable pub encode : ℕ → List ℕ
encode c =
    if ltb c 0x10000
    then c ∷ []
    else (0xd800 + (c - 0x10000) / 0x400) ∷ (0xdc00 + (c - 0x10000) % 0x400) ∷ []

unfoldable pub units : String → List ℕ
unfolding encode
units String.[] = []
units (String.◌∷◌ c s) = encode (code c) ++ units s

-- `s === t`
unfoldable pub same_text : List ℕ → List ℕ → Bool
same_text [] [] = true
same_text (a ∷ s) (b ∷ t) = eqb a b && same_text s t
same_text _ _ = false

-- `s.slice(0, n)` and `s.slice(n)`
abbrev pub slice_before : ℕ → List ℕ → List ℕ
slice_before zero s = []
slice_before (suc n) [] = []
slice_before (suc n) (c ∷ s) = c ∷ slice_before n s

abbrev pub slice_from : ℕ → List ℕ → List ℕ
slice_from zero s = s
slice_from (suc n) [] = []
slice_from (suc n) (c ∷ s) = slice_from n s

-- `s.startsWith(t)`
unfoldable pub starts_with : List ℕ → List ℕ → Bool
starts_with s [] = true
starts_with [] (b ∷ t) = false
starts_with (a ∷ s) (b ∷ t) = eqb a b && starts_with s t

-- `s.includes(t)`
unfoldable pub includes_text : List ℕ → List ℕ → Bool
unfolding starts_with
includes_text [] t = starts_with [] t
includes_text (a ∷ s) t = starts_with (a ∷ s) t || includes_text s t

-- `s.lastIndexOf(c)`; `none` is -1.
unfoldable pub last_index_of : ℕ → List ℕ → Option ℕ
last_index_of c [] = none
last_index_of c (a ∷ s) = elim (last_index_of c s) [
  | some n ↦ some (suc n)
  | none ↦ if eqb a c then some 0 else none
]

-- [a-zA-Z], [0-9] and \w
unfoldable pub is_letter : ℕ → Bool
is_letter c = leb 0x61 c && leb c 0x7a || leb 0x41 c && leb c 0x5a

unfoldable pub is_digit : ℕ → Bool
is_digit c = leb 0x30 c && leb c 0x39

unfoldable pub is_word : ℕ → Bool
unfolding is_letter is_digit
is_word c = is_letter c || is_digit c || eqb c 0x5f

-- [\n\r]
unfoldable pub is_newline : ℕ → Bool
is_newline c = eqb c 0xa || eqb c 0xd

-- \s
unfoldable pub is_blank : ℕ → Bool
is_blank c =
    leb 0x9 c && leb c 0xd
    || leb 0x2000 c && leb c 0x200a
    || any (eqb c) (0x20 ∷ 0xa0 ∷ 0x1680 ∷ 0x2028 ∷ 0x2029 ∷ 0x202f ∷ 0x205f ∷ 0x3000 ∷ 0xfeff ∷ [])

-- `s.trim()` drops blanks at both ends.
abbrev pub trim_start : List ℕ → List ℕ
trim_start [] = []
trim_start (c ∷ s) = if is_blank c then trim_start s else c ∷ s

unfoldable pub trim : List ℕ → List ℕ
trim s = reverse (trim_start (reverse (trim_start s)))

-- A regular expression `…mark(word*)$` on the text read backwards, with the units passed so far: the units of the class,
-- then the mark, and before it what `start` accepts.
unfoldable pub match_back :
    (word : ℕ → Bool) (mark : ℕ) (start : List ℕ → Bool) → List ℕ → List ℕ → Option (List ℕ)
match_back word mark start [] query = none
match_back word mark start (c ∷ before) query =
    let longer = match_back word mark start before (c ∷ query) in
    if word c then longer else if eqb c mark && start before then some query else none
