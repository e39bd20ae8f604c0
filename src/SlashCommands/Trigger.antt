-- ===== src/SlashCommands/Trigger.antt =====
-- slashCommands.ts: when a command is being typed.
use together.Base.{ℕ, ◌≡◌, ◌↔◌, refl, true, some, List, [], reverse, arith}
use together.Text.{slice_before, slice_from, is_letter, match_back}
use together.Text.Matching.{EndsIn, match_back-EndsIn, EndsIn-match_back}
use together.SlashCommands.{slash, at_line_start, at_boundary, detect_slash_trigger}

-- The cursor stands after a slash and the letters of the query, with the slash at the start of a line; after the
-- cursor stands nothing, or a blank.
pub record IsCommand (content : List ℕ) (cursor_pos : ℕ) (query : List ℕ) : Type 0 where
  pub typed : EndsIn is_letter slash at_line_start (slice_before cursor_pos content) query
  pub boundary : at_boundary (slice_from cursor_pos content) ≡ true

detected-IsCommand :
    (content : List ℕ) (cursor_pos : ℕ) (query : List ℕ)
    → detect_slash_trigger content cursor_pos ≡ some query
    → IsCommand content cursor_pos query
unfolding detect_slash_trigger
detected-IsCommand content cursor_pos query h =
    let before = slice_before cursor_pos content in
    let found : (match_back is_letter slash at_line_start (reverse before) [] ≡ some query)
        × (at_boundary (slice_from cursor_pos content) ≡ true) =
      ground (arith, h) in
    record {
      typed = match_back-EndsIn is_letter slash at_line_start before query found.0;
      boundary = found.1;
    }

IsCommand-detected :
    (content : List ℕ) (cursor_pos : ℕ) (query : List ℕ)
    → IsCommand content cursor_pos query
    → detect_slash_trigger content cursor_pos ≡ some query
unfolding detect_slash_trigger is_letter
IsCommand-detected content cursor_pos query k =
    let before = slice_before cursor_pos content in
    ground
      (arith, EndsIn-match_back is_letter slash at_line_start before query refl k.typed, k.boundary)

-- `detectSlashTrigger` answers with a query exactly when that command is being typed at the cursor: the
-- cursor stands after a slash and the letters of the query, the slash at the start of a line, and nothing or
-- a blank follows.
pub detect_slash_trigger-IsCommand :
    (content : List ℕ) (cursor_pos : ℕ) (query : List ℕ)
    → (detect_slash_trigger content cursor_pos ≡ some query) ↔ IsCommand content cursor_pos query
detect_slash_trigger-IsCommand content cursor_pos query =
    (detected-IsCommand content cursor_pos query, IsCommand-detected content cursor_pos query)
