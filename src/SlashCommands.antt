-- ===== src/SlashCommands.antt =====
-- clients/web/src/utils/slashCommands.ts. A string is the list of its UTF-16 code units, and the cursor counts
-- code units from the start. `to_lower_case` is the method of String.
pub mod Trigger
use together.Base.{
  ℕ, Bool, true, false, Option, none, some, String, List, [], ◌∷◌, reverse, filter, if◌then◌else◌,
}
use together.Text.{
  units, slice_before, slice_from, starts_with, is_letter, is_newline, is_blank, match_back,
}

pub record SlashCommand : Type 0 where
  pub name : List ℕ
  pub description : String
  pub arg_hint : Option String

abbrev pub slash_commands : List SlashCommand
slash_commands =
    record {
      name = units "giphy";
      description = "Search for and send a GIF";
      arg_hint = some "[search query]";
    }
    ∷ record { name = units "poll"; description = "Create a poll"; arg_hint = some "[question]" }
    ∷ record {
      name = units "event";
      description = "Schedule a server event";
      arg_hint = some "[event name]";
    }
    ∷ record {
      name = units "spoiler";
      description = "Wrap text in a spoiler";
      arg_hint = some "[text]";
    }
    ∷ []

abbrev pub slash : ℕ
slash = 0x2f

-- `(?:^|[\n\r])`: the text before a place, read backwards, ends there or goes on with the end of a line.
abbrev pub at_line_start : List ℕ → Bool
at_line_start [] = true
at_line_start (c ∷ _) = is_newline c

-- Nothing follows, or a blank does.
abbrev pub at_boundary : List ℕ → Bool
at_boundary [] = true
at_boundary (c ∷ _) = is_blank c

unfoldable pub detect_slash_trigger : List ℕ → ℕ → Option (List ℕ)
detect_slash_trigger content cursor_pos =
    elim (match_back is_letter slash at_line_start (reverse (slice_before cursor_pos content)) []) [
      | none ↦ none
      | some query ↦ if at_boundary (slice_from cursor_pos content) then some query else none
    ]

unfoldable pub search_commands : (to_lower_case : List ℕ → List ℕ) → List ℕ → List SlashCommand
search_commands to_lower_case query =
    filter (λ cmd. starts_with cmd.name (to_lower_case query)) slash_commands
