-- ===== src/Examples/OfUtilities.antt =====
-- The theorems on texts, emoji, settings and keys at concrete inputs.
use mathlib.Core.List.{Memᴰ}
use together.Base.{
  ℕ, ◌≡◌, refl, false, true, Option, none, some, String, List, [], ◌∷◌, ◌++◌, take, filter, arith,
  if◌then◌else◌,
}
use together.Types.Permissions.{mask, manage_roles, kick_members}
use together.Text.{encode, match_back, is_letter, is_newline, is_blank, units}
use together.SlashCommands.{detect_slash_trigger}
use together.SlashCommands.Trigger.{IsCommand, detect_slash_trigger-IsCommand}
use together.Markdown.Verbatim.{tick, code_verbatim}
use together.Markdown.{nil, code_inline, code_block, Segments, cons, parse_markdown, parse_inner}
use together.Markdown.Patterns.{backtick, fence, first_match, placeholder_here, strip_prefix}
use together.Markdown.Precedence.{Parses, before_marker_is_text}
use together.Markdown.Termination.{parse_markdown-Ends}
use together.Emoji.{parse_emoji, search_all_emoji}
use together.Emoji.Table.{emoji_categories}
use together.Emoji.Entries.{entry}
use together.Emoji.Searching.{is_named, entries, custom_matches, search_all_emoji-take}
use together.Emoji.Reachable.{between_colons, table-parse_emoji}
use together.Hooks.PushToTalk.{
  KeyEvent, key_down, key_up, handle_all, handle_blur, released, alternates, handle_all-balanced,
}
use together.Hooks.TypingIndicator.{spaced, on_typing_all, on_typing_all-spaced}
use together.PermissionEditors.{opened, get_tri_state, set_tri_state, deny}
use together.PermissionEditors.Switches.{same, get_tri_state-set_tri_state}

-- "ok\n/gi x", where the cursor stands before the blank
abbrev content : List ℕ
content = 0x6f ∷ 0x6b ∷ 0xa ∷ 0x2f ∷ 0x67 ∷ 0x69 ∷ 0x20 ∷ 0x78 ∷ []

abbrev gi : List ℕ
gi = 0x67 ∷ 0x69 ∷ []

detect_slash_trigger-IsCommand_example : IsCommand content 6 gi
unfolding detect_slash_trigger match_back is_letter is_newline is_blank
detect_slash_trigger-IsCommand_example = (detect_slash_trigger-IsCommand content 6 gi).0 refl

search_all_emoji-take_example :
    search_all_emoji (λ s. s) emoji_categories (units "smil") [] 2
    ≡ take 2 (
        custom_matches (units "smil") []
        ++ filter (is_named (units "smil")) (entries emoji_categories))
search_all_emoji-take_example =
    search_all_emoji-take 2 (λ s. s) emoji_categories (units "smil") [] (omega arith)

table-parse_emoji_example :
    parse_emoji emoji_categories (between_colons (units "grinning")) ≡ units "😀"
table-parse_emoji_example =
    table-parse_emoji (entry "😀" "grinning") (units "grinning") (Memᴰ.head refl) (Memᴰ.head refl)

-- The key is held, repeats, and goes up; another is pressed; the key is held again.
abbrev keys : List KeyEvent
keys =
    key_down "Space" ∷ key_down "Space" ∷ key_up "Space" ∷ key_down "KeyV" ∷ key_down "Space" ∷ []

handle_all-balanced_example :
    let s = handle_all "Space" keys released in
    (alternates false s.calls s.active ≡ true)
    × ((handle_blur s).active ≡ false)
    × (alternates false (handle_blur s).calls false ≡ true)
handle_all-balanced_example = handle_all-balanced "Space" keys

abbrev keystrokes : List (Option String × ℕ)
keystrokes = (some "c1", 5000) ∷ (some "c1", 6000) ∷ (none, 7000) ∷ (some "c2", 8000) ∷ []

on_typing_all-spaced_example :
    spaced (on_typing_all keystrokes (record { last_sent = 0; sent = [] })).sent ≡ true
on_typing_all-spaced_example = on_typing_all-spaced keystrokes

get_tri_state-set_tri_state_example :
    get_tri_state (mask manage_roles) (set_tri_state (mask kick_members) deny opened)
    ≡ (if same manage_roles kick_members then deny else get_tri_state (mask manage_roles) opened)
get_tri_state-set_tri_state_example =
    get_tri_state-set_tri_state kick_members manage_roles deny opened

-- "a **b** `c`"
abbrev message : List ℕ
message = units "a **b** `c`"

parse_markdown-Ends_example : (segments : Segments) × (parse_markdown message ≡ some segments)
parse_markdown-Ends_example = parse_markdown-Ends message

-- "~~y~~ *z*": the later pattern stands first.
before_marker_is_text_example :
    Parses [] 20 (0x7e ∷ units "~y~~ *z*") (parse_inner [] 21 false (0x7e ∷ units "~y~~ *z*"))
unfolding units encode first_match placeholder_here strip_prefix
before_marker_is_text_example =
    before_marker_is_text [] 20 0x7e (units "~y~~ *z*") refl (omega arith)

-- "`*a*`", and a block that is "_x_\n".
code_verbatim_example :
    (parse_markdown (backtick ∷ 0x2a ∷ (units "a*" ++ tick))
      ≡ some (cons (code_inline (units "*a*")) nil))
    × (parse_markdown (fence ++ 0xa ∷ (units "_x_\n" ++ fence))
        ≡ some (cons (code_block (units "_x_\n") []) nil))
unfolding units encode
code_verbatim_example = code_verbatim 0x2a (units "a*") (units "_x_\n") refl refl
