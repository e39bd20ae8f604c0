-- ===== src/Composer.antt =====
-- clients/web/src/components/messages/MessageInput.tsx: the text field with its pickers, and `filterMembers` of
-- MentionAutocomplete.tsx. Texts are UTF-16 code units. `cursor` is the selection's start in the field when the
-- handler runs. The debounced preview of links and the drag state are left out.
pub mod Keys
pub mod Pickers
pub mod Completion
pub mod Sending
pub mod StaleIndex
use together.Base.{
  ℕ, zero, suc, ◌+◌, ◌-◌, String, Bool, true, false, not, ◌&&◌, ◌||◌, Option, none, some, List, [],
  ◌∷◌, ◌++◌, reverse, if◌then◌else◌, eqb, leb, ltb, length, take, filter, any, is_some, get_or,
  ◌==◌, Outcome, returned, thrown,
}
use together.Text.{
  units, slice_before, slice_from, last_index_of, includes_text, same_text, is_word, is_blank, trim,
  match_back,
}
use together.Types.Community.{MemberDto}
use together.Emoji.{in_name, colon, CustomName, search_all_emoji}
use together.Emoji.Entries.{EmojiEntry, EmojiCategory}
use together.SlashCommands.{SlashCommand, slash, detect_slash_trigger, search_commands}

pub data ActiveCommand : Type 0 where
  giphy poll event : List ℕ → ActiveCommand

pub record PendingFile : Type 0 where
  pub name : String
  pub size : ℕ

-- `caret` is the position that a handler asked for last.
pub record Composer : Type 0 where
  pub content : List ℕ
  pub pending_files : List PendingFile
  pub emoji_query : Option (List ℕ)
  pub emoji_active_idx : ℕ
  pub slash_query : Option (List ℕ)
  pub slash_active_idx : ℕ
  pub mention_query : Option (List ℕ)
  pub mention_active_idx : ℕ
  pub active_command : Option ActiveCommand
  pub caret : Option ℕ

abbrev pub initial : Composer
initial = record {
  content = [];
  pending_files = [];
  emoji_query = none;
  emoji_active_idx = 0;
  slash_query = none;
  slash_active_idx = 0;
  mention_query = none;
  mention_active_idx = 0;
  active_command = none;
  caret = none;
}

-- `${f.name}:${f.size}`: the size is a number, so that the key determines both.
abbrev pub same_file : PendingFile → PendingFile → Bool
same_file f g = f.name == g.name && eqb f.size g.size

unfoldable pub add_files : List PendingFile → Composer → Composer
add_files files s = record s {
  pending_files =
      s.pending_files ++ filter (λ f. not (any (λ g. same_file g f) s.pending_files)) files;
}

abbrev pub without_index {ℓ} : {A : Type ℓ} → ℕ → List A → List A
without_index n [] = []
without_index zero (x ∷ xs) = xs
without_index (suc n) (x ∷ xs) = x ∷ without_index n xs

pub remove_file : ℕ → Composer → Composer
remove_file index s = record s { pending_files = without_index index s.pending_files }

abbrev pub at_sign : ℕ
at_sign = 0x40

-- `(?:^|\s)`
abbrev pub after_blank : List ℕ → Bool
after_blank [] = true
after_blank (c ∷ _) = is_blank c

-- Any text may stand before a colon.
abbrev pub anywhere : List ℕ → Bool
anywhere _ = true

-- /:([a-zA-Z0-9_+-]{1,})$/
unfoldable pub emoji_match : List ℕ → Option (List ℕ)
emoji_match before = elim (match_back in_name colon anywhere (reverse before) []) [
  | none ↦ none
  | some [] ↦ none
  | some (c ∷ query) ↦ some (c ∷ query)
]

-- /(?:^|\s)@([a-zA-Z0-9_]*)$/
unfoldable pub mention_match : List ℕ → Option (List ℕ)
mention_match before = match_back is_word at_sign after_blank (reverse before) []

-- An index starts again when its picker is shut.
abbrev pub kept_index : Option (List ℕ) → ℕ → ℕ
kept_index none idx = 0
kept_index (some query) idx = idx

unfoldable pub detect_all_triggers : ℕ → List ℕ → Composer → Composer
detect_all_triggers cursor content s =
    let before = slice_before cursor content in
    let emoji = emoji_match before in
    let command = if is_some emoji then none else detect_slash_trigger content cursor in
    let mention = if is_some emoji || is_some command then none else mention_match before in
    record s {
      emoji_query = emoji;
      emoji_active_idx = kept_index emoji s.emoji_active_idx;
      slash_query = command;
      slash_active_idx = kept_index command s.slash_active_idx;
      mention_query = mention;
      mention_active_idx = kept_index mention s.mention_active_idx;
    }

unfoldable pub on_change : ℕ → List ℕ → Composer → Composer
unfolding detect_all_triggers
on_change cursor content s = detect_all_triggers cursor content (record s { content = content })

unfoldable pub on_select : ℕ → Composer → Composer
unfolding detect_all_triggers
on_select cursor s = detect_all_triggers cursor s.content s

-- `s.slice(0, i)` for an index that `lastIndexOf` gave: -1 drops the last unit.
abbrev pub slice_to : Option ℕ → List ℕ → List ℕ
slice_to none s = slice_before (length s - 1) s
slice_to (some n) s = slice_before n s

-- `i + n`, where i is an index or -1
abbrev pub plus : Option ℕ → ℕ → ℕ
plus none n = n - 1
plus (some i) n = i + n

-- `[...s].length` counts code points: two surrogates that belong together are one.
unfoldable pub code_points : List ℕ → ℕ
code_points [] = 0
code_points (a ∷ []) = 1
code_points (a ∷ b ∷ s) =
    let pair = code_points s in
    let single = code_points (b ∷ s) in
    if leb 0xd800 a && leb a 0xdbff && leb 0xdc00 b && leb b 0xdfff then suc pair else suc single

unfoldable pub apply_emoji : ℕ → List ℕ → Composer → Composer
apply_emoji cursor emoji s =
    let before = slice_before cursor s.content in
    let colon_idx = last_index_of colon before in
    record s {
      content = slice_to colon_idx before ++ (emoji ++ slice_from cursor s.content);
      emoji_query = none;
      emoji_active_idx = 0;
      caret = some (plus colon_idx (code_points emoji));
    }

unfoldable pub apply_mention : ℕ → List ℕ → Composer → Composer
apply_mention cursor username s =
    let before = slice_before cursor s.content in
    let at_idx = last_index_of at_sign before in
    let inserted = at_sign ∷ (username ++ 0x20 ∷ []) in
    record s {
      content = slice_to at_idx before ++ (inserted ++ slice_from cursor s.content);
      mention_query = none;
      mention_active_idx = 0;
      caret = some (plus at_idx (length inserted));
    }

-- What a submission sends: the text, and the files if there are any. A file-only message holds a zero-width space.
unfoldable pub submission : Composer → Option (List ℕ × List PendingFile)
submission s =
    let trimmed = trim s.content in
    if is_some s.active_command
    then none
    else if eqb (length trimmed) 0
    then (if eqb (length s.pending_files) 0 then none else some (0x200b ∷ [], s.pending_files))
    else some (trimmed, s.pending_files)

-- `meanwhile` is what the user does while `sendMessage` is awaited.
unfoldable pub handle_submit :
    (meanwhile : Composer → Composer) → Outcome (Unit {0}) → Composer → Composer
handle_submit meanwhile outcome s = elim (submission s) [
  | none ↦ s
  | some sent ↦ elim outcome [
    | thrown err ↦ meanwhile s
    | returned _ ↦ record (meanwhile s) {
      content = [];
      pending_files = [];
      emoji_query = none;
      emoji_active_idx = 0;
      slash_query = none;
      slash_active_idx = 0;
      mention_query = none;
      mention_active_idx = 0;
      active_command = none;
    }
  ]
]

-- `filterMembers`
unfoldable pub filter_members :
    (to_lower_case : List ℕ → List ℕ) → List MemberDto → List ℕ → List MemberDto
filter_members to_lower_case members [] = take 8 members
filter_members to_lower_case members (c ∷ query) =
    let q = to_lower_case (c ∷ query) in
    take 8 (
      filter
        (λ m.
          includes_text (to_lower_case (units m.username)) q
          || includes_text (to_lower_case (units (get_or m.nickname ""))) q)
        members)
