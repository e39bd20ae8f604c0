-- ===== src/Composer/Keys.antt =====
-- MessageInput.tsx: the keys, and the choice of a slash command.
use together.Base.{
  ℕ, ◌+◌, ◌-◌, min, Bool, Option, none, some, List, [], ◌∷◌, ◌++◌, if◌then◌else◌, ltb, length,
  get_elem?,
}
use together.Text.{units, slice_before, slice_from, last_index_of, same_text, trim}
use together.Types.Community.{MemberDto}
use together.Emoji.{CustomName, search_all_emoji}
use together.Emoji.Entries.{EmojiCategory}
use together.SlashCommands.{SlashCommand, slash, search_commands}
use together.Composer.{
  Composer, ActiveCommand, giphy, poll, event, slice_to, plus, apply_emoji, apply_mention,
  filter_members,
}

-- The command that opens a form; another name opens none.
abbrev pub command_named : List ℕ → List ℕ → Option ActiveCommand → Option ActiveCommand
command_named name arg_text current =
    if same_text name (units "giphy")
    then some (giphy arg_text)
    else if same_text name (units "poll")
    then some (poll arg_text)
    else if same_text name (units "event")
    then some (event arg_text)
    else current

abbrev pub bars : List ℕ
bars = 0x7c ∷ 0x7c ∷ []

-- `start` and `end` are the selection of the field.
unfoldable pub handle_slash_select : (cursor start end : ℕ) → SlashCommand → Composer → Composer
handle_slash_select cursor start end command s =
    let slash_idx = last_index_of slash (slice_before cursor s.content) in
    let arg_text = trim (slice_from (plus slash_idx (length command.name + 1)) s.content) in
    let selected = slice_from start (slice_before end s.content) in
    let shut = record s { slash_query = none; slash_active_idx = 0 } in
    if same_text command.name (units "spoiler")
    then (if ltb 0 (length selected)
        then record shut {
          content =
              slice_before start s.content
              ++ (bars ++ (selected ++ (bars ++ slice_from end s.content)));
        }
        else record shut {
          content = slice_to slash_idx s.content ++ (bars ++ (bars ++ slice_from cursor s.content));
          caret = some (plus slash_idx 2);
        })
    else record shut {
      content = [];
      active_command = command_named command.name arg_text s.active_command;
    }

pub data Key : Type 0 where
  arrow_down arrow_up enter tab escape other_key : Key

-- What a key does to an open picker with so many results.
pub data Navigation : Type 0 where
  move : ℕ → Navigation
  choose close pass : Navigation

unfoldable pub navigate : Key → (count idx : ℕ) → Navigation
navigate arrow_down count idx = if ltb 0 count then move (min (idx + 1) (count - 1)) else pass
navigate arrow_up count idx = if ltb 0 count then move (idx - 1) else pass
navigate enter count idx = if ltb 0 count then choose else pass
navigate tab count idx = if ltb 0 count then choose else pass
navigate escape count idx = close
navigate other_key count idx = pass

-- How a key press ends: the field handles it; it submits; it cancels the reply; nothing happens; or the handler
-- throws a TypeError, since the chosen result is `undefined`.
pub data KeyResult : Type 0 where
  handled : Composer → KeyResult
  submits cancels_reply ignored type_error : KeyResult

abbrev pub chosen {ℓ} : {A : Type ℓ} → Option A → (A → Composer) → KeyResult
chosen none f = type_error
chosen (some a) f = handled (f a)

-- The keys when no picker takes them.
unfoldable pub plain_key : Key → (shift replying : Bool) → KeyResult
plain_key enter shift replying = if shift then ignored else submits
plain_key escape shift replying = if replying then cancels_reply else ignored
plain_key _ shift replying = ignored

-- What follows for each of them.
abbrev pub act_on : Navigation → (ℕ → Composer) → KeyResult → Composer → KeyResult → KeyResult
act_on (move idx) moved choice shut passed = handled (moved idx)
act_on choose moved choice shut passed = choice
act_on close moved choice shut passed = handled shut
act_on pass moved choice shut passed = passed

-- What the pickers search in: `custom_emojis` are those of the server, as the store has them.
pub record Sources : Type 0 where
  pub to_lower_case : List ℕ → List ℕ
  pub categories : List EmojiCategory
  pub custom_emojis : List CustomName
  pub members : List MemberDto

-- The field's selection, the shift key, and whether a message is being replied to.
pub record Press : Type 0 where
  pub key : Key
  pub shift : Bool
  pub replying : Bool
  pub start : ℕ
  pub end : ℕ

module _ (src : Sources) (p : Press) where
  unfoldable pub mention_key : List ℕ → Composer → KeyResult
  mention_key query s =
      let results = filter_members src.to_lower_case src.members query in
      act_on (navigate p.key (length results) s.mention_active_idx)
        (λ idx. record s { mention_active_idx = idx })
        (chosen (get_elem? results (min s.mention_active_idx (length results - 1)))
          (λ m. apply_mention p.start (units m.username) s))
        (record s { mention_query = none }) (plain_key p.key p.shift p.replying)

  unfoldable pub after_emoji : Composer → KeyResult
  unfolding mention_key
  after_emoji s = elim s.mention_query [
    | none ↦ plain_key p.key p.shift p.replying
    | some query ↦ mention_key query s
  ]

  unfoldable pub emoji_key : List ℕ → Composer → KeyResult
  unfolding after_emoji
  emoji_key query s =
      let results = search_all_emoji src.to_lower_case src.categories query src.custom_emojis 8 in
      act_on (navigate p.key (length results) s.emoji_active_idx)
        (λ idx. record s { emoji_active_idx = idx })
        (chosen (get_elem? results s.emoji_active_idx) (λ e. apply_emoji p.start e.emoji s))
        (record s { emoji_query = none }) (after_emoji s)

  unfoldable pub after_slash : Composer → KeyResult
  unfolding emoji_key after_emoji
  after_slash s = elim s.emoji_query [ none ↦ after_emoji s | some query ↦ emoji_key query s ]

  unfoldable pub slash_key : List ℕ → Composer → KeyResult
  unfolding after_slash
  slash_key query s =
      let results = search_commands src.to_lower_case query in
      act_on (navigate p.key (length results) s.slash_active_idx)
        (λ idx. record s { slash_active_idx = idx })
        (chosen (get_elem? results s.slash_active_idx)
          (λ command. handle_slash_select p.start p.start p.end command s))
        (record s { slash_query = none }) (after_slash s)

  unfoldable pub handle_key_down : Composer → KeyResult
  unfolding slash_key after_slash
  handle_key_down s = elim s.slash_query [ none ↦ after_slash s | some query ↦ slash_key query s ]
