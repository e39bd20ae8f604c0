-- ===== src/Composer/Pickers.antt =====
-- MessageInput.tsx: one picker at a time, and the choice of an entry that is not there.
use together.Base.{
  ℕ, ◌-◌, ◌≡◌, Bool, true, false, not, ◌&&◌, Option, none, some, List, length, get_elem?, is_some,
  min, arith, Outcome,
}
use together.Text.{units}
use together.Types.Community.{MemberDto}
use together.Emoji.Entries.{EmojiEntry}
use together.Emoji.{search_all_emoji}
use together.SlashCommands.{SlashCommand, search_commands}
use together.Composer.{
  Composer, detect_all_triggers, on_change, on_select, apply_emoji, apply_mention, handle_submit,
  filter_members,
}
use together.Composer.Keys.{
  KeyResult, handled, submits, cancels_reply, ignored, type_error, chosen, Sources, Press, Key,
  plain_key, enter, navigate, Navigation, move, choose, close, pass, act_on, handle_slash_select,
  mention_key, after_emoji, emoji_key, after_slash, slash_key, handle_key_down,
}

-- At most one of the three pickers is open.
unfoldable pub one_picker : Composer → Bool
one_picker s =
    not (is_some s.emoji_query && is_some s.slash_query)
    && not (is_some s.emoji_query && is_some s.mention_query)
    && not (is_some s.slash_query && is_some s.mention_query)

abbrev pub OnePicker : Composer → Type 0
OnePicker s = one_picker s ≡ true

detect-OnePicker :
    (cursor : ℕ) (content : List ℕ) (s : Composer)
    → OnePicker (detect_all_triggers cursor content s)
unfolding detect_all_triggers one_picker
detect-OnePicker cursor content s = ground arith

apply_emoji-OnePicker :
    (cursor : ℕ) (emoji : List ℕ) (s : Composer)
    → OnePicker s
    → OnePicker (apply_emoji cursor emoji s)
unfolding apply_emoji one_picker
apply_emoji-OnePicker cursor emoji s h = ground (arith, h)

apply_mention-OnePicker :
    (cursor : ℕ) (name : List ℕ) (s : Composer)
    → OnePicker s
    → OnePicker (apply_mention cursor name s)
unfolding apply_mention one_picker
apply_mention-OnePicker cursor name s h = ground (arith, h)

slash_select-OnePicker :
    (cursor start end : ℕ) (command : SlashCommand) (s : Composer)
    → OnePicker s
    → OnePicker (handle_slash_select cursor start end command s)
unfolding handle_slash_select one_picker
slash_select-OnePicker cursor start end command s h = ground (arith, h)

submit-OnePicker :
    (meanwhile : Composer → Composer) (outcome : Outcome (Unit {0})) (s : Composer)
    → OnePicker s
    → OnePicker (meanwhile s)
    → OnePicker (handle_submit meanwhile outcome s)
unfolding handle_submit one_picker
submit-OnePicker meanwhile (Outcome.returned x) s h k = ground (arith, h, k)
submit-OnePicker meanwhile (Outcome.thrown err) s h k = ground (arith, h, k)

-- A property of the field after a key that it handles.
abbrev pub Handles : (Composer → Type 0) → KeyResult → Type 0
Handles P (handled c) = P c
Handles P submits = Unit {0}
Handles P cancels_reply = Unit {0}
Handles P ignored = Unit {0}
Handles P type_error = Unit {0}

chosen-Handles {ℓ} :
    {A : Type ℓ} (P : Composer → Type 0) (o : Option A) (f : A → Composer)
    → ((a : A) → P (f a))
    → Handles P (chosen o f)
chosen-Handles P none f h = tt
chosen-Handles P (some a) f h = h a

plain_key-Handles :
    (P : Composer → Type 0) (key : Key) (shift replying : Bool)
    → Handles P (plain_key key shift replying)
unfolding plain_key
plain_key-Handles P Key.arrow_down shift replying = tt
plain_key-Handles P Key.arrow_up shift replying = tt
plain_key-Handles P enter true replying = tt
plain_key-Handles P enter false replying = tt
plain_key-Handles P Key.tab shift replying = tt
plain_key-Handles P Key.escape shift true = tt
plain_key-Handles P Key.escape shift false = tt
plain_key-Handles P Key.other_key shift replying = tt

act_on-Handles :
    (P : Composer → Type 0) (n : Navigation) (moved : ℕ → Composer) (choice : KeyResult)
    (shut : Composer) (passed : KeyResult)
    → ((idx : ℕ) → P (moved idx))
    → Handles P choice
    → P shut
    → Handles P passed
    → Handles P (act_on n moved choice shut passed)
act_on-Handles P (move idx) moved choice shut passed a b c d = a idx
act_on-Handles P choose moved choice shut passed a b c d = b
act_on-Handles P close moved choice shut passed a b c d = c
act_on-Handles P pass moved choice shut passed a b c d = d

module _ (src : Sources) (p : Press) where
  mention_key-OnePicker :
      (query : List ℕ) (s : Composer) → OnePicker s → Handles OnePicker (mention_key src p query s)
  unfolding mention_key one_picker
  mention_key-OnePicker query s h =
      let results = filter_members src.to_lower_case src.members query in
      let idx = min s.mention_active_idx (length results - 1) in
      let apply = λ (m : MemberDto). apply_mention p.start (units m.username) s in
      act_on-Handles OnePicker (navigate p.key (length results) s.mention_active_idx)
        (λ i. record s { mention_active_idx = i }) (chosen (get_elem? results idx) apply)
        (record s { mention_query = none }) (plain_key p.key p.shift p.replying) (λ _. h)
        (chosen-Handles OnePicker (get_elem? results idx) apply
          (λ m. apply_mention-OnePicker p.start (units m.username) s h))
        (ground (arith, h)) (plain_key-Handles OnePicker p.key p.shift p.replying)

  after_emoji-OnePicker : (s : Composer) → OnePicker s → Handles OnePicker (after_emoji src p s)
  unfolding after_emoji
  after_emoji-OnePicker s h =
      elim s.mention_query
        as (λ (q : Option (List ℕ)). Handles OnePicker (elim q [
          | none ↦ plain_key p.key p.shift p.replying
          | some query ↦ mention_key src p query s
        ])) [
          | none ↦ plain_key-Handles OnePicker p.key p.shift p.replying
          | some query ↦ mention_key-OnePicker query s h
        ]

  emoji_key-OnePicker :
      (query : List ℕ) (s : Composer) → OnePicker s → Handles OnePicker (emoji_key src p query s)
  unfolding emoji_key one_picker
  emoji_key-OnePicker query s h =
      let results = search_all_emoji src.to_lower_case src.categories query src.custom_emojis 8 in
      let apply = λ (e : EmojiEntry). apply_emoji p.start e.emoji s in
      act_on-Handles OnePicker (navigate p.key (length results) s.emoji_active_idx)
        (λ i. record s { emoji_active_idx = i })
        (chosen (get_elem? results s.emoji_active_idx) apply) (record s { emoji_query = none })
        (after_emoji src p s) (λ _. h)
        (chosen-Handles OnePicker (get_elem? results s.emoji_active_idx) apply
          (λ e. apply_emoji-OnePicker p.start e.emoji s h))
        (ground (arith, h)) (after_emoji-OnePicker s h)

  after_slash-OnePicker : (s : Composer) → OnePicker s → Handles OnePicker (after_slash src p s)
  unfolding after_slash
  after_slash-OnePicker s h =
      elim s.emoji_query
        as (λ (q : Option (List ℕ)).
          Handles OnePicker
            (elim q [ none ↦ after_emoji src p s | some query ↦ emoji_key src p query s ])) [
              | none ↦ after_emoji-OnePicker s h
              | some query ↦ emoji_key-OnePicker query s h
            ]

  slash_key-OnePicker :
      (query : List ℕ) (s : Composer) → OnePicker s → Handles OnePicker (slash_key src p query s)
  unfolding slash_key one_picker
  slash_key-OnePicker query s h =
      let results = search_commands src.to_lower_case query in
      let apply = λ (c : SlashCommand). handle_slash_select p.start p.start p.end c s in
      act_on-Handles OnePicker (navigate p.key (length results) s.slash_active_idx)
        (λ i. record s { slash_active_idx = i })
        (chosen (get_elem? results s.slash_active_idx) apply) (record s { slash_query = none })
        (after_slash src p s) (λ _. h)
        (chosen-Handles OnePicker (get_elem? results s.slash_active_idx) apply
          (λ c. slash_select-OnePicker p.start p.start p.end c s h))
        (ground (arith, h)) (after_slash-OnePicker s h)

  key-OnePicker : (s : Composer) → OnePicker s → Handles OnePicker (handle_key_down src p s)
  unfolding handle_key_down
  key-OnePicker s h =
      elim s.slash_query
        as (λ (q : Option (List ℕ)).
          Handles OnePicker
            (elim q [ none ↦ after_slash src p s | some query ↦ slash_key src p query s ])) [
              | none ↦ after_slash-OnePicker s h
              | some query ↦ slash_key-OnePicker query s h
            ]

  -- At most one of the pickers for commands, emoji and mentions is open after any change of the text or the cursor,
  -- and every key, choice and submission keeps it so.
  pub operations-OnePicker :
      (cursor : ℕ) (content : List ℕ) (meanwhile : Composer → Composer)
      (outcome : Outcome (Unit {0})) (s : Composer)
      → OnePicker s
      → OnePicker (meanwhile s)
      → OnePicker (on_change cursor content s)
        × OnePicker (on_select cursor s)
        × Handles OnePicker (handle_key_down src p s)
        × OnePicker (handle_submit meanwhile outcome s)
  unfolding on_change on_select
  operations-OnePicker cursor content meanwhile outcome s h k = (
    detect-OnePicker cursor content (record s { content = content }),
    detect-OnePicker cursor s.content s,
    key-OnePicker s h,
    submit-OnePicker meanwhile outcome s h k,
  )
