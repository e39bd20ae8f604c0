-- ===== src/Examples/OfComposer.antt =====
-- The theorems on MessageInput.tsx at concrete texts.
use together.Base.{false, ℕ, ◌≡◌, refl, none, some, List, [], ◌∷◌, ◌++◌, length, arith, returned}
use together.Text.{
  units, encode, slice_before, slice_from, match_back, is_word, is_letter, is_digit, is_blank,
  is_newline, starts_with,
}
use together.Emoji.{in_name}
use together.Emoji.Table.{emoji_categories}
use together.SlashCommands.{detect_slash_trigger, search_commands}
use together.Composer.{
  Composer, initial, at_sign, mention_match, emoji_match, apply_mention, on_change, on_select,
  detect_all_triggers, handle_submit,
}
use together.Composer.Keys.{Sources, Press, enter, type_error, handle_key_down}
use together.Composer.Pickers.{OnePicker, one_picker, Handles, operations-OnePicker}
use together.Composer.Completion.{apply_mention-completes}
use together.Composer.StaleIndex.{stale_index_throws}

abbrev mentioning : Composer
mentioning = record initial { content = units "hi @al there" }

apply_mention-completes_example :
    let t = apply_mention 6 (units "alice") mentioning in
    (text : List ℕ) × (slice_before 6 mentioning.content ≡ text ++ at_sign ∷ units "al")
    × (t.content
        ≡ text ++ (at_sign ∷ (units "alice" ++ 0x20 ∷ []) ++ slice_from 6 mentioning.content))
    × (t.caret ≡ some (length (text ++ at_sign ∷ (units "alice" ++ 0x20 ∷ []))))
    × (t.mention_query ≡ none)
unfolding mention_match match_back is_word is_letter is_digit is_blank units encode
apply_mention-completes_example =
    apply_mention-completes 6 (units "alice") (units "al") mentioning refl

abbrev smiling : Composer
smiling = record initial { content = units "so :gri" }

abbrev sources : Sources
sources = record {
  to_lower_case = λ s. s;
  categories = emoji_categories;
  custom_emojis = [];
  members = [];
}

abbrev press : Press
press = record { key = enter; shift = false; replying = false; start = 2; end = 2 }

-- The third command is chosen in the whole list; then a letter is typed.
abbrev listing : Composer
listing = record initial { content = units "/"; slash_query = some []; slash_active_idx = 2 }

stale_index_throws_example :
    handle_key_down sources press (on_change 2 (units "/g") listing) ≡ type_error
unfolding on_change detect_all_triggers emoji_match detect_slash_trigger match_back in_name
    is_letter is_digit is_newline is_blank search_commands starts_with units encode
stale_index_throws_example =
    stale_index_throws sources press 2 (units "/g") (units "g") listing refl refl (omega arith)
      (omega arith)

operations-OnePicker_example :
    OnePicker (on_change 2 (units "/g") listing)
    × OnePicker (on_select 2 listing)
    × Handles OnePicker (handle_key_down sources press listing)
    × OnePicker (handle_submit (λ s. s) (returned tt) listing)
unfolding one_picker
operations-OnePicker_example =
    operations-OnePicker sources press 2 (units "/g") (λ s. s) (returned tt) listing refl refl

abbrev typed : Composer
typed = record initial { content = units " hello " }
