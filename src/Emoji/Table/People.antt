-- ===== src/Emoji/Table/People.antt =====
-- clients/web/src/utils/emoji.ts: the category People.
use together.Base.{List, [], ◌∷◌}
use together.Emoji.Entries.{EmojiEntry, entry, aliased, EmojiCategory}

abbrev pub people_emojis : List EmojiEntry
people_emojis =
    entry "👋" "wave"
    ∷ entry "🤚" "raised_back_of_hand"
    ∷ entry "🖐\u{fe0f}" "raised_hand_with_fingers_splayed"
    ∷ entry "✋" "raised_hand"
    ∷ entry "🖖" "vulcan_salute"
    ∷ entry "👌" "ok_hand"
    ∷ entry "🤌" "pinched_fingers"
    ∷ entry "✌\u{fe0f}" "v"
    ∷ entry "🤞" "crossed_fingers"
    ∷ entry "🤟" "love_you_gesture"
    ∷ entry "🤘" "metal"
    ∷ entry "🤙" "call_me_hand"
    ∷ entry "👈" "point_left"
    ∷ entry "👉" "point_right"
    ∷ entry "👆" "point_up_2"
    ∷ aliased "🖕" "fu" ("middle_finger" ∷ [])
    ∷ entry "👇" "point_down"
    ∷ entry "☝\u{fe0f}" "point_up"
    ∷ aliased "👍" "thumbsup" ("+1" ∷ [])
    ∷ aliased "👎" "thumbsdown" ("-1" ∷ [])
    ∷ entry "✊" "fist"
    ∷ aliased "👊" "facepunch" ("punch" ∷ [])
    ∷ entry "🤛" "left_facing_fist"
    ∷ entry "🤜" "right_facing_fist"
    ∷ entry "👏" "clap"
    ∷ entry "🙌" "raised_hands"
    ∷ entry "👐" "open_hands"
    ∷ entry "🤲" "palms_up_together"
    ∷ entry "🙏" "pray"
    ∷ entry "✍\u{fe0f}" "writing_hand"
    ∷ entry "💅" "nail_care"
    ∷ entry "🤳" "selfie"
    ∷ entry "💪" "muscle"
    ∷ entry "🦾" "mechanical_arm"
    ∷ entry "🦵" "leg"
    ∷ entry "🦶" "foot"
    ∷ entry "👂" "ear"
    ∷ entry "🦻" "ear_with_hearing_aid"
    ∷ entry "👃" "nose"
    ∷ entry "👁\u{fe0f}" "eye"
    ∷ entry "👀" "eyes"
    ∷ entry "👅" "tongue"
    ∷ entry "👄" "lips"
    ∷ entry "💋" "kiss"
    ∷ entry "💔" "broken_heart"
    ∷ aliased "❤\u{fe0f}" "heart" ("red_heart" ∷ [])
    ∷ entry "🧡" "orange_heart"
    ∷ entry "💛" "yellow_heart"
    ∷ entry "💚" "green_heart"
    ∷ entry "💙" "blue_heart"
    ∷ entry "💜" "purple_heart"
    ∷ entry "🖤" "black_heart"
    ∷ entry "🤍" "white_heart"
    ∷ entry "🤎" "brown_heart"
    ∷ entry "💯" "100"
    ∷ entry "💢" "anger"
    ∷ aliased "💥" "boom" ("collision" ∷ [])
    ∷ entry "💫" "dizzy"
    ∷ entry "💦" "sweat_drops"
    ∷ entry "💨" "dash"
    ∷ entry "🕳\u{fe0f}" "hole"
    ∷ entry "💬" "speech_balloon"
    ∷ entry "💭" "thought_balloon"
    ∷ []

abbrev pub people : EmojiCategory
people = record { label = "People"; icon = "👋"; emojis = people_emojis }
