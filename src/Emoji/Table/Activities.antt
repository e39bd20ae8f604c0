-- ===== src/Emoji/Table/Activities.antt =====
-- clients/web/src/utils/emoji.ts: the category Activities.
use together.Base.{List, [], ◌∷◌}
use together.Emoji.Entries.{EmojiEntry, entry, EmojiCategory}

abbrev pub activities_emojis : List EmojiEntry
activities_emojis =
    entry "⚽" "soccer"
    ∷ entry "🏀" "basketball"
    ∷ entry "🏈" "football"
    ∷ entry "⚾" "baseball"
    ∷ entry "🥎" "softball"
    ∷ entry "🎾" "tennis"
    ∷ entry "🏐" "volleyball"
    ∷ entry "🏉" "rugby_football"
    ∷ entry "🎱" "8ball"
    ∷ entry "🏓" "ping_pong"
    ∷ entry "🏸" "badminton"
    ∷ entry "🥊" "boxing_glove"
    ∷ entry "🥋" "martial_arts_uniform"
    ∷ entry "🥅" "goal_net"
    ∷ entry "⛳" "golf"
    ∷ entry "🏹" "bow_and_arrow"
    ∷ entry "🎣" "fishing_pole_and_fish"
    ∷ entry "🤿" "diving_mask"
    ∷ entry "🎿" "ski"
    ∷ entry "🛷" "sled"
    ∷ entry "🥌" "curling_stone"
    ∷ entry "🎯" "dart"
    ∷ entry "🪃" "boomerang"
    ∷ entry "🏋\u{fe0f}" "weight_lifting"
    ∷ entry "🤼" "wrestlers"
    ∷ entry "🤸" "cartwheel"
    ∷ entry "🏊" "swimmer"
    ∷ entry "🚴" "bicyclist"
    ∷ entry "🏇" "horse_racing"
    ∷ entry "🧗" "climbing"
    ∷ entry "🏄" "surfer"
    ∷ entry "🤾" "handball_person"
    ∷ entry "🏌\u{fe0f}" "golfing"
    ∷ entry "🧘" "person_in_lotus_position"
    ∷ entry "🎽" "running_shirt_with_sash"
    ∷ entry "🎮" "video_game"
    ∷ entry "🕹\u{fe0f}" "joystick"
    ∷ entry "🎲" "game_die"
    ∷ entry "♟\u{fe0f}" "chess_pawn"
    ∷ entry "🎭" "performing_arts"
    ∷ entry "🎨" "art"
    ∷ entry "🎬" "clapper"
    ∷ entry "🎤" "microphone"
    ∷ entry "🎧" "headphones"
    ∷ entry "🎼" "musical_score"
    ∷ entry "🎹" "musical_keyboard"
    ∷ entry "🥁" "drum"
    ∷ entry "🪘" "long_drum"
    ∷ entry "🎷" "saxophone"
    ∷ entry "🎺" "trumpet"
    ∷ entry "🎸" "guitar"
    ∷ entry "🪕" "banjo"
    ∷ entry "🎻" "violin"
    ∷ entry "🪗" "accordion"
    ∷ entry "🎙\u{fe0f}" "studio_microphone"
    ∷ entry "🎚\u{fe0f}" "level_slider"
    ∷ entry "🎛\u{fe0f}" "control_knobs"
    ∷ entry "📻" "radio"
    ∷ entry "🎞\u{fe0f}" "film_frames"
    ∷ entry "📽\u{fe0f}" "film_projector"
    ∷ entry "🎥" "movie_camera"
    ∷ entry "📺" "tv"
    ∷ entry "🎡" "ferris_wheel"
    ∷ entry "🎢" "roller_coaster"
    ∷ entry "🎠" "carousel_horse"
    ∷ entry "🎪" "circus_tent"
    ∷ entry "🤹" "juggling_person"
    ∷ entry "🎉" "tada"
    ∷ entry "🎊" "confetti_ball"
    ∷ entry "🎈" "balloon"
    ∷ entry "🎀" "ribbon"
    ∷ entry "🎁" "gift"
    ∷ entry "🏆" "trophy"
    ∷ entry "🥇" "first_place_medal"
    ∷ entry "🥈" "second_place_medal"
    ∷ entry "🥉" "third_place_medal"
    ∷ entry "🏅" "sports_medal"
    ∷ entry "🎖\u{fe0f}" "military_medal"
    ∷ entry "🎗\u{fe0f}" "reminder_ribbon"
    ∷ []

abbrev pub activities : EmojiCategory
activities = record { label = "Activities"; icon = "⚽"; emojis = activities_emojis }
