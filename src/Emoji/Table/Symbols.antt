-- ===== src/Emoji/Table/Symbols.antt =====
-- clients/web/src/utils/emoji.ts: the category Symbols.
use together.Base.{List, [], ◌∷◌}
use together.Emoji.Entries.{EmojiEntry, entry, EmojiCategory}

abbrev pub symbols_emojis : List EmojiEntry
symbols_emojis =
    entry "❤\u{fe0f}" "heart"
    ∷ entry "🧡" "orange_heart"
    ∷ entry "💛" "yellow_heart"
    ∷ entry "💚" "green_heart"
    ∷ entry "💙" "blue_heart"
    ∷ entry "💜" "purple_heart"
    ∷ entry "🖤" "black_heart"
    ∷ entry "🤍" "white_heart"
    ∷ entry "🤎" "brown_heart"
    ∷ entry "💔" "broken_heart"
    ∷ entry "❣\u{fe0f}" "heavy_heart_exclamation"
    ∷ entry "💕" "two_hearts"
    ∷ entry "💞" "revolving_hearts"
    ∷ entry "💓" "heartbeat"
    ∷ entry "💗" "heartpulse"
    ∷ entry "💖" "sparkling_heart"
    ∷ entry "💘" "cupid"
    ∷ entry "💝" "gift_heart"
    ∷ entry "💟" "heart_decoration"
    ∷ entry "☮\u{fe0f}" "peace_symbol"
    ∷ entry "✝\u{fe0f}" "latin_cross"
    ∷ entry "☯\u{fe0f}" "yin_yang"
    ∷ entry "✡\u{fe0f}" "star_of_david"
    ∷ entry "🔯" "six_pointed_star"
    ∷ entry "🕉\u{fe0f}" "om"
    ∷ entry "☪\u{fe0f}" "star_and_crescent"
    ∷ entry "☸\u{fe0f}" "wheel_of_dharma"
    ∷ entry "🛐" "place_of_worship"
    ∷ entry "♻\u{fe0f}" "recycle"
    ∷ entry "🔱" "trident"
    ∷ entry "📛" "name_badge"
    ∷ entry "🔰" "beginner"
    ∷ entry "⭕" "o"
    ∷ entry "✅" "white_check_mark"
    ∷ entry "☑\u{fe0f}" "ballot_box_with_check"
    ∷ entry "✔\u{fe0f}" "heavy_check_mark"
    ∷ entry "❌" "x"
    ∷ entry "❎" "negative_squared_cross_mark"
    ∷ entry "➕" "heavy_plus_sign"
    ∷ entry "➖" "heavy_minus_sign"
    ∷ entry "➗" "heavy_division_sign"
    ∷ entry "✖\u{fe0f}" "heavy_multiplication_x"
    ∷ entry "♾\u{fe0f}" "infinity"
    ∷ entry "💲" "heavy_dollar_sign"
    ∷ entry "💱" "currency_exchange"
    ∷ entry "™\u{fe0f}" "tm"
    ∷ entry "©\u{fe0f}" "copyright"
    ∷ entry "®\u{fe0f}" "registered"
    ∷ entry "〰\u{fe0f}" "wavy_dash"
    ∷ entry "➰" "curly_loop"
    ∷ entry "➿" "loop"
    ∷ entry "🔚" "end"
    ∷ entry "🔙" "back"
    ∷ entry "🔛" "on"
    ∷ entry "🔜" "soon"
    ∷ entry "🔝" "top"
    ∷ entry "🔴" "red_circle"
    ∷ entry "🟠" "orange_circle"
    ∷ entry "🟡" "yellow_circle"
    ∷ entry "🟢" "green_circle"
    ∷ entry "🔵" "blue_circle"
    ∷ entry "🟣" "purple_circle"
    ∷ entry "⚫" "black_circle"
    ∷ entry "⚪" "white_circle"
    ∷ entry "🟤" "brown_circle"
    ∷ entry "🔷" "large_blue_diamond"
    ∷ entry "🔶" "large_orange_diamond"
    ∷ entry "🔸" "small_orange_diamond"
    ∷ entry "🔹" "small_blue_diamond"
    ∷ entry "🔺" "small_red_triangle"
    ∷ entry "🔻" "small_red_triangle_down"
    ∷ entry "💠" "diamond_shape_with_a_dot_inside"
    ∷ entry "🔘" "radio_button"
    ∷ entry "🔲" "black_square_button"
    ∷ entry "🔳" "white_square_button"
    ∷ entry "⬛" "black_large_square"
    ∷ entry "⬜" "white_large_square"
    ∷ entry "◼\u{fe0f}" "black_medium_square"
    ∷ entry "◻\u{fe0f}" "white_medium_square"
    ∷ entry "◾" "black_medium_small_square"
    ∷ entry "◽" "white_medium_small_square"
    ∷ entry "▪\u{fe0f}" "black_small_square"
    ∷ entry "▫\u{fe0f}" "white_small_square"
    ∷ entry "🌐" "globe_with_meridians"
    ∷ entry "🗺\u{fe0f}" "world_map"
    ∷ entry "🧭" "compass"
    ∷ entry "🌍" "earth_africa"
    ∷ entry "🌎" "earth_americas"
    ∷ entry "🌏" "earth_asia"
    ∷ entry "☀\u{fe0f}" "sunny"
    ∷ entry "🌤\u{fe0f}" "partly_sunny"
    ∷ entry "⛅" "sun_behind_cloud"
    ∷ entry "🌦\u{fe0f}" "sun_behind_rain_cloud"
    ∷ entry "🌧\u{fe0f}" "cloud_with_rain"
    ∷ entry "⛈\u{fe0f}" "cloud_with_lightning_and_rain"
    ∷ entry "🌩\u{fe0f}" "cloud_with_lightning"
    ∷ entry "🌨\u{fe0f}" "cloud_with_snow"
    ∷ entry "❄\u{fe0f}" "snowflake"
    ∷ entry "⛄" "snowman"
    ∷ entry "🌬\u{fe0f}" "wind_face"
    ∷ entry "💨" "dash"
    ∷ entry "🌊" "ocean"
    ∷ entry "🌀" "cyclone"
    ∷ entry "🌈" "rainbow"
    ∷ entry "⚡" "zap"
    ∷ entry "🔥" "fire"
    ∷ entry "💧" "droplet"
    ∷ entry "🌱" "seedling"
    ∷ entry "🌿" "herb"
    ∷ entry "🍀" "four_leaf_clover"
    ∷ entry "🌸" "cherry_blossom"
    ∷ entry "🌺" "hibiscus"
    ∷ entry "🌻" "sunflower"
    ∷ entry "🌹" "rose"
    ∷ entry "🥀" "wilted_flower"
    ∷ entry "🌷" "tulip"
    ∷ entry "🌼" "blossom"
    ∷ entry "⭐" "star"
    ∷ entry "🌟" "star2"
    ∷ entry "✨" "sparkles"
    ∷ entry "🌙" "crescent_moon"
    ∷ entry "🌛" "first_quarter_moon_with_face"
    ∷ entry "🌝" "full_moon_with_face"
    ∷ entry "🌞" "sun_with_face"
    ∷ entry "🪐" "ringed_planet"
    ∷ entry "🌕" "full_moon"
    ∷ entry "🌖" "waning_gibbous_moon"
    ∷ entry "🌗" "last_quarter_moon"
    ∷ entry "🌘" "waning_crescent_moon"
    ∷ entry "🌑" "new_moon"
    ∷ entry "🌒" "waxing_crescent_moon"
    ∷ entry "🌓" "first_quarter_moon"
    ∷ entry "🌔" "waxing_gibbous_moon"
    ∷ []

abbrev pub symbols : EmojiCategory
symbols = record { label = "Symbols"; icon = "❤\u{fe0f}"; emojis = symbols_emojis }
