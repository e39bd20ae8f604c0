-- ===== src/Emoji/Table/Travel.antt =====
-- clients/web/src/utils/emoji.ts: the category Travel.
use together.Base.{List, [], ◌∷◌}
use together.Emoji.Entries.{EmojiEntry, entry, aliased, EmojiCategory}

abbrev pub travel_emojis : List EmojiEntry
travel_emojis =
    aliased "🚗" "car" ("red_car" ∷ [])
    ∷ entry "🚕" "taxi"
    ∷ entry "🚙" "blue_car"
    ∷ entry "🚌" "bus"
    ∷ entry "🚎" "trolleybus"
    ∷ entry "🏎\u{fe0f}" "racing_car"
    ∷ entry "🚓" "police_car"
    ∷ entry "🚑" "ambulance"
    ∷ entry "🚒" "fire_engine"
    ∷ entry "🚐" "minibus"
    ∷ entry "🛻" "pickup_truck"
    ∷ entry "🚚" "truck"
    ∷ entry "🚛" "articulated_lorry"
    ∷ entry "🚜" "tractor"
    ∷ entry "🏍\u{fe0f}" "motorcycle"
    ∷ entry "🛵" "motor_scooter"
    ∷ entry "🚲" "bike"
    ∷ entry "🛴" "kick_scooter"
    ∷ entry "🛹" "skateboard"
    ∷ entry "🛼" "roller_skate"
    ∷ entry "🚏" "busstop"
    ∷ entry "🛣\u{fe0f}" "motorway"
    ∷ entry "🚦" "vertical_traffic_light"
    ∷ entry "🚧" "construction"
    ∷ entry "⛽" "fuelpump"
    ∷ entry "🛞" "wheel"
    ∷ entry "🚢" "ship"
    ∷ entry "⛴\u{fe0f}" "ferry"
    ∷ entry "🚤" "speedboat"
    ∷ entry "⛵" "sailboat"
    ∷ entry "🛶" "canoe"
    ∷ entry "🚁" "helicopter"
    ∷ entry "✈\u{fe0f}" "airplane"
    ∷ entry "🛫" "flight_departure"
    ∷ entry "🛬" "flight_arrival"
    ∷ entry "🛩\u{fe0f}" "small_airplane"
    ∷ entry "🚀" "rocket"
    ∷ entry "🛸" "flying_saucer"
    ∷ entry "🪂" "parachute"
    ∷ entry "🛺" "auto_rickshaw"
    ∷ entry "🚂" "steam_locomotive"
    ∷ entry "🚃" "railway_car"
    ∷ entry "🚄" "bullettrain_side"
    ∷ entry "🚅" "bullettrain_front"
    ∷ entry "🚆" "train2"
    ∷ entry "🚇" "metro"
    ∷ entry "🚈" "light_rail"
    ∷ entry "🚉" "station"
    ∷ entry "🚊" "tram"
    ∷ entry "🏔\u{fe0f}" "mountain_snow"
    ∷ entry "⛰\u{fe0f}" "mountain"
    ∷ entry "🌋" "volcano"
    ∷ entry "🗻" "mount_fuji"
    ∷ entry "🏕\u{fe0f}" "camping"
    ∷ entry "🏖\u{fe0f}" "beach_umbrella"
    ∷ entry "🏜\u{fe0f}" "desert"
    ∷ entry "🏝\u{fe0f}" "desert_island"
    ∷ entry "🏗\u{fe0f}" "building_construction"
    ∷ entry "🏛\u{fe0f}" "classical_building"
    ∷ entry "🏠" "house"
    ∷ entry "🏡" "house_with_garden"
    ∷ entry "🏢" "office"
    ∷ entry "🏣" "post_office"
    ∷ entry "🏥" "hospital"
    ∷ entry "🏦" "bank"
    ∷ entry "🏨" "hotel"
    ∷ entry "🏪" "convenience_store"
    ∷ entry "🏫" "school"
    ∷ entry "⛪" "church"
    ∷ entry "🕌" "mosque"
    ∷ entry "🛕" "hindu_temple"
    ∷ entry "🕍" "synagogue"
    ∷ entry "⛩\u{fe0f}" "shinto_shrine"
    ∷ entry "🌁" "foggy"
    ∷ entry "🌃" "night_with_stars"
    ∷ entry "🏙\u{fe0f}" "cityscape"
    ∷ entry "🌄" "sunrise_over_mountains"
    ∷ entry "🌅" "sunrise"
    ∷ entry "🌆" "city_sunrise"
    ∷ entry "🌇" "city_sunset"
    ∷ entry "🌉" "bridge_at_night"
    ∷ entry "🗺\u{fe0f}" "world_map"
    ∷ entry "🗼" "tokyo_tower"
    ∷ entry "🗽" "statue_of_liberty"
    ∷ entry "🏰" "european_castle"
    ∷ entry "🏯" "japanese_castle"
    ∷ []

abbrev pub travel : EmojiCategory
travel = record { label = "Travel"; icon = "✈\u{fe0f}"; emojis = travel_emojis }
