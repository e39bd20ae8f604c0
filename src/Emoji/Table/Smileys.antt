-- ===== src/Emoji/Table/Smileys.antt =====
-- clients/web/src/utils/emoji.ts: the category Smileys.
use together.Base.{List, [], ◌∷◌}
use together.Emoji.Entries.{EmojiEntry, entry, aliased, EmojiCategory}

abbrev pub smileys_emojis : List EmojiEntry
smileys_emojis =
    entry "😀" "grinning"
    ∷ entry "😃" "smiley"
    ∷ entry "😄" "smile"
    ∷ entry "😁" "grin"
    ∷ aliased "😆" "laughing" ("satisfied" ∷ [])
    ∷ entry "😅" "sweat_smile"
    ∷ entry "🤣" "rofl"
    ∷ entry "😂" "joy"
    ∷ entry "🙂" "slightly_smiling_face"
    ∷ entry "🙃" "upside_down_face"
    ∷ entry "😉" "wink"
    ∷ entry "😊" "blush"
    ∷ entry "😇" "innocent"
    ∷ entry "🥰" "smiling_face_with_hearts"
    ∷ entry "😍" "heart_eyes"
    ∷ entry "🤩" "star_struck"
    ∷ entry "😘" "kissing_heart"
    ∷ entry "😗" "kissing"
    ∷ entry "😚" "kissing_closed_eyes"
    ∷ entry "😙" "kissing_smiling_eyes"
    ∷ entry "🥲" "smiling_face_with_tear"
    ∷ entry "😋" "yum"
    ∷ entry "😛" "stuck_out_tongue"
    ∷ entry "😜" "stuck_out_tongue_winking_eye"
    ∷ entry "🤪" "zany_face"
    ∷ entry "😝" "stuck_out_tongue_closed_eyes"
    ∷ entry "🤑" "money_mouth_face"
    ∷ entry "🤗" "hugs"
    ∷ entry "🤭" "hand_over_mouth"
    ∷ entry "🤫" "shushing_face"
    ∷ entry "🤔" "thinking"
    ∷ entry "🤐" "zipper_mouth_face"
    ∷ entry "🤨" "raised_eyebrow"
    ∷ entry "😐" "neutral_face"
    ∷ entry "😑" "expressionless"
    ∷ entry "😶" "no_mouth"
    ∷ entry "😏" "smirk"
    ∷ entry "😒" "unamused"
    ∷ aliased "🙄" "eye_roll" ("rolling_eyes" ∷ [])
    ∷ entry "😬" "grimacing"
    ∷ entry "🤥" "lying_face"
    ∷ entry "😌" "relieved"
    ∷ entry "😔" "pensive"
    ∷ entry "😪" "sleepy"
    ∷ entry "🤤" "drooling_face"
    ∷ entry "😴" "sleeping"
    ∷ entry "😷" "mask"
    ∷ entry "🤒" "face_with_thermometer"
    ∷ entry "🤕" "face_with_head_bandage"
    ∷ entry "🤢" "nauseated_face"
    ∷ entry "🤮" "vomiting_face"
    ∷ entry "🤧" "sneezing_face"
    ∷ entry "🥵" "hot_face"
    ∷ entry "🥶" "cold_face"
    ∷ entry "🥴" "woozy_face"
    ∷ entry "😵" "dizzy_face"
    ∷ entry "🤯" "exploding_head"
    ∷ entry "🤠" "cowboy_hat_face"
    ∷ entry "🥳" "partying_face"
    ∷ entry "🥸" "disguised_face"
    ∷ entry "😎" "sunglasses"
    ∷ entry "🤓" "nerd_face"
    ∷ entry "🧐" "monocle_face"
    ∷ entry "😕" "confused"
    ∷ entry "😟" "worried"
    ∷ entry "🙁" "slightly_frowning_face"
    ∷ entry "☹\u{fe0f}" "frowning_face"
    ∷ entry "😮" "open_mouth"
    ∷ entry "😯" "hushed"
    ∷ entry "😲" "astonished"
    ∷ entry "😳" "flushed"
    ∷ entry "🥺" "pleading_face"
    ∷ entry "😦" "frowning"
    ∷ entry "😧" "anguished"
    ∷ entry "😨" "fearful"
    ∷ entry "😰" "cold_sweat"
    ∷ entry "😥" "disappointed_relieved"
    ∷ entry "😢" "cry"
    ∷ entry "😭" "sob"
    ∷ entry "😱" "scream"
    ∷ entry "😖" "confounded"
    ∷ entry "😣" "persevere"
    ∷ entry "😞" "disappointed"
    ∷ entry "😓" "sweat"
    ∷ entry "😩" "weary"
    ∷ entry "😫" "tired_face"
    ∷ entry "🥱" "yawning_face"
    ∷ entry "😤" "triumph"
    ∷ aliased "😡" "rage" ("pout" ∷ [])
    ∷ entry "😠" "angry"
    ∷ entry "🤬" "cursing_face"
    ∷ entry "😈" "smiling_imp"
    ∷ entry "👿" "imp"
    ∷ entry "💀" "skull"
    ∷ entry "☠\u{fe0f}" "skull_and_crossbones"
    ∷ aliased "💩" "poop" ("shit" ∷ [])
    ∷ entry "🤡" "clown_face"
    ∷ entry "👹" "japanese_ogre"
    ∷ entry "👺" "japanese_goblin"
    ∷ entry "👻" "ghost"
    ∷ entry "👽" "alien"
    ∷ entry "👾" "space_invader"
    ∷ entry "🤖" "robot"
    ∷ []

abbrev pub smileys : EmojiCategory
smileys = record { label = "Smileys"; icon = "😀"; emojis = smileys_emojis }
