-- ===== src/Emoji/Table/Objects.antt =====
-- clients/web/src/utils/emoji.ts: the category Objects.
use together.Base.{List, [], ◌∷◌}
use together.Emoji.Entries.{EmojiEntry, entry, aliased, EmojiCategory}

abbrev pub objects_emojis : List EmojiEntry
objects_emojis =
    entry "💡" "bulb"
    ∷ entry "🔦" "flashlight"
    ∷ entry "🕯\u{fe0f}" "candle"
    ∷ entry "💰" "moneybag"
    ∷ entry "💳" "credit_card"
    ∷ entry "💎" "gem"
    ∷ entry "⚖\u{fe0f}" "balance_scale"
    ∷ entry "🔧" "wrench"
    ∷ entry "🔨" "hammer"
    ∷ entry "⚒\u{fe0f}" "hammer_and_pick"
    ∷ entry "🛠\u{fe0f}" "hammer_and_wrench"
    ∷ entry "⛏\u{fe0f}" "pick"
    ∷ entry "🔩" "nut_and_bolt"
    ∷ entry "🪛" "screwdriver"
    ∷ entry "🔫" "gun"
    ∷ entry "🪃" "boomerang"
    ∷ entry "🛡\u{fe0f}" "shield"
    ∷ entry "🪚" "carpentry_saw"
    ∷ entry "🔪" "knife"
    ∷ entry "🗡\u{fe0f}" "dagger"
    ∷ entry "⚔\u{fe0f}" "crossed_swords"
    ∷ entry "🧲" "magnet"
    ∷ entry "🪜" "ladder"
    ∷ entry "🧰" "toolbox"
    ∷ entry "🔭" "telescope"
    ∷ entry "🔬" "microscope"
    ∷ entry "💊" "pill"
    ∷ entry "🩺" "stethoscope"
    ∷ entry "🩹" "adhesive_bandage"
    ∷ entry "🧬" "dna"
    ∷ entry "🔑" "key"
    ∷ entry "🗝\u{fe0f}" "old_key"
    ∷ entry "🪝" "hook"
    ∷ entry "🔓" "unlock"
    ∷ entry "🔒" "lock"
    ∷ entry "🪤" "mouse_trap"
    ∷ entry "🧸" "teddy_bear"
    ∷ entry "🪆" "nesting_dolls"
    ∷ entry "🎎" "dolls"
    ∷ entry "🪄" "magic_wand"
    ∷ entry "📱" "iphone"
    ∷ entry "💻" "computer"
    ∷ entry "⌨\u{fe0f}" "keyboard"
    ∷ entry "🖥\u{fe0f}" "desktop_computer"
    ∷ entry "🖨\u{fe0f}" "printer"
    ∷ entry "🖱\u{fe0f}" "computer_mouse"
    ∷ entry "💾" "floppy_disk"
    ∷ entry "💿" "cd"
    ∷ entry "📀" "dvd"
    ∷ entry "📷" "camera"
    ∷ entry "📸" "camera_flash"
    ∷ entry "📹" "video_camera"
    ∷ entry "📞" "telephone_receiver"
    ∷ aliased "☎\u{fe0f}" "phone" ("telephone" ∷ [])
    ∷ entry "📟" "pager"
    ∷ entry "📠" "fax"
    ∷ entry "🔋" "battery"
    ∷ entry "🔌" "electric_plug"
    ∷ entry "💡" "bulb"
    ∷ entry "🔦" "flashlight"
    ∷ entry "📚" "books"
    ∷ aliased "📖" "book" ("open_book" ∷ [])
    ∷ aliased "📝" "memo" ("pencil" ∷ [])
    ∷ entry "✏\u{fe0f}" "pencil2"
    ∷ entry "🖊\u{fe0f}" "pen"
    ∷ entry "🖋\u{fe0f}" "fountain_pen"
    ∷ entry "📌" "pushpin"
    ∷ entry "📍" "round_pushpin"
    ∷ entry "🗂\u{fe0f}" "card_index_dividers"
    ∷ entry "📁" "file_folder"
    ∷ entry "📂" "open_file_folder"
    ∷ entry "🗃\u{fe0f}" "card_file_box"
    ∷ entry "🗄\u{fe0f}" "file_cabinet"
    ∷ entry "🗑\u{fe0f}" "wastebasket"
    ∷ entry "📦" "package"
    ∷ entry "📫" "mailbox"
    ∷ entry "📬" "mailbox_with_mail"
    ∷ entry "📭" "mailbox_with_no_mail"
    ∷ entry "📮" "postbox"
    ∷ entry "🗳\u{fe0f}" "ballot_box"
    ∷ entry "✂\u{fe0f}" "scissors"
    ∷ entry "🖇\u{fe0f}" "paperclip"
    ∷ entry "📎" "paperclips"
    ∷ entry "📐" "triangular_ruler"
    ∷ entry "📏" "straight_ruler"
    ∷ []

abbrev pub objects : EmojiCategory
objects = record { label = "Objects"; icon = "💡"; emojis = objects_emojis }
