-- ===== src/Emoji/Table/Animals.antt =====
-- clients/web/src/utils/emoji.ts: the category Animals.
use together.Base.{List, [], ◌∷◌}
use together.Emoji.Entries.{EmojiEntry, entry, aliased, EmojiCategory}

abbrev pub animals_emojis : List EmojiEntry
animals_emojis =
    entry "🐶" "dog"
    ∷ entry "🐱" "cat"
    ∷ entry "🐭" "mouse"
    ∷ entry "🐹" "hamster"
    ∷ entry "🐰" "rabbit"
    ∷ entry "🦊" "fox_face"
    ∷ entry "🐻" "bear"
    ∷ entry "🐼" "panda_face"
    ∷ entry "🐨" "koala"
    ∷ entry "🐯" "tiger"
    ∷ entry "🦁" "lion"
    ∷ entry "🐮" "cow"
    ∷ entry "🐷" "pig"
    ∷ entry "🐸" "frog"
    ∷ entry "🐵" "monkey_face"
    ∷ entry "🙈" "see_no_evil"
    ∷ entry "🙉" "hear_no_evil"
    ∷ entry "🙊" "speak_no_evil"
    ∷ entry "🐔" "chicken"
    ∷ entry "🐧" "penguin"
    ∷ entry "🐦" "bird"
    ∷ entry "🦆" "duck"
    ∷ entry "🦅" "eagle"
    ∷ entry "🦉" "owl"
    ∷ entry "🦇" "bat"
    ∷ entry "🐺" "wolf"
    ∷ entry "🐗" "boar"
    ∷ entry "🐴" "horse"
    ∷ entry "🦄" "unicorn"
    ∷ aliased "🐝" "bee" ("honeybee" ∷ [])
    ∷ entry "🪱" "worm"
    ∷ entry "🐛" "bug"
    ∷ entry "🦋" "butterfly"
    ∷ entry "🐌" "snail"
    ∷ aliased "🐞" "lady_beetle" ("ladybug" ∷ [])
    ∷ entry "🐜" "ant"
    ∷ entry "🦟" "mosquito"
    ∷ entry "🦗" "cricket"
    ∷ entry "🕷\u{fe0f}" "spider"
    ∷ entry "🦂" "scorpion"
    ∷ entry "🐢" "turtle"
    ∷ entry "🐍" "snake"
    ∷ entry "🦎" "lizard"
    ∷ entry "🦖" "t-rex"
    ∷ entry "🦕" "sauropod"
    ∷ entry "🐙" "octopus"
    ∷ entry "🦑" "squid"
    ∷ entry "🦐" "shrimp"
    ∷ entry "🦞" "lobster"
    ∷ entry "🦀" "crab"
    ∷ entry "🐡" "blowfish"
    ∷ entry "🐠" "tropical_fish"
    ∷ entry "🐟" "fish"
    ∷ entry "🐬" "dolphin"
    ∷ entry "🐳" "whale"
    ∷ entry "🐋" "whale2"
    ∷ entry "🦈" "shark"
    ∷ entry "🐊" "crocodile"
    ∷ entry "🐅" "tiger2"
    ∷ entry "🐆" "leopard"
    ∷ entry "🦓" "zebra"
    ∷ entry "🦍" "gorilla"
    ∷ entry "🦧" "orangutan"
    ∷ entry "🦣" "mammoth"
    ∷ entry "🐘" "elephant"
    ∷ entry "🦛" "hippopotamus"
    ∷ entry "🦏" "rhinoceros"
    ∷ entry "🐪" "dromedary_camel"
    ∷ entry "🐫" "camel"
    ∷ entry "🦒" "giraffe"
    ∷ entry "🦘" "kangaroo"
    ∷ entry "🦬" "bison"
    ∷ entry "🐃" "water_buffalo"
    ∷ entry "🐂" "ox"
    ∷ entry "🐄" "cow2"
    ∷ entry "🐎" "racehorse"
    ∷ entry "🐖" "pig2"
    ∷ entry "🐏" "ram"
    ∷ entry "🐑" "sheep"
    ∷ entry "🦙" "llama"
    ∷ entry "🐐" "goat"
    ∷ entry "🦌" "deer"
    ∷ entry "🐕" "dog2"
    ∷ entry "🐩" "poodle"
    ∷ entry "🦮" "guide_dog"
    ∷ entry "🐈" "cat2"
    ∷ entry "🐓" "rooster"
    ∷ entry "🦃" "turkey"
    ∷ entry "🦤" "dodo"
    ∷ entry "🦚" "peacock"
    ∷ entry "🦜" "parrot"
    ∷ entry "🦢" "swan"
    ∷ entry "🦩" "flamingo"
    ∷ entry "🕊\u{fe0f}" "dove"
    ∷ entry "🐇" "rabbit2"
    ∷ entry "🦝" "raccoon"
    ∷ entry "🦨" "skunk"
    ∷ entry "🦡" "badger"
    ∷ entry "🦦" "otter"
    ∷ entry "🦥" "sloth"
    ∷ entry "🐁" "mouse2"
    ∷ entry "🐀" "rat"
    ∷ entry "🐿\u{fe0f}" "chipmunk"
    ∷ entry "🦔" "hedgehog"
    ∷ []

abbrev pub animals : EmojiCategory
animals = record { label = "Animals"; icon = "🐶"; emojis = animals_emojis }
