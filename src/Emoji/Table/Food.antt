-- ===== src/Emoji/Table/Food.antt =====
-- clients/web/src/utils/emoji.ts: the category Food.
use together.Base.{List, [], ◌∷◌}
use together.Emoji.Entries.{EmojiEntry, entry, EmojiCategory}

abbrev pub food_emojis : List EmojiEntry
food_emojis =
    entry "🍎" "apple"
    ∷ entry "🍊" "tangerine"
    ∷ entry "🍋" "lemon"
    ∷ entry "🍇" "grapes"
    ∷ entry "🍓" "strawberry"
    ∷ entry "🫐" "blueberries"
    ∷ entry "🍈" "melon"
    ∷ entry "🍉" "watermelon"
    ∷ entry "🍑" "peach"
    ∷ entry "🍒" "cherries"
    ∷ entry "🍍" "pineapple"
    ∷ entry "🥭" "mango"
    ∷ entry "🥥" "coconut"
    ∷ entry "🍌" "banana"
    ∷ entry "🍐" "pear"
    ∷ entry "🍏" "green_apple"
    ∷ entry "🫒" "olive"
    ∷ entry "🍅" "tomato"
    ∷ entry "🫑" "bell_pepper"
    ∷ entry "🌶\u{fe0f}" "hot_pepper"
    ∷ entry "🥦" "broccoli"
    ∷ entry "🥬" "leafy_green"
    ∷ entry "🥒" "cucumber"
    ∷ entry "🌽" "corn"
    ∷ entry "🥕" "carrot"
    ∷ entry "🧄" "garlic"
    ∷ entry "🧅" "onion"
    ∷ entry "🥔" "potato"
    ∷ entry "🍠" "sweet_potato"
    ∷ entry "🥐" "croissant"
    ∷ entry "🥖" "french_bread"
    ∷ entry "🍞" "bread"
    ∷ entry "🥨" "pretzel"
    ∷ entry "🧀" "cheese"
    ∷ entry "🥚" "egg"
    ∷ entry "🍳" "fried_egg"
    ∷ entry "🥞" "pancakes"
    ∷ entry "🧇" "waffle"
    ∷ entry "🥓" "bacon"
    ∷ entry "🍗" "poultry_leg"
    ∷ entry "🍖" "meat_on_bone"
    ∷ entry "🌭" "hotdog"
    ∷ entry "🍔" "hamburger"
    ∷ entry "🍟" "fries"
    ∷ entry "🍕" "pizza"
    ∷ entry "🫓" "flatbread"
    ∷ entry "🥪" "sandwich"
    ∷ entry "🥙" "stuffed_flatbread"
    ∷ entry "🧆" "falafel"
    ∷ entry "🌮" "taco"
    ∷ entry "🌯" "burrito"
    ∷ entry "🫔" "tamale"
    ∷ entry "🥗" "salad"
    ∷ entry "🥘" "shallow_pan_of_food"
    ∷ entry "🫕" "fondue"
    ∷ entry "🍜" "ramen"
    ∷ entry "🍝" "spaghetti"
    ∷ entry "🍛" "curry"
    ∷ entry "🍲" "stew"
    ∷ entry "🍣" "sushi"
    ∷ entry "🍱" "bento"
    ∷ entry "🍤" "fried_shrimp"
    ∷ entry "🍙" "rice_ball"
    ∷ entry "🍚" "rice"
    ∷ entry "🍘" "rice_cracker"
    ∷ entry "🍥" "fish_cake"
    ∷ entry "🥟" "dumpling"
    ∷ entry "🥠" "fortune_cookie"
    ∷ entry "🥡" "takeout_box"
    ∷ entry "🦪" "oyster"
    ∷ entry "🍦" "icecream"
    ∷ entry "🍧" "shaved_ice"
    ∷ entry "🍨" "ice_cream"
    ∷ entry "🍩" "doughnut"
    ∷ entry "🍪" "cookie"
    ∷ entry "🎂" "birthday"
    ∷ entry "🍰" "cake"
    ∷ entry "🧁" "cupcake"
    ∷ entry "🥧" "pie"
    ∷ entry "🍫" "chocolate_bar"
    ∷ entry "🍬" "candy"
    ∷ entry "🍭" "lollipop"
    ∷ entry "🍮" "custard"
    ∷ entry "🍯" "honey_pot"
    ∷ entry "☕" "coffee"
    ∷ entry "🫖" "teapot"
    ∷ entry "🍵" "tea"
    ∷ entry "🧃" "beverage_box"
    ∷ entry "🥤" "cup_with_straw"
    ∷ entry "🧋" "bubble_tea"
    ∷ entry "🍺" "beer"
    ∷ entry "🍻" "beers"
    ∷ entry "🥂" "champagne_glass"
    ∷ entry "🍷" "wine_glass"
    ∷ entry "🥃" "tumbler_glass"
    ∷ entry "🍸" "cocktail"
    ∷ entry "🍹" "tropical_drink"
    ∷ entry "🧉" "mate"
    ∷ entry "🍾" "champagne"
    ∷ []

abbrev pub food : EmojiCategory
food = record { label = "Food"; icon = "🍕"; emojis = food_emojis }
