-- ===== src/Typing.antt =====
-- clients/web/src/stores/typingStore.ts: who is typing in which channel. `now` is `Date.now()`, in milliseconds.
pub mod Expiry
use together.Base.{
  ℕ, ◌-◌, String, Bool, not, ◌&&◌, Option, List, [], ◌∷◌, ◌++◌, eqb, ltb, if◌then◌else◌, ◌==◌,
  length, has_id, update_id, remove_id, filter, get_or, is_id, is_some,
}
use together.Base.Dict.{Dict, get, put, remove, map_values}

pub record TypingUser : Type 0 where
  pub user_id : String
  pub username : String
  pub channel_id : String
  pub timestamp : ℕ

pub record TypingState : Type 0 where
  pub typing_users : Dict (List TypingUser)

abbrev pub user_id : TypingUser → String
user_id u = u.user_id

abbrev pub typing_timeout_ms : ℕ
typing_timeout_ms = 10000

-- `now - u.timestamp < TYPING_TIMEOUT_MS`, which holds for a time stamp in the future too
abbrev pub is_live : ℕ → TypingUser → Bool
is_live now u = ltb (now - u.timestamp) typing_timeout_ms

abbrev pub typing_in : String → TypingState → List TypingUser
typing_in channel_id s = get_or (get s.typing_users channel_id) []

-- The list of a channel after `addTypingUser`.
unfoldable pub touch_user : ℕ → String → String → String → List TypingUser → List TypingUser
touch_user now user username channel_id users =
    if has_id user_id user users
    then update_id user_id user (λ u. record u { timestamp = now }) users
    else users
      ++ record { user_id = user; username = username; channel_id = channel_id; timestamp = now }
        ∷ []

unfoldable pub add_typing_user : ℕ → String → String → String → TypingState → TypingState
add_typing_user now user username channel_id s = record {
  typing_users =
      put s.typing_users channel_id
        (touch_user now user username channel_id (typing_in channel_id s));
}

unfoldable pub remove_typing_user : String → String → TypingState → TypingState
remove_typing_user user channel_id s =
    let filtered = remove_id user_id user (typing_in channel_id s) in
    if eqb (length filtered) (length (typing_in channel_id s))
    then s
    else record { typing_users = put s.typing_users channel_id filtered }

unfoldable pub clear_channel_typing : String → TypingState → TypingState
clear_channel_typing channel_id s =
    if is_some (get s.typing_users channel_id)
    then record { typing_users = remove s.typing_users channel_id }
    else s

unfoldable pub get_typing_users : ℕ → String → Option String → TypingState → List TypingUser
get_typing_users now channel_id self_user_id s =
    filter (λ u. not (is_id self_user_id u.user_id) && is_live now u) (typing_in channel_id s)

abbrev pub is_nonempty : List TypingUser → Bool
is_nonempty users = ltb 0 (length users)

-- Each channel keeps its live users, and a channel with none is dropped.
unfoldable pub cleanup_expired : ℕ → TypingState → TypingState
cleanup_expired now s = record {
  typing_users = filter (λ e. is_nonempty e.1) (map_values (filter (is_live now)) s.typing_users);
}
