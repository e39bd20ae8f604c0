-- ===== src/Typing/Expiry.antt =====
-- typingStore.ts: each user stands once in a channel, and the clean-up is invisible.
use together.Base.{
  ℕ, ◌≤◌, String, ◌≡◌, refl, Bool, true, not, ◌&&◌, Option, none, some, List, [], ◌∷◌, arith, ◌==◌,
  eq_iff, distinct, distinct-append_one, distinct-update_id, distinct-remove_id, filter, all, is_id,
  get_or, find_id, find_id-update_id, find_id-append_one, has_id-find_id, if◌then◌else◌, remove_id,
  eqb, length, Bool-cases, inl, inr, distinct-filter,
}
use together.Base.Dict.{
  Dict, IsObject, get, put, get-put_self, get-filter, get-map_values, put-IsObject, remove-IsObject,
  map_values-IsObject, all-put, all-get, map_values, all-remove, all-filter_values,
}
use together.Typing.{
  TypingUser, TypingState, user_id, is_live, is_nonempty, typing_in, touch_user, add_typing_user,
  remove_typing_user, clear_channel_typing, get_typing_users, cleanup_expired,
}

pub record IsWellFormed (s : TypingState) : Type 0 where
  pub object : IsObject s.typing_users
  pub once : all (λ e. distinct user_id e.1) s.typing_users ≡ true

touch_user-distinct :
    (now : ℕ) (user name channel : String) (users : List TypingUser)
    → distinct user_id users ≡ true
    → distinct user_id (touch_user now user name channel users) ≡ true
unfolding touch_user
touch_user-distinct now user name channel users h = ground (
  arith,
  distinct-append_one user_id users
      (record { user_id = user; username = name; channel_id = channel; timestamp = now }),
  distinct-update_id user_id user (λ u. record u { timestamp = now })
      (λ u e. (eq_iff u.user_id user).0 e) users,
)

typing_in-distinct :
    (channel : String) (s : TypingState)
    → IsWellFormed s
    → distinct user_id (typing_in channel s) ≡ true
typing_in-distinct channel s w = ground (
  arith,
  all-get (distinct user_id) s.typing_users channel (get_or (get s.typing_users channel) []) w.once,
)

-- A filter of what the lookup gave.
filter-filter :
    (p q : TypingUser → Bool) (us : List TypingUser)
    → filter p (filter q us) ≡ filter (λ u. q u && p u) us
filter-filter p q [] = refl
filter-filter p q (u ∷ us) = ground (arith, filter-filter p q us)

typing_in-cleanup :
    (now : ℕ) (channel : String) (s : TypingState)
    → IsObject s.typing_users
    → typing_in channel (cleanup_expired now s) ≡ filter (is_live now) (typing_in channel s)
unfolding cleanup_expired
typing_in-cleanup now channel s h = ground (
  arith,
  get-filter is_nonempty (map_values (filter (is_live now)) s.typing_users) channel
      (map_values-IsObject _ s.typing_users h),
  get-map_values (filter (is_live now)) s.typing_users channel,
)

live_later :
    (now later : ℕ) (self : Option String) (us : List TypingUser)
    → now ≤ later
    → filter (λ u. not (is_id self u.user_id) && is_live later u) (filter (is_live now) us)
      ≡ filter (λ u. not (is_id self u.user_id) && is_live later u) us
live_later now later self [] h = refl
live_later now later self (u ∷ us) h = ground (arith, live_later now later self us h)

-- The clean-up changes nothing that `getTypingUsers` shows, then or at any later time.
pub get_typing_users-cleanup_expired :
    (now later : ℕ) (channel : String) (self : Option String) (s : TypingState)
    → IsWellFormed s
    → now ≤ later
    → get_typing_users later channel self (cleanup_expired now s)
      ≡ get_typing_users later channel self s
unfolding get_typing_users
get_typing_users-cleanup_expired now later channel self s w h =
    rw (typing_in-cleanup now channel s w.object)
      (live_later now later self (typing_in channel s) h)

add_typing_user-IsWellFormed :
    (now : ℕ) (user name channel : String) (s : TypingState)
    → IsWellFormed s
    → IsWellFormed (add_typing_user now user name channel s)
unfolding add_typing_user
add_typing_user-IsWellFormed now user name channel s w = record {
  object = put-IsObject s.typing_users channel _ w.object;
  once =
      all-put (distinct user_id) s.typing_users channel _ w.once
        (touch_user-distinct now user name channel _ (typing_in-distinct channel s w));
}

without_user-IsWellFormed :
    (user channel : String) (s : TypingState)
    → IsWellFormed s
    → IsWellFormed (record {
      typing_users = put s.typing_users channel (remove_id user_id user (typing_in channel s));
    })
without_user-IsWellFormed user channel s w = record {
  object = put-IsObject s.typing_users channel _ w.object;
  once =
      all-put (distinct user_id) s.typing_users channel _ w.once
        (distinct-remove_id user_id user _ (typing_in-distinct channel s w));
}

remove_typing_user-IsWellFormed :
    (user channel : String) (s : TypingState)
    → IsWellFormed s
    → IsWellFormed (remove_typing_user user channel s)
unfolding remove_typing_user
remove_typing_user-IsWellFormed user channel s w =
    elim (Bool-cases (
      eqb (length (remove_id user_id user (typing_in channel s))) (length (typing_in channel s)))) [
        | inl same ↦ rw same w
        | inr fewer ↦ rw fewer (without_user-IsWellFormed user channel s w)
      ]

clear_channel_typing-IsWellFormed :
    (channel : String) (s : TypingState)
    → IsWellFormed s
    → IsWellFormed (clear_channel_typing channel s)
unfolding clear_channel_typing
clear_channel_typing-IsWellFormed channel s w = ground (
  arith,
  remove-IsObject s.typing_users channel w.object,
  all-remove (distinct user_id) s.typing_users channel w.once,
)

all_live-distinct :
    (now : ℕ) (d : Dict (List TypingUser))
    → all (λ e. distinct user_id e.1) d ≡ true
    → all (λ e. distinct user_id e.1) (map_values (filter (is_live now)) d) ≡ true
all_live-distinct now [] h = refl
all_live-distinct now ((k, us) ∷ d) h =
    ground (arith, all_live-distinct now d, distinct-filter user_id (is_live now) us)

cleanup_expired-IsWellFormed :
    (now : ℕ) (s : TypingState) → IsWellFormed s → IsWellFormed (cleanup_expired now s)
unfolding cleanup_expired
cleanup_expired-IsWellFormed now s w =
    let kept = map_values (filter (is_live now)) s.typing_users in
    record {
      object =
          distinct-filter (λ (e : String × List TypingUser). e.0) (λ e. is_nonempty e.1) kept
            (map_values-IsObject (filter (is_live now)) s.typing_users w.object);
      once =
          all-filter_values (distinct user_id) is_nonempty kept
            (all_live-distinct now s.typing_users w.once);
    }

-- Every operation keeps each user at most once in a channel, and each channel at most once.
pub operations-IsWellFormed :
    (now : ℕ) (user name channel : String) (s : TypingState)
    → IsWellFormed s
    → IsWellFormed (add_typing_user now user name channel s)
      × IsWellFormed (remove_typing_user user channel s)
      × IsWellFormed (clear_channel_typing channel s)
      × IsWellFormed (cleanup_expired now s)
operations-IsWellFormed now user name channel s w = (
  add_typing_user-IsWellFormed now user name channel s w,
  remove_typing_user-IsWellFormed user channel s w,
  clear_channel_typing-IsWellFormed channel s w,
  cleanup_expired-IsWellFormed now s w,
)

-- The entry of a user who starts to type: the one that is there with a new time, or else a new one.
abbrev pub touched : ℕ → String → String → String → Option TypingUser → TypingUser
touched now user name channel none = record {
  user_id = user;
  username = name;
  channel_id = channel;
  timestamp = now;
}
touched now user name channel (some u) = record u { timestamp = now }

-- After `addTypingUser` the user is found in the channel with the new time, under the name that was
-- there before if there was one; every other user of the channel is found as before.
find_id-add_typing_user :
    (now : ℕ) (user name channel other : String) (s : TypingState)
    → find_id user_id other (typing_in channel (add_typing_user now user name channel s)) ≡ (
        if user == other
        then some (touched now user name channel (find_id user_id user (typing_in channel s)))
        else find_id user_id other (typing_in channel s))
unfolding add_typing_user touch_user
find_id-add_typing_user now user name channel other s =
    let us = typing_in channel s in
    rw get-put_self (
      ground (
        arith,
        has_id-find_id user_id user us,
        find_id-append_one user_id other us (touched now user name channel none),
        find_id-update_id user_id user (λ u. record u { timestamp = now })
            (λ u e. (eq_iff u.user_id user).0 e) other us,
        eq_iff user other,
      ))
