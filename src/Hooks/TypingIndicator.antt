-- ===== src/Hooks/TypingIndicator.antt =====
-- clients/web/src/hooks/useTypingIndicator.ts. `last_sent` is `lastSentRef.current`, and `now` is `Date.now()`; what
-- goes out is a TYPING_START of the gateway for the channel, at its time.
use together.Base.{
  ℕ, ◌+◌, ◌-◌, ◌≡◌, refl, String, Bool, true, false, not, ◌&&◌, Option, List, [], ◌∷◌,
  if◌then◌else◌, ltb, leb, truthy, get_or, arith,
}

pub record Indicator : Type 0 where
  pub last_sent : ℕ
  pub sent : List (ℕ × String)

abbrev pub typing_debounce_ms : ℕ
typing_debounce_ms = 3000

-- `now - lastSentRef.current < TYPING_DEBOUNCE_MS` also holds for a time before the last one.
unfoldable pub on_typing : Option String → ℕ → Indicator → Indicator
on_typing channel_id now s =
    if not (truthy channel_id)
    then s
    else if ltb (now - s.last_sent) typing_debounce_ms
    then s
    else record { last_sent = now; sent = (now, get_or channel_id "") ∷ s.sent }

-- A history of keystrokes, each with its channel and time.
unfoldable pub on_typing_all : List (Option String × ℕ) → Indicator → Indicator
on_typing_all [] s = s
on_typing_all ((channel_id, now) ∷ keys) s = on_typing_all keys (on_typing channel_id now s)

-- The latest stands first: neighbours are three seconds apart, the first of all that far from time 0.
abbrev pub spaced : List (ℕ × String) → Bool
spaced [] = true
spaced (a ∷ []) = leb typing_debounce_ms a.0
spaced (a ∷ b ∷ sent) = leb (b.0 + typing_debounce_ms) a.0 && spaced (b ∷ sent)

-- The time of the latest message is the one that is kept.
abbrev LatestIs : ℕ → List (ℕ × String) → Type 0
LatestIs t [] = t ≡ 0
LatestIs t (a ∷ sent) = t ≡ a.0

record Spaced (s : Indicator) : Type 0 where
  latest : LatestIs s.last_sent s.sent
  apart : spaced s.sent ≡ true

next-spaced :
    (now t : ℕ) (channel_id : String) (sent : List (ℕ × String))
    → LatestIs t sent
    → spaced sent ≡ true
    → ltb (now - t) typing_debounce_ms ≡ false
    → spaced ((now, channel_id) ∷ sent) ≡ true
next-spaced now t channel_id [] l h far = ground (arith, l, far)
next-spaced now t channel_id (a ∷ sent) l h far = ground (arith, l, h, far)

on_typing-Spaced :
    (channel_id : Option String) (now : ℕ) (s : Indicator)
    → Spaced s
    → Spaced (on_typing channel_id now s)
unfolding on_typing
on_typing-Spaced channel_id now s v =
    ground (arith, v, next-spaced now s.last_sent (get_or channel_id "") s.sent)

on_typing_all-Spaced :
    (keys : List (Option String × ℕ)) (s : Indicator) → Spaced s → Spaced (on_typing_all keys s)
unfolding on_typing_all
on_typing_all-Spaced [] s v = v
on_typing_all-Spaced ((channel_id, now) ∷ keys) s v =
    on_typing_all-Spaced keys (on_typing channel_id now s) (on_typing-Spaced channel_id now s v)

-- However fast somebody types, in whatever channels and whatever the clock shows, two notices are never less than
-- three seconds apart.
pub on_typing_all-spaced :
    (keys : List (Option String × ℕ))
    → spaced (on_typing_all keys (record { last_sent = 0; sent = [] })).sent ≡ true
on_typing_all-spaced keys =
    (on_typing_all-Spaced keys (record { last_sent = 0; sent = [] })
      (record { latest = refl; apart = refl })).apart
