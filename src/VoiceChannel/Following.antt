-- ===== src/VoiceChannel/Following.antt =====
-- VoiceChannel.tsx: the participants follow the server's account of who is in the channel.
use together.Base.{
  ◌≡◌, refl, sym, ap, ◌∙◌, String, Bool, true, false, Option, none, some, List, [], ◌∷◌, ◌++◌,
  if◌then◌else◌, is_id, is_some, ◌==◌, eq_iff, arith, has_id, update_id, remove_id, find_id,
  find_id-update_id, find_id-append_one, has_id-find_id, or_else, distinct, distinct-remove_id,
  distinct-update_id, distinct-append_one, Bool-cases, inl, inr,
}
use mathlib.Core.Option
use together.Voice.{VoiceParticipant}
use together.VoiceChannel.{
  VoiceStateUpdateEvent, id_of, with_state, participant_of, on_voice_state_update,
}

-- Mutes and what a user sends.
pub record VoiceFlags : Type 0 where
  pub self_mute : Bool
  pub self_deaf : Bool
  pub self_video : Bool
  pub self_screen : Bool
  pub server_mute : Bool
  pub server_deaf : Bool

abbrev pub shown_flags : VoiceParticipant → VoiceFlags
shown_flags p = record {
  self_mute = p.self_mute;
  self_deaf = p.self_deaf;
  self_video = p.self_video;
  self_screen = p.self_screen;
  server_mute = p.server_mute;
  server_deaf = p.server_deaf;
}

abbrev pub event_flags : VoiceStateUpdateEvent → VoiceFlags
event_flags e = record {
  self_mute = e.self_mute;
  self_deaf = e.self_deaf;
  self_video = e.self_video;
  self_screen = e.self_screen;
  server_mute = e.server_mute;
  server_deaf = e.server_deaf;
}

-- The server's account: the channel that each user is in, with the flags.
abbrev pub Account : Type 0
Account = String → Option (String × VoiceFlags)

abbrev pub told : VoiceStateUpdateEvent → Option String → Option (String × VoiceFlags)
told e none = none
told e (some channel) = some (channel, event_flags e)

abbrev pub account_after : VoiceStateUpdateEvent → Account → Account
account_after e account u = if e.user_id == u then told e e.channel_id else account u

abbrev pub in_channel : String → Option (String × VoiceFlags) → Option VoiceFlags
in_channel channel_id none = none
in_channel channel_id (some (channel, flags)) = if channel == channel_id then some flags else none

abbrev pub shown : String → List VoiceParticipant → Option VoiceFlags
shown u ps = Option.map shown_flags (find_id id_of u ps)

-- Everyone is shown who is in the channel, with the flags, and nobody else; and nobody is shown twice.
pub record Shows (channel_id : String) (account : Account) (ps : List VoiceParticipant)
    : Type 0 where
  pub each : (u : String) → shown u ps ≡ in_channel channel_id (account u)
  pub once : distinct id_of ps ≡ true

-- The events, each with the time of its arrival.
abbrev pub after_events :
    String → List (String × VoiceStateUpdateEvent) → List VoiceParticipant → List VoiceParticipant
after_events channel_id [] ps = ps
after_events channel_id ((now, e) ∷ es) ps =
    after_events channel_id es (on_voice_state_update channel_id now e ps)

abbrev pub account_after_all : List (String × VoiceStateUpdateEvent) → Account → Account
account_after_all [] account = account
account_after_all ((_, e) ∷ es) account = account_after_all es (account_after e account)

find_id-remove_id :
    (j k : String) (ps : List VoiceParticipant)
    → find_id id_of j (remove_id id_of k ps) ≡ (if k == j then none else find_id id_of j ps)
find_id-remove_id j k [] = ground arith
find_id-remove_id j k (p ∷ ps) =
    ground (arith, find_id-remove_id j k ps, eq_iff p.user_id k, eq_iff p.user_id j, eq_iff k j)

with_state-KeepsId :
    (e : VoiceStateUpdateEvent) (k : String) (p : VoiceParticipant)
    → (id_of p == k) ≡ true
    → id_of (with_state e p) ≡ k
with_state-KeepsId e k p h = ground (arith, h, eq_iff p.user_id k)

shown-removed :
    (k : String) (ps : List VoiceParticipant) (u : String)
    → shown u (remove_id id_of k ps) ≡ (if k == u then none else shown u ps)
shown-removed k ps u =
    ap (Option.map shown_flags) (find_id-remove_id u k ps)
    ∙ elim (Bool-cases (k == u)) [ inl e ↦ rw e refl | inr e ↦ rw e refl ]

found_under :
    (k u : String) (ps : List VoiceParticipant) (b : Bool)
    → (k == u) ≡ true
    → has_id id_of k ps ≡ b
    → is_some (find_id id_of u ps) ≡ b
found_under k u ps b same h =
    sym (has_id-find_id id_of u ps) ∙ ap (λ j. has_id id_of j ps) (sym ((eq_iff k u).0 same)) ∙ h

with_state-shown :
    (e : VoiceStateUpdateEvent) (found : Option VoiceParticipant)
    → is_some found ≡ true
    → Option.map shown_flags (Option.map (with_state e) found) ≡ some (event_flags e)
with_state-shown e none h = absurd (ground (arith, h))
with_state-shown e (some p) h = refl

or_else-absent {ℓ} : {A : Type ℓ} (o p : Option A) → is_some o ≡ false → or_else o p ≡ p
or_else-absent none p h = refl
or_else-absent (some a) p h = absurd (ground (arith, h))

or_else-none {ℓ} : {A : Type ℓ} (o : Option A) → or_else o none ≡ o
or_else-none none = refl
or_else-none (some a) = refl

shown-updated :
    (e : VoiceStateUpdateEvent) (ps : List VoiceParticipant) (u : String)
    → has_id id_of e.user_id ps ≡ true
    → shown u (update_id id_of e.user_id (with_state e) ps)
      ≡ (if e.user_id == u then some (event_flags e) else shown u ps)
shown-updated e ps u h =
    ap (Option.map shown_flags)
      (find_id-update_id id_of e.user_id (with_state e) (with_state-KeepsId e e.user_id) u ps)
    ∙ elim (Bool-cases (e.user_id == u)) [
      | inl same ↦
          rw same (with_state-shown e (find_id id_of u ps) (found_under e.user_id u ps true same h))
      | inr other ↦ rw other refl
    ]

shown-added :
    (e : VoiceStateUpdateEvent) (now : String) (ps : List VoiceParticipant) (u : String)
    → has_id id_of e.user_id ps ≡ false
    → shown u (ps ++ participant_of now e ∷ [])
      ≡ (if e.user_id == u then some (event_flags e) else shown u ps)
shown-added e now ps u h =
    ap (Option.map shown_flags) (find_id-append_one id_of u ps (participant_of now e))
    ∙ elim (Bool-cases (e.user_id == u)) [
      | inl same ↦ rw same (
          ap (Option.map shown_flags) (
            or_else-absent (find_id id_of u ps) (some (participant_of now e))
              (found_under e.user_id u ps false same h)))
      | inr other ↦ rw other (ap (Option.map shown_flags) (or_else-none (find_id id_of u ps)))
    ]

in_channel-told :
    (channel_id : String) (e : VoiceStateUpdateEvent) (channel : Option String)
    → in_channel channel_id (told e channel)
      ≡ (if is_id channel channel_id then some (event_flags e) else none)
in_channel-told channel_id e none = refl
in_channel-told channel_id e (some channel) = refl

-- What is shown of each user after an event.
shown-on_voice_state_update :
    (channel_id now : String) (e : VoiceStateUpdateEvent) (ps : List VoiceParticipant) (u : String)
    → shown u (on_voice_state_update channel_id now e ps)
      ≡ (if e.user_id == u then in_channel channel_id (told e e.channel_id) else shown u ps)
unfolding on_voice_state_update
shown-on_voice_state_update channel_id now e ps u =
    rw (in_channel-told channel_id e e.channel_id)
      (elim (Bool-cases (is_id e.channel_id channel_id)) [
        | inl here ↦ rw here (elim (Bool-cases (has_id id_of e.user_id ps)) [
          | inl known ↦ rw known (shown-updated e ps u known)
          | inr new ↦ rw new (shown-added e now ps u new)
        ])
        | inr away ↦ rw away (shown-removed e.user_id ps u)
      ])

once-on_voice_state_update :
    (channel_id now : String) (e : VoiceStateUpdateEvent) (ps : List VoiceParticipant)
    → distinct id_of ps ≡ true
    → distinct id_of (on_voice_state_update channel_id now e ps) ≡ true
unfolding on_voice_state_update
once-on_voice_state_update channel_id now e ps h =
    elim (Bool-cases (is_id e.channel_id channel_id)) [
      | inl here ↦ rw here (elim (Bool-cases (has_id id_of e.user_id ps)) [
        | inl known ↦ rw known (
            distinct-update_id id_of e.user_id (with_state e) (with_state-KeepsId e e.user_id) ps
            ∙ h)
        | inr new ↦ rw new (distinct-append_one id_of ps (participant_of now e) h new)
      ])
      | inr away ↦ rw away (distinct-remove_id id_of e.user_id ps h)
    ]

Shows-event :
    (channel_id now : String) (e : VoiceStateUpdateEvent) (account : Account)
    (ps : List VoiceParticipant)
    → Shows channel_id account ps
    → Shows channel_id (account_after e account) (on_voice_state_update channel_id now e ps)
Shows-event channel_id now e account ps s = record {
  each = λ u.
      shown-on_voice_state_update channel_id now e ps u ∙ elim (Bool-cases (e.user_id == u)) [
        | inl same ↦ rw same refl
        | inr other ↦ rw other (s.each u)
      ];
  once = once-on_voice_state_update channel_id now e ps s.once;
}

-- If the list shows the server's account of a channel, and every user once, it goes on to do so through any events: of
-- those who come, change their flags, move to another channel or leave, in any order.
pub participants_follow_account :
    (channel_id : String) (events : List (String × VoiceStateUpdateEvent)) (account : Account)
    (ps : List VoiceParticipant)
    → Shows channel_id account ps
    → Shows channel_id (account_after_all events account) (after_events channel_id events ps)
participants_follow_account channel_id [] account ps s = s
participants_follow_account channel_id ((now, e) ∷ es) account ps s =
    participants_follow_account channel_id es (account_after e account)
      (on_voice_state_update channel_id now e ps) (Shows-event channel_id now e account ps s)
