-- ===== src/Dms/Ordering.antt =====
-- dmStore.ts: `addMessage` keeps the channels in the order of their last messages.
use mathlib.Core.List.{Perm}
use mathlib.Core.List.Perm
use together.Base.{
  ℕ, ◌≤◌, String, ◌≡◌, refl, true, false, some, List, [], ◌∷◌, ◌++◌, arith, if◌then◌else◌, leb,
  ◌==◌, eq_refl, all, has_id, update_id, any-append, Bool-cases, inl, inr,
}
use together.Base.Dict.{get-put, get-put_self}
use together.Types.Chat.{DirectMessage}
use together.Types.Community.{DirectMessageChannel}
use together.Dms.{
  DmState, channel_key, dm_key, messages_in, last_time, insert_channel, sort_channels, add_message,
}

module _ (get_time : String → ℕ) where
  -- Later channels first.
  abbrev pub IsSorted : List DirectMessageChannel → Type 0
  IsSorted [] = Unit
  IsSorted (c ∷ cs) =
      (all (λ d. leb (last_time get_time d) (last_time get_time c)) cs ≡ true) × IsSorted cs

  all_below-insert :
      (n : ℕ) (c : DirectMessageChannel) (cs : List DirectMessageChannel)
      → last_time get_time c ≤ n
      → all (λ d. leb (last_time get_time d) n) cs ≡ true
      → all (λ d. leb (last_time get_time d) n) (insert_channel get_time c cs) ≡ true
  unfolding insert_channel
  all_below-insert n c [] h q = ground arith
  all_below-insert n c (d ∷ ds) h q = ground (arith, all_below-insert n c ds)

  all_below_mono :
      (n m : ℕ) (cs : List DirectMessageChannel)
      → n ≤ m
      → all (λ d. leb (last_time get_time d) n) cs ≡ true
      → all (λ d. leb (last_time get_time d) m) cs ≡ true
  all_below_mono n m [] h q = refl
  all_below_mono n m (c ∷ cs) h q = ground (arith, all_below_mono n m cs)

  insert_channel-IsSorted :
      (c : DirectMessageChannel) (cs : List DirectMessageChannel)
      → IsSorted cs
      → IsSorted (insert_channel get_time c cs)
  unfolding insert_channel
  insert_channel-IsSorted c [] h = (refl, tt)
  insert_channel-IsSorted c (d ∷ ds) h =
      elim (Bool-cases (leb (last_time get_time d) (last_time get_time c))) [
        | inl first ↦
            rw first
              (ground (arith, all_below_mono (last_time get_time d) (last_time get_time c) ds), h)
        | inr later ↦ rw later (
          all_below-insert (last_time get_time d) c ds (ground arith) h.0,
          insert_channel-IsSorted c ds h.1,
        )
      ]

  sort_channels-IsSorted : (cs : List DirectMessageChannel) → IsSorted (sort_channels get_time cs)
  unfolding sort_channels
  sort_channels-IsSorted [] = tt
  sort_channels-IsSorted (c ∷ cs) =
      insert_channel-IsSorted c (sort_channels get_time cs) (sort_channels-IsSorted cs)

  insert_channel-perm :
      (c : DirectMessageChannel) (cs : List DirectMessageChannel)
      → Perm (insert_channel get_time c cs) (c ∷ cs)
  unfolding insert_channel
  insert_channel-perm c [] = Perm.refl (c ∷ [])
  insert_channel-perm c (d ∷ ds) =
      elim (Bool-cases (leb (last_time get_time d) (last_time get_time c))) [
        | inl first ↦ rw first (Perm.refl _)
        | inr later ↦
            rw later (Perm.trans (Perm.cons d (insert_channel-perm c ds)) (Perm.swap c d ds))
      ]

  sort_channels-perm : (cs : List DirectMessageChannel) → Perm (sort_channels get_time cs) cs
  unfolding sort_channels
  sort_channels-perm [] = Perm.refl []
  sort_channels-perm (c ∷ cs) =
      Perm.trans (insert_channel-perm c (sort_channels get_time cs))
        (Perm.cons c (sort_channels-perm cs))

  -- A new direct message stands last in its channel, no other channel's messages change, and the channel
  -- list afterwards holds the same channels, that of the message with its new time, the latest first.
  pub add_message_lem :
      (m : DirectMessage) (s : DmState) (other : String)
      → has_id dm_key m.id (messages_in m.channel_id s) ≡ false
      → (messages_in other (add_message get_time m s) ≡ (
          if m.channel_id == other
          then messages_in m.channel_id s ++ m ∷ []
          else messages_in other s))
        × IsSorted (add_message get_time m s).channels
        × Perm (add_message get_time m s).channels (
            update_id channel_key m.channel_id
              (λ c. record c { last_message_at = some m.created_at })
              s.channels)
  unfolding add_message
  add_message_lem m s other new = rw new (
    ground (
      arith,
      get-put s.messages_by_channel m.channel_id (messages_in m.channel_id s ++ m ∷ []) other,
    ),
    sort_channels-IsSorted _,
    sort_channels-perm _,
  )

  -- The echo of a message that is there already changes nothing: the answer of the API and the event of the
  -- gateway leave the message once, and in either order the same state.
  add_message_twice :
      (m : DirectMessage) (s : DmState)
      → add_message get_time m (add_message get_time m s) ≡ add_message get_time m s
  unfolding add_message
  add_message_twice m s =
      let existing = messages_in m.channel_id s in
      elim (Bool-cases (has_id dm_key m.id existing)) [
        | inl old ↦ rw old (rw old)
        | inr new ↦ ground (
          arith,
          get-put_self s.messages_by_channel m.channel_id (existing ++ m ∷ []),
          any-append (λ x. x.id == m.id) existing (m ∷ []),
          eq_refl m.id,
        )
      ]
