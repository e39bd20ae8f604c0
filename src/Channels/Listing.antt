-- ===== src/Channels/Listing.antt =====
-- channelStore.ts: the order of the channels, and the active one.
use mathlib.Core.List.{Perm}
use mathlib.Core.List.Perm
use together.Base.{
  ℕ, ◌≤◌, String, ◌≡◌, refl, true, none, some, List, [], ◌∷◌, arith, leb, all, any-append, ◌==◌,
  eq_iff, has_id, Reply, ok, failed, Failure, Bool-cases, inl, inr, has_id-remove_id, get_or,
  has_id-update_id,
}
use together.Types.Community.{Channel}
use together.Channels.{
  ChannelState, channel_key, insert_by_position, sort_by_position, fetch_channels, create_channel,
  update_channel, delete_channel,
}

-- Earlier positions first.
abbrev pub IsSorted : List Channel → Type 0
IsSorted [] = Unit
IsSorted (c ∷ cs) = (all (λ d. leb c.position d.position) cs ≡ true) × IsSorted cs

all_above-insert :
    (n : ℕ) (c : Channel) (cs : List Channel)
    → n ≤ c.position
    → all (λ d. leb n d.position) cs ≡ true
    → all (λ d. leb n d.position) (insert_by_position c cs) ≡ true
unfolding insert_by_position
all_above-insert n c [] h q = ground arith
all_above-insert n c (d ∷ ds) h q = ground (arith, all_above-insert n c ds)

all_above_mono :
    (n m : ℕ) (cs : List Channel)
    → n ≤ m
    → all (λ d. leb m d.position) cs ≡ true
    → all (λ d. leb n d.position) cs ≡ true
all_above_mono n m [] h q = refl
all_above_mono n m (c ∷ cs) h q = ground (arith, all_above_mono n m cs)

insert_by_position-IsSorted :
    (c : Channel) (cs : List Channel) → IsSorted cs → IsSorted (insert_by_position c cs)
unfolding insert_by_position
insert_by_position-IsSorted c [] h = (refl, tt)
insert_by_position-IsSorted c (d ∷ ds) h = elim (Bool-cases (leb c.position d.position)) [
  | inl first ↦ rw first (ground (arith, all_above_mono c.position d.position ds), h)
  | inr later ↦
      rw later
        (all_above-insert d.position c ds (ground arith) h.0, insert_by_position-IsSorted c ds h.1)
]

sort_by_position-IsSorted : (cs : List Channel) → IsSorted (sort_by_position cs)
unfolding sort_by_position
sort_by_position-IsSorted [] = tt
sort_by_position-IsSorted (c ∷ cs) =
    insert_by_position-IsSorted c (sort_by_position cs) (sort_by_position-IsSorted cs)

insert_by_position-perm :
    (c : Channel) (cs : List Channel) → Perm (insert_by_position c cs) (c ∷ cs)
unfolding insert_by_position
insert_by_position-perm c [] = Perm.refl (c ∷ [])
insert_by_position-perm c (d ∷ ds) = elim (Bool-cases (leb c.position d.position)) [
  | inl first ↦ rw first (Perm.refl _)
  | inr later ↦
      rw later (Perm.trans (Perm.cons d (insert_by_position-perm c ds)) (Perm.swap c d ds))
]

sort_by_position-perm : (cs : List Channel) → Perm (sort_by_position cs) cs
unfolding sort_by_position
sort_by_position-perm [] = Perm.refl []
sort_by_position-perm (c ∷ cs) =
    Perm.trans (insert_by_position-perm c (sort_by_position cs))
      (Perm.cons c (sort_by_position-perm cs))

-- A fetch that succeeds leaves the server's channels, each as often as the server listed it, in the order of their positions, whatever the
-- store held and however it changed meanwhile.
fetch_channels-IsSorted :
    (meanwhile : ChannelState → ChannelState) (channels : List Channel) (s : ChannelState)
    → IsSorted (fetch_channels meanwhile (ok channels) s).channels
      × Perm (fetch_channels meanwhile (ok channels) s).channels channels
unfolding fetch_channels
fetch_channels-IsSorted meanwhile channels s =
    (sort_by_position-IsSorted channels, sort_by_position-perm channels)

-- The active channel, if there is one, is in the list.
abbrev pub HasActive : ChannelState → Type 0
HasActive s = elim s.active_channel_id [
  | none ↦ Unit {0}
  | some id ↦ has_id channel_key id s.channels ≡ true
]

create_channel-HasActive :
    (created : Reply Channel) (s : ChannelState)
    → HasActive s
    → HasActive (create_channel created s).0
unfolding create_channel
create_channel-HasActive (ok c) s h =
    ground (arith, any-append (λ d. d.id == get_or s.active_channel_id "") s.channels (c ∷ []))
create_channel-HasActive (failed err) s h = h

update_channel-HasActive :
    (id : String) (updated : Channel) (s : ChannelState)
    → updated.id ≡ id
    → HasActive s
    → HasActive (update_channel id (ok updated) s).0
unfolding update_channel
update_channel-HasActive id updated s same h = ground (
  arith,
  has_id-update_id channel_key id (λ _. updated) (λ x e. same) (get_or s.active_channel_id "")
      s.channels,
)

delete_channel-HasActive :
    (id : String) (deleted : Reply (Unit {0})) (s : ChannelState)
    → HasActive s
    → HasActive (delete_channel id deleted s).0
unfolding delete_channel
delete_channel-HasActive id (ok _) s h =
    let active = get_or s.active_channel_id "" in
    ground
      (arith, has_id-remove_id channel_key active id s.channels, eq_iff id active, eq_iff active id)
delete_channel-HasActive id (failed err) s h = h

-- Creating, changing and deleting a channel, whatever the server answers, keep the active channel in the list; an
-- update is answered with the channel of the same id.
operations-HasActive :
    (id : String) (created : Reply Channel) (updated : Channel) (err : Failure)
    (deleted : Reply (Unit {0})) (s : ChannelState)
    → updated.id ≡ id
    → HasActive s
    → HasActive (create_channel created s).0
      × HasActive (update_channel id (ok updated) s).0
      × HasActive (update_channel id (failed err) s).0
      × HasActive (delete_channel id deleted s).0
unfolding update_channel
operations-HasActive id created updated err deleted s same active = (
  create_channel-HasActive created s active,
  update_channel-HasActive id updated s same active,
  active,
  delete_channel-HasActive id deleted s active,
)
