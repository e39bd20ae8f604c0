-- ===== src/Channels.antt =====
-- clients/web/src/stores/channelStore.ts: the channels of the open server.
pub mod Listing
use together.Base.{
  ℕ, String, Bool, Option, none, some, List, [], ◌∷◌, ◌++◌, if◌then◌else◌, leb, update_id,
  remove_id, is_id, Reply, ok, failed, describe, Outcome, returned, thrown,
}
use together.Types.Community.{Channel}

pub record ChannelState : Type 0 where
  pub channels : List Channel
  pub active_channel_id : Option String
  pub is_loading : Bool
  pub error : Option String

abbrev pub channel_key : Channel → String
channel_key c = c.id

-- The stable `sort` by `a.position - b.position`: an insertion before what does not come earlier.
pub insert_by_position : Channel → List Channel → List Channel
insert_by_position c [] = c ∷ []
insert_by_position c (d ∷ ds) =
    if leb c.position d.position then c ∷ d ∷ ds else d ∷ insert_by_position c ds

pub sort_by_position : List Channel → List Channel
sort_by_position [] = []
sort_by_position (c ∷ cs) = insert_by_position c (sort_by_position cs)

pub set_active_channel : Option String → ChannelState → ChannelState
set_active_channel id s = record s { active_channel_id = id }

unfoldable pub fetch_channels :
    (meanwhile : ChannelState → ChannelState) → Reply (List Channel) → ChannelState → ChannelState
fetch_channels meanwhile (ok channels) s =
    let s' = meanwhile (record s { is_loading = Bool.true }) in
    record s' { channels = sort_by_position channels; is_loading = Bool.false }
fetch_channels meanwhile (failed err) s =
    let s' = meanwhile (record s { is_loading = Bool.true }) in
    record s' { error = some (describe err "Failed to fetch channels"); is_loading = Bool.false }

unfoldable pub create_channel : Reply Channel → ChannelState → ChannelState × Outcome Channel
create_channel (ok channel) s =
    (record s { channels = s.channels ++ channel ∷ [] }, returned channel)
create_channel (failed err) s =
    (record s { error = some (describe err "Failed to create channel") }, thrown err)

unfoldable pub update_channel :
    String → Reply Channel → ChannelState → ChannelState × Outcome (Unit {0})
update_channel id (ok updated) s =
    (record s { channels = update_id channel_key id (λ _. updated) s.channels }, returned tt)
update_channel id (failed err) s =
    (record s { error = some (describe err "Failed to update channel") }, thrown err)

unfoldable pub delete_channel :
    String → Reply (Unit {0}) → ChannelState → ChannelState × Outcome (Unit {0})
delete_channel id (ok _) s = (
  record s {
    channels = remove_id channel_key id s.channels;
    active_channel_id = if is_id s.active_channel_id id then none else s.active_channel_id;
  },
  returned tt,
)
delete_channel id (failed err) s =
    (record s { error = some (describe err "Failed to delete channel") }, thrown err)

pub clear_channels : ChannelState → ChannelState
clear_channels s = record s { channels = []; active_channel_id = none }

pub clear_error : ChannelState → ChannelState
clear_error s = record s { error = none }
