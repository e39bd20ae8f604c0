-- ===== src/Dms.antt =====
-- clients/web/src/stores/dmStore.ts: direct messages. `get_time` is `new Date(t).getTime()` of the runtime, on the time
-- stamps that the server writes.
pub mod Ordering
use together.Base.{
  ℕ, String, Bool, true, false, Option, none, some, List, [], ◌∷◌, ◌++◌, reverse, if◌then◌else◌,
  leb, eqb, length, has_id, update_id, truthy, get_or, Reply, ok, failed, describe, Outcome,
  returned, thrown,
}
use together.Base.Dict.{Dict, get, put}
use together.Types.Chat.{DirectMessage}
use together.Types.Community.{DirectMessageChannel}

pub record DmState : Type 0 where
  pub channels : List DirectMessageChannel
  pub active_dm_channel_id : Option String
  pub messages_by_channel : Dict (List DirectMessage)
  pub has_more : Bool
  pub is_loading : Bool
  pub error : Option String

abbrev pub channel_key : DirectMessageChannel → String
channel_key c = c.id

abbrev pub dm_key : DirectMessage → String
dm_key m = m.id

pub set_channels : List DirectMessageChannel → DmState → DmState
set_channels channels s = record s { channels = channels }

unfoldable pub add_channel : DirectMessageChannel → DmState → DmState
add_channel channel s =
    if has_id channel_key channel.id s.channels
    then s
    else record s { channels = channel ∷ s.channels }

unfoldable pub set_active_dm_channel : Option String → DmState → DmState
set_active_dm_channel id s = record s { active_dm_channel_id = id; has_more = true }

pub fetch_channels : Reply (List DirectMessageChannel) → DmState → DmState
fetch_channels (ok channels) s = record s { channels = channels }
fetch_channels (failed err) s = record s { error = some (describe err "Failed to load DMs") }

unfoldable pub open_or_create_dm :
    Reply DirectMessageChannel → DmState → DmState × Outcome DirectMessageChannel
unfolding add_channel
open_or_create_dm (ok channel) s = (add_channel channel s, returned channel)
open_or_create_dm (failed err) s =
    (record s { error = some (describe err "Failed to open DM") }, thrown err)

abbrev pub messages_in : String → DmState → List DirectMessage
messages_in channel_id s = get_or (get s.messages_by_channel channel_id) []

unfoldable pub fetch_messages :
    String
    → Option String
    → (meanwhile : DmState → DmState) → Reply (List DirectMessage)
    → DmState
    → DmState
fetch_messages channel_id before meanwhile (ok fetched) s =
    let s' = meanwhile (record s { is_loading = true }) in
    let ordered = reverse fetched in
    record s' {
      messages_by_channel =
          put s'.messages_by_channel channel_id
            (if truthy before then ordered ++ messages_in channel_id s' else ordered);
      has_more = eqb (length fetched) 50;
      is_loading = false;
    }
fetch_messages channel_id before meanwhile (failed err) s =
    let s' = meanwhile (record s { is_loading = true }) in
    record s' { is_loading = false; error = some (describe err "Failed to load messages") }

pub clear_error : DmState → DmState
clear_error s = record s { error = none }

module _ (get_time : String → ℕ) where
  -- `new Date(c.last_message_at || 0).getTime()`
  abbrev pub last_time : DirectMessageChannel → ℕ
  last_time c = if truthy c.last_message_at then get_time (get_or c.last_message_at "") else 0

  -- The stable `sort` by the comparison `b - a` of the last times: an insertion before what is not later.
  pub insert_channel : DirectMessageChannel → List DirectMessageChannel → List DirectMessageChannel
  insert_channel c [] = c ∷ []
  insert_channel c (d ∷ ds) =
      if leb (last_time d) (last_time c) then c ∷ d ∷ ds else d ∷ insert_channel c ds

  pub sort_channels : List DirectMessageChannel → List DirectMessageChannel
  sort_channels [] = []
  sort_channels (c ∷ cs) = insert_channel c (sort_channels cs)

  unfoldable pub add_message : DirectMessage → DmState → DmState
  add_message message s =
      let existing = messages_in message.channel_id s in
      if has_id dm_key message.id existing then s else record s {
        messages_by_channel =
            put s.messages_by_channel message.channel_id (existing ++ message ∷ []);
        channels = sort_channels (
            update_id channel_key message.channel_id
              (λ c. record c { last_message_at = some message.created_at }) s.channels);
      }

  unfoldable pub send_message : Reply DirectMessage → DmState → DmState × Outcome (Unit {0})
  unfolding add_message
  send_message (ok message) s = (add_message message s, returned tt)
  send_message (failed err) s =
      (record s { error = some (describe err "Failed to send message") }, thrown err)
