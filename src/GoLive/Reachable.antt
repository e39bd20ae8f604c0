-- ===== src/GoLive/Reachable.antt =====
-- useGoLive.ts: which connections are closed in the end, in every state that the hook can get into.
use together.Base.{
  is_some, is_id, get_or, truthy, ℕ, ◌<◌, ◌≡◌, String, Bool, true, false, not, ◌||◌, Option, none,
  some, ◌++◌, eqb, any, arith, ◌==◌, if◌then◌else◌, returned, thrown, Bool-cases, inl, inr,
}
use together.Base.Dict.{get-empty}
use together.GoLive.{
  is_broadcasting, quality_map, Live, no_live, close_go_live_peer, on_ice_candidate,
  on_connection_state_change, offer_made, on_session, on_go_live_start, on_go_live_stop,
}
use together.GoLive.Broadcast.{
  answer_made, by_type, on_voice_signal, on_track, on_viewer_state_change, send_offers,
  on_participants, capture, on_registered, connections, stop_broadcast, disable, unmount,
}
use together.GoLive.Steps.{
  Step, Reach, ice_servers, session, goes_live, stops, receives, answers, track, viewer_state,
  peer_state, finds_candidate, participants, offers, captures, registers, broadcast_ends, leaves,
  here, then_step,
}
use together.GoLive.Accounts.{
  IsAccounted, no_live-IsAccounted, close_go_live_peer-IsAccounted, send_offers-IsAccounted,
  on_registered-IsAccounted, by_type-IsAccounted, tear_down-IsAccounted, on_capture-IsAccounted,
  either,
}

guarded :
    (a b : Bool) (l : Live) (r : Live × Option ℕ)
    → IsAccounted l
    → IsAccounted r.0
    → IsAccounted (if a then (l, none) else if b then (l, none) else r).0
guarded true b l r p q = p
guarded false true l r p q = p
guarded false false l r p q = q

module _ (my_user_id channel_id : String) where
  Step-IsAccounted : {l m : Live} → Step my_user_id channel_id l m → IsAccounted l → IsAccounted m
  unfolding on_session on_go_live_start on_go_live_stop on_voice_signal answer_made on_track
      on_viewer_state_change on_connection_state_change close_go_live_peer on_ice_candidate
      on_participants send_offers offer_made capture on_registered stop_broadcast disable
  Step-IsAccounted {l} (ice_servers cancelled (thrown err)) a = a
  Step-IsAccounted {l} (ice_servers cancelled (returned servers)) a = either cancelled l _ a a
  Step-IsAccounted {l} (session cancelled reply) a = either cancelled l _ a a
  Step-IsAccounted {l} (goes_live event) a = either (event.channel_id == channel_id) _ l a a
  Step-IsAccounted {l} (stops event) a = either (event.channel_id == channel_id) _ l a a
  Step-IsAccounted {l} (receives state msg) a =
      guarded (not (is_id msg.stream_type "go_live"))
        (not (truthy msg.from_user_id) || get_or msg.from_user_id "" == my_user_id) l
        (by_type msg.type state (get_or msg.from_user_id "") l) a
        (by_type-IsAccounted msg.type state (get_or msg.from_user_id "") l a)
  Step-IsAccounted {l} (answers k (returned sdp)) a = a
  Step-IsAccounted {l} (answers k (thrown err)) a = a
  Step-IsAccounted {l} (track remote_stream) a = a
  Step-IsAccounted {l} (viewer_state closes) a = either closes _ l a a
  Step-IsAccounted {l} (peer_state closes k) a =
      either closes (close_go_live_peer k l) l (close_go_live_peer-IsAccounted k l a) a
  Step-IsAccounted {l} (finds_candidate none k) a = a
  Step-IsAccounted {l} (finds_candidate (some payload) k) a = a
  Step-IsAccounted {l} (participants ids) a =
      either (not (is_some l.display_stream) || not (is_broadcasting my_user_id l)) l
        (send_offers my_user_id ids l) a (send_offers-IsAccounted my_user_id ids l a)
  Step-IsAccounted {l} (offers k (returned sdp)) a = a
  Step-IsAccounted {l} (offers k (thrown err)) a = a
  Step-IsAccounted {l} (captures media quality) a =
      on_capture-IsAccounted (media (quality_map quality)) l a
  Step-IsAccounted {l} (registers ids text s reply) a =
      on_registered-IsAccounted my_user_id ids text s reply l a
  Step-IsAccounted {l} broadcast_ends a = tear_down-IsAccounted l a
  Step-IsAccounted {l} leaves a = tear_down-IsAccounted l a

  pub Reach-IsAccounted :
      {l m : Live} → Reach my_user_id channel_id l m → IsAccounted l → IsAccounted m
  Reach-IsAccounted here a = a
  Reach-IsAccounted (then_step r s) a = Step-IsAccounted s (Reach-IsAccounted r a)

torn_down :
    (l : Live) (n : ℕ)
    → IsAccounted l
    → n < l.made
    → any (eqb n) (connections l.go_live_peers ++ l.closed) ≡ not (any (eqb n) l.answering)
torn_down l n a h =
    let t = tear_down-IsAccounted l a in
    elim (Bool-cases (any (eqb n) (connections l.go_live_peers ++ l.closed))) [
      | inl closed ↦ ground (arith, closed, t.past n)
      | inr not_closed ↦ elim (Bool-cases (any (eqb n) l.answering)) [
        | inl answering ↦ ground (arith, not_closed, answering)
        | inr offering ↦
            (let (k, there) = t.kept n h offering not_closed in
              absurd (ground (arith, get-empty {V = ℕ} k, there)))
      ]
    ]

-- In every state that the hook can get into, for a connection that was made: when the broadcast is stopped, when the
-- user leaves the channel, and when the component goes, it has been closed exactly if it does not answer an offer. What
-- a viewer has made stays open.
pub closed_unless_answering :
    (my_user_id channel_id : String) {l : Live} (n : ℕ)
    → Reach my_user_id channel_id no_live l
    → n < l.made
    → (any (eqb n) (stop_broadcast l).closed ≡ not (any (eqb n) l.answering))
      × (any (eqb n) (disable l).closed ≡ not (any (eqb n) l.answering))
      × (any (eqb n) (unmount l).closed ≡ not (any (eqb n) l.answering))
unfolding stop_broadcast disable unmount
closed_unless_answering my_user_id channel_id {l} n r h =
    let e = torn_down l n (Reach-IsAccounted my_user_id channel_id r no_live-IsAccounted) h in
    (e, e, e)
