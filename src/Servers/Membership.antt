-- ===== src/Servers/Membership.antt =====
-- serverStore.ts: who is a member after a moderation action, by the answer of the API and by the event.
use together.Base.{
  String, ◌≡◌, refl, false, not, ◌&&◌, Option, arith, if◌then◌else◌, ◌==◌, eq_iff, has_id, find_id,
  find_id-update_id, has_id-remove_id, filter-all, all-filter, remove_id, is_id, ok, failed,
  Failure, thrown,
}
use mathlib.Core.Option
use together.Types.Community.{MemberDto, UserStatus}
use together.Servers.{
  ServerState, member_key, server_key, kick_member, ban_member, remove_member_locally,
  delete_server, leave_server, with_presence, with_timeout, update_member_presence,
  set_member_timeout, remove_timeout,
}

-- A kick or a ban that the server accepts, followed by its event, leaves what one of the two leaves: the
-- user is no member, and every other user is one exactly if he was.
removal_once :
    (user other : String) (s : ServerState)
    → (has_id member_key other (kick_member user (ok tt) s).0.members
        ≡ (not (user == other) && has_id member_key other s.members))
      × (remove_member_locally user (kick_member user (ok tt) s).0 ≡ (kick_member user (ok tt) s).0)
      × (remove_member_locally user (ban_member user (ok tt) s).0 ≡ (ban_member user (ok tt) s).0)
      × ((kick_member user (ok tt) (remove_member_locally user s)).0
          ≡ (kick_member user (ok tt) s).0)
unfolding kick_member ban_member remove_member_locally
removal_once user other s =
    let again =
      filter-all (λ m. not (m.user_id == user)) (remove_id member_key user s.members)
        (all-filter (λ (m : MemberDto). not (m.user_id == user)) s.members) in
    (
      has_id-remove_id member_key other user s.members,
      ground (arith, again),
      ground (arith, again),
      ground (arith, again),
    )

-- An error of the API in any moderation action changes nothing but the error text, and is thrown.
pub refused_moderation :
    (user : String) (err : Failure) (s : ServerState)
    → let kicked = kick_member user (failed err) s in
      let banned = ban_member user (failed err) s in
      let untimed = remove_timeout user (failed err) s in
      (kicked.0.members ≡ s.members)
      × (kicked.1 ≡ thrown err)
      × (banned.0.members ≡ s.members)
      × (banned.1 ≡ thrown err)
      × (untimed.0.members ≡ s.members)
      × (untimed.1 ≡ thrown err)
unfolding kick_member ban_member remove_timeout
refused_moderation user err s = (refl, refl, refl, refl, refl, refl)

-- Presence and time-outs touch the one member: the others are found as before.
find_id-member_updates :
    (user other : String) (status : UserStatus) (custom activity expires : Option String)
    (s : ServerState)
    → (find_id member_key other (update_member_presence user status custom activity s).members ≡ (
        if user == other
        then Option.map (with_presence status custom activity) (find_id member_key other s.members)
        else find_id member_key other s.members))
      × (find_id member_key other (set_member_timeout user expires s).members ≡ (
          if user == other
          then Option.map (with_timeout expires) (find_id member_key other s.members)
          else find_id member_key other s.members))
unfolding update_member_presence set_member_timeout
find_id-member_updates user other status custom activity expires s = (
  find_id-update_id member_key user (with_presence status custom activity)
      (λ m e. (eq_iff m.user_id user).0 e) other s.members,
  find_id-update_id member_key user (with_timeout expires) (λ m e. (eq_iff m.user_id user).0 e)
      other s.members,
)

-- After a server is deleted or left it is neither listed nor active; what else was listed still is.
gone_server :
    (id other : String) (s : ServerState)
    → (has_id server_key other (delete_server id (ok tt) s).0.servers
        ≡ (not (id == other) && has_id server_key other s.servers))
      × (is_id (delete_server id (ok tt) s).0.active_server_id id ≡ false)
      × (leave_server id (ok tt) s ≡ delete_server id (ok tt) s)
unfolding delete_server leave_server
gone_server id other s = (has_id-remove_id server_key other id s.servers, ground arith, refl)
