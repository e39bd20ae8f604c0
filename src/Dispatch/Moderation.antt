-- ===== src/Dispatch/Moderation.antt =====
-- useWebSocket.ts: kicks and bans, the user's own and others'.
use together.Base.{
  String, ◌≡◌, refl, true, false, not, ◌&&◌, none, [], arith, if◌then◌else◌, ◌==◌, is_id, has_id,
  has_id-remove_id,
}
use together.Servers.{server_key, member_key, set_servers, set_active_server, remove_member_locally}
use together.Dispatch.{Stores, current_user_id}
use together.Dispatch.Community.{on_member_kick, on_member_ban}

-- A kick of the signed-in user takes the server off the list, and closes it with its members if it is
-- open; no other server is affected, and what is open otherwise stays open. A ban does the same.
own_kick :
    (server user other : String) (s : Stores)
    → is_id (current_user_id s) user ≡ true
    → (has_id server_key other (on_member_kick server user s).servers.servers
        ≡ (not (server == other) && has_id server_key other s.servers.servers))
      × ((on_member_kick server user s).servers.active_server_id
          ≡ (if is_id s.servers.active_server_id server then none else s.servers.active_server_id))
      × ((on_member_kick server user s).servers.members
          ≡ (if is_id s.servers.active_server_id server then [] else s.servers.members))
      × (on_member_ban server user s ≡ on_member_kick server user s)
unfolding on_member_kick on_member_ban set_active_server set_servers
own_kick server user other s me = (
  ground (arith, has_id-remove_id server_key other server s.servers.servers),
  ground arith,
  ground arith,
  refl,
)

-- A kick or a ban of another user takes that user, and nobody else, off the members, whatever
-- server it is in, and leaves the servers as they are.
other_kick :
    (server user other : String) (s : Stores)
    → is_id (current_user_id s) user ≡ false
    → (has_id member_key other (on_member_kick server user s).servers.members
        ≡ (not (user == other) && has_id member_key other s.servers.members))
      × ((on_member_kick server user s).servers.servers ≡ s.servers.servers)
      × (on_member_ban server user s ≡ on_member_kick server user s)
unfolding on_member_kick on_member_ban remove_member_locally
other_kick server user other s them =
    (ground (arith, has_id-remove_id member_key other user s.servers.members), ground arith, refl)
