-- ===== src/Admin/Listing.antt =====
-- adminStore.ts: what the lists show against the page and the search that the store holds.
use together.Base.{ℕ, String, ◌≡◌, ◌≢◌, refl, Option, none, some, Reply, ok, failed, arith}
use together.Types.Admin.{AdminQuery, AdminUsersResponse, AdminServersResponse}
use together.Admin.{
  AdminState, query, settle_users, fetch_users, begin_users, update_user, delete_user,
  settle_servers, fetch_servers, begin_servers, delete_server,
}

-- A list that is what the server has for the page and the search that the store holds.
abbrev pub ShowsUsers : (AdminQuery → Reply AdminUsersResponse) → AdminState → Type 0
ShowsUsers get_users s = elim (get_users (query s.users_page s.users_per_page s.users_search)) [
  | ok res ↦ (s.users ≡ res.users) × (s.users_total ≡ res.total) × (s.users_error ≡ none)
  | failed err ↦ s.users_error ≢ none
]

abbrev pub ShowsServers : (AdminQuery → Reply AdminServersResponse) → AdminState → Type 0
ShowsServers get_servers s =
    elim (get_servers (query s.servers_page s.servers_per_page s.servers_search)) [
      | ok res ↦
          (s.servers ≡ res.servers) × (s.servers_total ≡ res.total) × (s.servers_error ≡ none)
      | failed err ↦ s.servers_error ≢ none
    ]

abbrev pub undisturbed : AdminState → AdminState
undisturbed s = s

settle_users-ShowsUsers :
    (get_users : AdminQuery → Reply AdminUsersResponse) (t : AdminState)
    (r : Reply AdminUsersResponse)
    → get_users (query t.users_page t.users_per_page t.users_search) ≡ r
    → t.users_error ≡ none
    → ShowsUsers get_users (settle_users r t)
unfolding settle_users
settle_users-ShowsUsers get_users t (ok res) e h = rw (ShowsUsers, e) (refl, refl, h)
settle_users-ShowsUsers get_users t (failed err) e h = rw (ShowsUsers, e) (λ q. ground (arith, q))

settle_servers-ShowsServers :
    (get_servers : AdminQuery → Reply AdminServersResponse) (t : AdminState)
    (r : Reply AdminServersResponse)
    → get_servers (query t.servers_page t.servers_per_page t.servers_search) ≡ r
    → t.servers_error ≡ none
    → ShowsServers get_servers (settle_servers r t)
unfolding settle_servers
settle_servers-ShowsServers get_servers t (ok res) e h = rw (ShowsServers, e) (refl, refl, h)
settle_servers-ShowsServers get_servers t (failed err) e h =
    rw (ShowsServers, e) (λ q. ground (arith, q))

module _ (get_users : AdminQuery → Reply AdminUsersResponse)
    (get_servers : AdminQuery → Reply AdminServersResponse) (s : AdminState) where
  fetch_users-ShowsUsers :
      (page : Option ℕ) (search : Option String)
      → ShowsUsers get_users (fetch_users page search undisturbed get_users s)
  unfolding fetch_users
  fetch_users-ShowsUsers page search =
      settle_users-ShowsUsers get_users (begin_users page search s) _ refl refl

  fetch_servers-ShowsServers :
      (page : Option ℕ) (search : Option String)
      → ShowsServers get_servers (fetch_servers page search undisturbed get_servers s)
  unfolding fetch_servers
  fetch_servers-ShowsServers page search =
      settle_servers-ShowsServers get_servers (begin_servers page search s) _ refl refl

  -- Whatever the store showed before: a fetch of any page and search, and an accepted change or deletion,
  -- which nothing else disturbs, leave the lists that the server has for the page and the search that
  -- the store then holds, or the error that the server refused them.
  fetches-Shows :
      (page : Option ℕ) (search : Option String)
      → ShowsUsers get_users (fetch_users page search undisturbed get_users s)
        × ShowsUsers get_users (update_user (ok tt) undisturbed get_users s).0
        × ShowsUsers get_users (delete_user (ok tt) undisturbed get_users s).0
        × ShowsServers get_servers (fetch_servers page search undisturbed get_servers s)
        × ShowsServers get_servers (delete_server (ok tt) undisturbed get_servers s).0
  unfolding update_user delete_user delete_server
  fetches-Shows page search = (
    fetch_users-ShowsUsers page search,
    fetch_users-ShowsUsers none none,
    fetch_users-ShowsUsers none none,
    fetch_servers-ShowsServers page search,
    fetch_servers-ShowsServers none none,
  )

  -- A search for users that starts while an earlier search is awaited, and is answered before it: the store
  -- holds the later search and lists the users that the earlier one found.
  late_answer_shown :
      (earlier later : String) (found found_later : AdminUsersResponse)
      → get_users (query s.users_page s.users_per_page earlier) ≡ ok found
      → get_users (query s.users_page s.users_per_page later) ≡ ok found_later
      → let t =
          fetch_users none
            (some earlier)
            (fetch_users none (some later) undisturbed get_users)
            get_users
            s in
        (t.users_search ≡ later) × (t.users ≡ found.users) × (t.users_error ≡ none)
  unfolding fetch_users settle_users
  late_answer_shown earlier later found found_later e f = rw (e, f) (refl, refl, refl)
