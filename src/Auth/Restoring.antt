-- ===== src/Auth/Restoring.antt =====
-- authStore.ts and client.ts: who is signed in, and with which tokens.
use together.Base.{
  ℕ, String, ◌≡◌, Bool, true, false, ◌||◌, Option, none, some, is_some, arith, eqb, truthy, get_or,
  ◌==◌, Reply, ok, failed, api_request_error, other_error, Bool-cases, inl, inr, [], ◌∷◌, ◌++◌,
}
use together.Types.Community.{UserDto, UserStatus}
use together.Api.{
  Session, AuthResponse, Request, Response, broken, success, error_status, request, request_once,
  try_refresh, settle_refresh, retry, is_401,
}
use together.Api.Requests.{tried}
use together.Auth.{
  register, login, logout, update_profile, update_presence, restore_session, settle_auth,
  settle_profile, begin_auth,
}

-- Whoever is signed in has a user, a token for requests, and a gateway that was connected.
pub record IsCoherent (s : Session) : Type 0 where
  pub has_user : s.auth.is_authenticated ≡ true → is_some s.auth.user ≡ true
  pub has_token : s.auth.is_authenticated ≡ true → is_some s.access_token ≡ true
  pub has_gateway : s.auth.is_authenticated ≡ true → is_some s.gateway_token ≡ true

once-IsCoherent {ℓ} :
    {A : Type ℓ} (path : String) (fetch : Request → Response A) (s : Session)
    → IsCoherent s
    → IsCoherent (request_once path fetch s).0
unfolding request_once
once-IsCoherent path fetch s c = ground arith

settle_refresh-IsCoherent :
    (reply : Reply AuthResponse) (s : Session)
    → IsCoherent s
    → IsCoherent (settle_refresh reply s).0
unfolding settle_refresh
settle_refresh-IsCoherent (ok res) s c = ground arith
settle_refresh-IsCoherent (failed (api_request_error status message)) s c = ground arith
settle_refresh-IsCoherent (failed other_error) s c = c

refresh-IsCoherent :
    (refresh : String → Request → Response AuthResponse) (s : Session)
    → IsCoherent s
    → IsCoherent (try_refresh refresh s).0
unfolding try_refresh
refresh-IsCoherent refresh s c =
    let asked = request_once "/auth/refresh" (refresh (get_or s.stored_refresh "")) s in
    let c' = once-IsCoherent "/auth/refresh" (refresh (get_or s.stored_refresh "")) s c in
    elim (Bool-cases (truthy s.stored_refresh)) [
      | inl t ↦ rw t (settle_refresh-IsCoherent asked.1 asked.0 c')
      | inr n ↦ rw n c
    ]

retry-IsCoherent {ℓ} :
    {A : Type ℓ} (path : String) (fetch : Request → Response A) (refused : Reply A)
    (r : Session × Bool)
    → IsCoherent r.0
    → IsCoherent (retry path fetch refused r).0
retry-IsCoherent path fetch refused (s, true) c = once-IsCoherent path fetch s c
retry-IsCoherent path fetch refused (s, false) c = c

pub request-IsCoherent {ℓ} :
    {A : Type ℓ} (path : String) (fetch : Request → Response A)
    (refresh : String → Request → Response AuthResponse) (s : Session)
    → IsCoherent s
    → IsCoherent (request path fetch refresh s).0
unfolding request
request-IsCoherent path fetch refresh s c =
    let first = request_once path fetch s in
    let c' = once-IsCoherent path fetch s c in
    let refreshed = try_refresh refresh first.0 in
    elim (Bool-cases (is_401 first.1)) [
      | inl refused ↦
          rw refused
            (retry-IsCoherent path fetch first.1 refreshed (refresh-IsCoherent refresh first.0 c'))
      | inr settled ↦ rw settled c'
    ]

settle_auth-IsCoherent :
    (fallback : String) (r : Session × Reply AuthResponse)
    → IsCoherent r.0
    → IsCoherent (settle_auth fallback r).0
unfolding settle_auth
settle_auth-IsCoherent fallback (s, ok res) c = ground arith
settle_auth-IsCoherent fallback (s, failed err) c = ground arith

begin-IsCoherent : (s : Session) → IsCoherent s → IsCoherent (begin_auth s)
begin-IsCoherent s c = ground arith

settle_profile-IsCoherent :
    (r : Session × Reply UserDto) → IsCoherent r.0 → IsCoherent (settle_profile r).0
settle_profile-IsCoherent (s, ok user) c = ground arith
settle_profile-IsCoherent (s, failed err) c = ground arith

-- Signing in, out and up, a change of the profile or the presence, and every request with its refresh keep whoever is
-- signed in with a user, a token and a connected gateway, however the servers answer.
pub operations-IsCoherent :
    (auth : Request → Response AuthResponse) (profile : Request → Response UserDto)
    (refresh : String → Request → Response AuthResponse) (status : UserStatus)
    (custom activity : Option String) (path : String) (s : Session)
    → IsCoherent s
    → IsCoherent (register auth s).0
      × IsCoherent (login auth s).0
      × IsCoherent (logout s)
      × IsCoherent (update_profile profile refresh s).0
      × IsCoherent (update_presence status custom activity s).0
      × IsCoherent (request path profile refresh s).0
unfolding register login logout update_profile update_presence
operations-IsCoherent auth profile refresh status custom activity path s c = (
  settle_auth-IsCoherent "Registration failed" (request_once "/auth/register" auth (begin_auth s))
      (once-IsCoherent "/auth/register" auth (begin_auth s) (begin-IsCoherent s c)),
  settle_auth-IsCoherent "Login failed" (request_once "/auth/login" auth (begin_auth s))
      (once-IsCoherent "/auth/login" auth (begin_auth s) (begin-IsCoherent s c)),
  ground arith,
  settle_profile-IsCoherent (request "/users/@me" profile refresh s)
      (request-IsCoherent "/users/@me" profile refresh s c),
  ground arith,
  request-IsCoherent path profile refresh s c,
)

abbrev pub signed_in : UserDto → Session → Session
signed_in user s = record s {
  auth = record (s.auth) { user = some user; is_authenticated = true; is_loading = false };
}

-- Of the auth store, only that it has stopped loading.
abbrev pub not_loading : Session → Session
not_loading s = record s { auth = record (s.auth) { is_loading = false } }

-- A start with a stored token, by the server's answer to the profile request, where it is no 401, and whether or not a
-- refresh token is stored. A success signs the user in, with the stored token for requests and for the gateway. A 403
-- forgets the three tokens of the client, stored and in use. Any other error, or no answer, keeps the two that are stored
-- for the next start and takes the one in use. But for that and the log of requests nothing changes.
pub restore_session_lem :
    (refresh : String → Request → Response AuthResponse) (s : Session) (token : String)
    (user : UserDto) (status : ℕ) (message : Option String)
    → (s.api_base == "") ≡ false
    → s.stored_token ≡ some token
    → truthy (some token) ≡ true
    → (eqb status 401 || eqb status 403) ≡ false
    → let start = λ (answer : Response UserDto). restore_session (λ _. answer) refresh s in
      let asked = record s { requests = s.requests ++ tried "/users/@me" (some token) ∷ [] } in
      (start (success user)
        ≡ signed_in user (record asked { access_token = some token; gateway_token = some token }))
      × (start (error_status 403 message)
          ≡ not_loading
              (record asked { stored_token = none; stored_refresh = none; access_token = none }))
      × (start (error_status status message) ≡ not_loading (record asked { access_token = none }))
      × (start broken ≡ not_loading (record asked { access_token = none }))
unfolding restore_session request request_once
restore_session_lem refresh s token user status message base stored nonempty other = ground arith
