-- ===== src/Auth.antt =====
-- clients/web/src/stores/authStore.ts over the session of `Api`. An action and the requests that it awaits are one
-- step: nothing else changes the session while it waits.
pub mod Restoring
use together.Base.{
  ℕ, String, Bool, true, false, not, ◌&&◌, ◌||◌, Option, none, some, if◌then◌else◌, eqb, truthy,
  or_else, Reply, ok, failed, Failure, api_request_error, other_error, describe, Outcome, returned,
  thrown,
}
use together.Types.Community.{UserDto, UserStatus}
use together.Api.{Session, AuthState, AuthResponse, Request, Response, request, request_once}

abbrev pub with_auth : (AuthState → AuthState) → Session → Session
with_auth f s = record s { auth = f s.auth }

abbrev begin_auth : Session → Session
begin_auth = with_auth (λ a. record a { is_loading = true; error = none })

-- The end of `register` and `login`: the tokens are stored, the client and the gateway get the new one.
unfoldable pub settle_auth : String → Session × Reply AuthResponse → Session × Outcome (Unit {0})
settle_auth fallback (s, ok res) = (
  record s {
    stored_token = some res.access_token;
    stored_refresh = some res.refresh_token;
    access_token = some res.access_token;
    gateway_token = some res.access_token;
    auth = record (s.auth) { user = some res.user; is_authenticated = true; is_loading = false };
  },
  returned tt,
)
settle_auth fallback (s, failed err) = (
  record s { auth = record (s.auth) { error = some (describe err fallback); is_loading = false } },
  thrown err,
)

unfoldable pub register : (Request → Response AuthResponse) → Session → Session × Outcome (Unit {0})
unfolding settle_auth request_once
register fetch s =
    settle_auth "Registration failed" (request_once "/auth/register" fetch (begin_auth s))

unfoldable pub login : (Request → Response AuthResponse) → Session → Session × Outcome (Unit {0})
unfolding settle_auth request_once
login fetch s = settle_auth "Login failed" (request_once "/auth/login" fetch (begin_auth s))

unfoldable pub logout : Session → Session
logout s = record s {
  stored_token = none;
  stored_refresh = none;
  access_token = none;
  gateway_token = none;
  auth = record { user = none; is_authenticated = false; is_loading = false; error = none };
}

abbrev settle_profile : Session × Reply UserDto → Session × Outcome (Unit {0})
settle_profile (s, ok user) = (with_auth (λ a. record a { user = some user }) s, returned tt)
settle_profile (s, failed err) =
    (with_auth (λ a. record a { error = some (describe err "Update failed") }) s, thrown err)

unfoldable pub update_profile :
    (Request → Response UserDto)
    → (String → Request → Response AuthResponse)
    → Session
    → Session × Outcome (Unit {0})
update_profile fetch refresh s = settle_profile (request "/users/@me" fetch refresh s)

-- Of PRESENCE_UPDATE: what goes out over the gateway.
pub record PresenceUpdate : Type 0 where
  pub status : UserStatus
  pub custom_status : Option String
  pub activity : Option String

-- `customStatus ?? user.custom_status`: a null keeps the old text in the store.
abbrev pub presence_of : PresenceUpdate → UserDto → UserDto
presence_of p user = record user {
  status = p.status;
  custom_status = or_else p.custom_status user.custom_status;
  activity = or_else p.activity user.activity;
}

-- Beside the state, the update that is sent.
unfoldable pub update_presence :
    UserStatus → Option String → Option String → Session → Session × PresenceUpdate
update_presence status custom_status activity s =
    let p : PresenceUpdate = record {
      status = status;
      custom_status = custom_status;
      activity = activity;
    } in
    (
      with_auth
          (λ a. record a { user = elim a.user [ none ↦ none | some u ↦ some (presence_of p u) ] })
          s,
      p,
    )

pub set_user : UserDto → Session → Session
set_user user = with_auth (λ a. record a { user = some user })

pub clear_error : Session → Session
clear_error = with_auth (λ a. record a { error = none })

-- 401 and 403
abbrev pub is_invalid : Failure → Bool
is_invalid (api_request_error status message) = eqb status 401 || eqb status 403
is_invalid other_error = false

-- The end of `restoreSession`: the gateway gets the token that the client holds by then.
unfoldable pub settle_restore : Session × Reply UserDto → Session
settle_restore (s, ok user) = record s {
  gateway_token = s.access_token;
  auth = record (s.auth) { user = some user; is_authenticated = true; is_loading = false };
}
settle_restore (s, failed err) = record s {
  stored_token = if is_invalid err then none else s.stored_token;
  stored_refresh = if is_invalid err then none else s.stored_refresh;
  access_token = none;
  auth = record (s.auth) { is_loading = false };
}

abbrev pub take_stored : Session → Session
take_stored s = record s {
  access_token = if truthy s.stored_token then s.stored_token else s.access_token;
}

unfoldable pub restore_session :
    (Request → Response UserDto) → (String → Request → Response AuthResponse) → Session → Session
unfolding settle_restore
restore_session fetch refresh s =
    if not (truthy s.stored_token) && not (truthy s.stored_refresh)
    then with_auth (λ a. record a { is_loading = false }) s
    else settle_restore (request "/users/@me" fetch refresh (take_stored s))
