-- ===== src/Examples/OfSession.antt =====
-- The theorems on client.ts, authStore.ts and iceCache.ts at concrete sessions and servers.
use together.Base.{
  arith, other_error, api_request_error, ◌∷◌, ◌≤◌, String, ◌≡◌, refl, true, false, none, some, [],
  length, Reply, if◌then◌else◌, ◌==◌, is_id,
}
use together.Types.Community.{UserDto, UserStatus}
use together.Api.{
  Session, AuthState, AuthResponse, Request, Response, success, broken, error_status, request,
}
use together.Api.Requests.{tried, answers_for, request_at_most_three, request_refreshes}
use together.Auth.{login, restore_session}
use together.Auth.Restoring.{IsCoherent, operations-IsCoherent, restore_session_lem, not_loading}
use together.IceCache.{IceState, IceResponse, awaits, settle, get_ice_servers}
use together.IceCache.Sharing.{settle-serves, call, fails, after}
use together.Examples.Data.{ann}

abbrev out : AuthState
out = record { user = none; is_authenticated = false; is_loading = true; error = none }

abbrev stale : Session
stale = record {
  access_token = some "old";
  api_base = "/api";
  stored_token = some "old";
  stored_refresh = some "r1";
  gateway_token = some "old";
  auth = out;
  requests = [];
}

abbrev renewed : AuthResponse
renewed = record { access_token = "new"; refresh_token = "r2"; user = ann }

-- The profile is given for the new token only.
abbrev profile : Request → Response UserDto
profile r = if is_id r.authorization "new" then success ann else error_status 401 none

abbrev refresh : String → Request → Response AuthResponse
refresh token r = if token == "r1" then success renewed else error_status 401 none

abbrev signing_in : Request → Response AuthResponse
signing_in r = success renewed

request_at_most_three_example : length (request "/users/@me" profile refresh stale).0.requests ≤ 3
request_at_most_three_example = request_at_most_three "/users/@me" profile refresh stale

request_refreshes_example : request "/users/@me" profile (answers_for "r1" broken) stale ≡ (
  record stale {
    requests = tried "/users/@me" (some "old") ∷ tried "/auth/refresh" (some "old") ∷ [];
  },
  Reply.failed (api_request_error 401 "Unknown error"),
)
request_refreshes_example =
    (request_refreshes "/users/@me" profile stale "r1" none none 500 renewed refl refl refl refl
      refl).3

operations-IsCoherent_example : IsCoherent (login signing_in stale).0
operations-IsCoherent_example =
    (operations-IsCoherent signing_in profile refresh UserStatus.away none none "/servers" stale
      (record { has_user = λ e. cc; has_token = λ e. cc; has_gateway = λ e. cc })).1

restore_session_lem_example :
    restore_session (λ r. error_status 403 none) refresh stale
    ≡ not_loading (record stale {
      stored_token = none;
      stored_refresh = none;
      access_token = none;
      requests = tried "/users/@me" (some "old") ∷ [];
    })
restore_session_lem_example =
    (restore_session_lem refresh stale "old" ann 500 none refl refl refl refl).1

abbrev no_cache : IceState
no_cache = record { cache = none; inflight = false; requests = 0 }

abbrev ice : IceResponse
ice = record { ice_servers = []; ttl = 600 }

settle-serves_example :
    (get_ice_servers 540000
      (after (call 7 ∷ fails 9 other_error ∷ []) (settle 0 (Reply.ok ice) no_cache).0)).1
    ≡ awaits
settle-serves_example =
    settle-serves 0 540000 600 ice no_cache (call 7 ∷ fails 9 other_error ∷ []) refl (omega arith)
