-- ===== src/Api.antt =====
-- clients/web/src/api/client.ts: `request` and the silent refresh of the access token; with the callback that
-- clients/web/src/stores/authStore.ts registers for a dead session. The servers answer by the arguments `fetch` and
-- `refresh`, the browser's `fetch` on a request to a path and to /auth/refresh.
pub mod Requests
use together.Base.{
  ℕ, String, Bool, true, false, not, ◌&&◌, Option, none, some, List, [], ◌∷◌, ◌++◌, if◌then◌else◌,
  eqb, truthy, get_or, ◌==◌, Reply, ok, failed, Failure, api_request_error, other_error,
}
use together.Types.Community.{UserDto}

pub record AuthResponse : Type 0 where
  pub access_token : String
  pub refresh_token : String
  pub user : UserDto

-- What `fetch` comes to: no answer, or an answer whose body cannot be read; a success; or an error status, with the
-- body's `error`, which is `none` when the body is no JSON.
pub data Response {ℓ} (A : Type ℓ) : Type ℓ where
  broken : Response A
  success : A → Response A
  error_status : ℕ → Option String → Response A

pub record AuthState : Type 0 where
  pub user : Option UserDto
  pub is_authenticated : Bool
  pub is_loading : Bool
  pub error : Option String

-- A request that went out: its path, and the token of its Authorization header.
pub record Request : Type 0 where
  pub path : String
  pub authorization : Option String

-- The client's fields, the two entries of localStorage, the token that the gateway was last connected
-- with, the auth store, and the requests so far.
pub record Session : Type 0 where
  pub access_token : Option String
  pub api_base : String
  pub stored_token : Option String
  pub stored_refresh : Option String
  pub gateway_token : Option String
  pub auth : AuthState
  pub requests : List Request

-- The callback of authStore.
unfoldable pub session_expired : Session → Session
session_expired s = record s {
  stored_token = none;
  stored_refresh = none;
  access_token = none;
  gateway_token = none;
  auth = record (s.auth) { user = none; is_authenticated = false; is_loading = false };
}

-- `body.error || "Request failed"`
abbrev pub error_text : Option String → String
error_text none = "Unknown error"
error_text (some m) = if m == "" then "Request failed" else m

-- The header is set for a token that is not empty.
abbrev pub sent : String → Session → Session
sent path s = record s {
  requests =
      s.requests
      ++ record {
        path = path;
        authorization = if truthy s.access_token then s.access_token else none;
      }
        ∷ [];
}

abbrev pub reply_of {ℓ} : {A : Type ℓ} → Response A → Reply A
reply_of broken = failed other_error
reply_of (success a) = ok a
reply_of (error_status status message) = failed (api_request_error status (error_text message))

-- `request` with `skipRefresh`.
unfoldable pub request_once {ℓ} :
    {A : Type ℓ} → String → (Request → Response A) → Session → Session × Reply A
request_once path fetch s = if s.api_base == "" then (s, failed other_error) else (
  sent path s,
  reply_of (
      fetch (record {
        path = path;
        authorization = if truthy s.access_token then s.access_token else none;
      })),
)

-- What `tryRefresh` does with the answer of /auth/refresh.
unfoldable pub settle_refresh : Reply AuthResponse → Session → Session × Bool
unfolding session_expired
settle_refresh (ok res) s = (
  record s {
    stored_token = some res.access_token;
    stored_refresh = some res.refresh_token;
    access_token = some res.access_token;
  },
  true,
)
settle_refresh (failed (api_request_error status message)) s =
    (if eqb status 401 then session_expired s else s, false)
settle_refresh (failed other_error) s = (s, false)

-- `refresh` answers for the stored refresh token.
unfoldable pub try_refresh : (String → Request → Response AuthResponse) → Session → Session × Bool
unfolding request_once settle_refresh
try_refresh refresh s =
    if truthy s.stored_refresh
    then (let (s', reply) = request_once "/auth/refresh" (refresh (get_or s.stored_refresh "")) s in
        settle_refresh reply s')
    else (s, false)

-- On a 401 the token is refreshed and the request made once more; without a new token the 401 stands.
abbrev pub retry {ℓ} :
    {A : Type ℓ} → String → (Request → Response A) → Reply A → Session × Bool → Session × Reply A
retry path fetch refused (s, refreshed) =
    if refreshed then request_once path fetch s else (s, refused)

abbrev pub is_401 {ℓ} : {A : Type ℓ} → Reply A → Bool
is_401 (failed (api_request_error status message)) = eqb status 401
is_401 _ = false

unfoldable pub request {ℓ} :
    {A : Type ℓ}
    → String
    → (Request → Response A)
    → (String → Request → Response AuthResponse)
    → Session
    → Session × Reply A
unfolding request_once try_refresh
request path fetch refresh s =
    let (s', reply) = request_once path fetch s in
    if is_401 reply then retry path fetch reply (try_refresh refresh s') else (s', reply)
