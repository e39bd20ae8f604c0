-- ===== src/Api/Requests.antt =====
-- client.ts: how often a request goes out, and what a refresh does to the session.
use together.Base.{
  ℕ, ◌+◌, ◌≤◌, String, ◌≡◌, refl, Bool, true, false, Option, none, some, [], ◌∷◌, arith,
  if◌then◌else◌, eqb, truthy, get_or, ◌==◌, length, length-append, Reply, ◌++◌, eq_refl, ◌&&◌, ok,
  failed, api_request_error, other_error, Bool-cases, inl, inr,
}
use together.Api.{
  Session, Request, Response, success, error_status, AuthResponse, request, request_once,
  try_refresh, settle_refresh, retry, is_401, reply_of, broken, error_text, session_expired,
}

once-length {ℓ} :
    {A : Type ℓ} (path : String) (fetch : Request → Response A) (s : Session)
    → length (request_once path fetch s).0.requests ≤ length s.requests + 1
unfolding request_once
once-length path fetch s =
    let out : Request = record {
      path = path;
      authorization = if truthy s.access_token then s.access_token else none;
    } in
    ground (arith, length-append s.requests (out ∷ []))

settle-length :
    (reply : Reply AuthResponse) (s : Session)
    → length (settle_refresh reply s).0.requests ≡ length s.requests
unfolding settle_refresh
settle-length (ok res) s = refl
settle-length (failed (api_request_error status message)) s = ground arith
settle-length (failed other_error) s = refl

refresh-length :
    (refresh : String → Request → Response AuthResponse) (s : Session)
    → length (try_refresh refresh s).0.requests ≤ length s.requests + 1
unfolding try_refresh
refresh-length refresh s = elim (Bool-cases (truthy s.stored_refresh)) [
  | inl some_token ↦
      let asked = request_once "/auth/refresh" (refresh (get_or s.stored_refresh "")) s in
      rw some_token (
        rw (settle-length asked.1 asked.0)
          (once-length "/auth/refresh" (refresh (get_or s.stored_refresh "")) s))
  | inr no_token ↦ rw no_token (omega arith)
]

retry-length {ℓ} :
    {A : Type ℓ} (path : String) (fetch : Request → Response A) (refused : Reply A)
    (r : Session × Bool)
    → length (retry path fetch refused r).0.requests ≤ length r.0.requests + 1
retry-length path fetch refused (s, true) = once-length path fetch s
retry-length path fetch refused (s, false) = omega arith

-- However the servers answer, one call of `request` sends at most three requests: itself, a refresh, and
-- itself once more.
pub request_at_most_three {ℓ} :
    {A : Type ℓ} (path : String) (fetch : Request → Response A)
    (refresh : String → Request → Response AuthResponse) (s : Session)
    → length (request path fetch refresh s).0.requests ≤ length s.requests + 3
unfolding request
request_at_most_three path fetch refresh s =
    let first = request_once path fetch s in
    let refreshed = try_refresh refresh first.0 in
    elim (Bool-cases (is_401 first.1)) [
      | inl refused ↦ rw refused (
          omega (
            arith,
            once-length path fetch s,
            refresh-length refresh first.0,
            retry-length path fetch first.1 refreshed,
          ))
      | inr settled ↦ rw settled (omega (arith, once-length path fetch s))
    ]

abbrev pub header : Option String → Option String
header t = if truthy t then t else none

abbrev pub tried : String → Option String → Request
tried path token = record { path = path; authorization = header token }

-- A server that answers for one refresh token, if it is sent to the path of the refresh.
abbrev pub answers_for : String → Response AuthResponse → String → Request → Response AuthResponse
answers_for token answer t r = if t == token && r.path == "/auth/refresh" then answer else broken

-- A request that is refused with 401, with a refresh token stored, by what comes of the refresh. With new tokens: both are
-- stored, the new one is used, and the answer is that of the second try, made with it, even if it is a second 401;
-- the gateway keeps the token that it was connected with. With a 401: all tokens are gone, nobody is signed in,
-- and the refusal stands. With another error, or no answer: the refusal stands and nothing but the log of requests changes.
pub request_refreshes {ℓ} :
    {A : Type ℓ} (path : String) (fetch : Request → Response A) (s : Session) (token : String)
    (message reason : Option String) (status : ℕ) (res : AuthResponse)
    → (s.api_base == "") ≡ false
    → s.stored_refresh ≡ some token
    → truthy (some token) ≡ true
    → fetch (tried path s.access_token) ≡ error_status 401 message
    → eqb status 401 ≡ false
    → let run =
        λ (answer : Response AuthResponse). request path fetch (answers_for token answer) s in
      let log =
        (s.requests ++ tried path s.access_token ∷ [])
        ++ tried "/auth/refresh" s.access_token ∷ [] in
      let refused : Reply A = failed (api_request_error 401 (error_text message)) in
      (run (success res) ≡ (
        record s {
          stored_token = some res.access_token;
          stored_refresh = some res.refresh_token;
          access_token = some res.access_token;
          requests = log ++ tried path (some res.access_token) ∷ [];
        },
        reply_of (fetch (tried path (some res.access_token))),
      ))
      × (run (error_status 401 reason) ≡ (
        record s {
          stored_token = none;
          stored_refresh = none;
          access_token = none;
          gateway_token = none;
          auth = record (s.auth) { user = none; is_authenticated = false; is_loading = false };
          requests = log;
        },
        refused,
      ))
      × (run (error_status status reason) ≡ (record s { requests = log }, refused))
      × (run broken ≡ (record s { requests = log }, refused))
unfolding request request_once try_refresh settle_refresh session_expired
request_refreshes path fetch s token message reason status res base stored nonempty refused other =
    ground (arith, eq_refl token)

-- A refresh that is answered with an error: a 401 ends the session, with every token gone and nobody
-- signed in; any other status leaves the tokens, the gateway's and the signed-in user as they were. Either way
-- there is no new token to retry with.
refresh_refused :
    (refresh : String → Request → Response AuthResponse) (s : Session) (token : String) (status : ℕ)
    (message : Option String)
    → (s.api_base == "") ≡ false
    → s.stored_refresh ≡ some token
    → truthy (some token) ≡ true
    → refresh token (record { path = "/auth/refresh"; authorization = header s.access_token })
      ≡ error_status status message
    → let s' = (try_refresh refresh s).0 in
      ((try_refresh refresh s).1 ≡ false)
      × (s'.access_token ≡ (if eqb status 401 then none else s.access_token))
      × (s'.stored_token ≡ (if eqb status 401 then none else s.stored_token))
      × (s'.stored_refresh ≡ (if eqb status 401 then none else s.stored_refresh))
      × (s'.gateway_token ≡ (if eqb status 401 then none else s.gateway_token))
      × (s'.auth.is_authenticated ≡ (if eqb status 401 then false else s.auth.is_authenticated))
unfolding try_refresh
refresh_refused refresh s token status message base stored nonempty answer =
    rw (stored, nonempty) (ground arith)
