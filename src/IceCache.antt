-- ===== src/IceCache.antt =====
-- clients/web/src/utils/iceCache.ts: the ICE servers for calls, fetched once at a time and cached. `now` is `Date.now()`.
pub mod Sharing
use together.Base.{
  ℕ, ◌+◌, ◌-◌, ◌*◌, max, String, Bool, true, false, Option, none, some, List, [], ◌∷◌, map,
  if◌then◌else◌, eqb, ltb, truthy, Reply, ok, failed,
}

pub record IceServer : Type 0 where
  pub urls : String
  pub username : Option String
  pub credential : Option String

-- The answer of `api.getIceServers`; a `ttl` of 0 counts as missing.
pub record IceResponse : Type 0 where
  pub ice_servers : List IceServer
  pub ttl : ℕ

pub record CacheEntry : Type 0 where
  pub servers : List IceServer
  pub expires_at : ℕ

-- The module's variables, and how many requests have gone out.
pub record IceState : Type 0 where
  pub cache : Option CacheEntry
  pub inflight : Bool
  pub requests : ℕ

abbrev pub stun_fallback : List IceServer
stun_fallback =
    record { urls = "stun:stun.l.google.com:19302"; username = none; credential = none } ∷ []

-- An empty user name or credential is left out.
abbrev pub clean : IceServer → IceServer
clean s = record s {
  username = if truthy s.username then s.username else none;
  credential = if truthy s.credential then s.credential else none;
}

abbrev pub ttl_ms : ℕ → ℕ
ttl_ms ttl = max ((if eqb ttl 0 then 86400 else ttl) - 60) 60 * 1000

-- What a call of `getIceServers` gets at once: the cached servers, or the promise of a request.
pub data Answer : Type 0 where
  cached : List IceServer → Answer
  awaits : Answer

-- A request goes out only when nothing live is cached and none is out.
abbrev pub miss : IceState → IceState × Answer
miss s = (if s.inflight then s else record s { inflight = true; requests = s.requests + 1 }, awaits)

unfoldable pub get_ice_servers : ℕ → IceState → IceState × Answer
get_ice_servers now s = elim s.cache [
  | none ↦ miss s
  | some entry ↦ if ltb now entry.expires_at then (s, cached entry.servers) else miss s
]

-- The request settles: what every waiting call gets, and the state.
unfoldable pub settle : ℕ → Reply IceResponse → IceState → IceState × List IceServer
settle now (ok res) s =
    let servers = map clean res.ice_servers in
    (
      record s {
        cache = some (record { servers = servers; expires_at = now + ttl_ms res.ttl });
        inflight = false;
      },
      servers,
    )
settle now (failed err) s = (record s { inflight = false }, stun_fallback)
