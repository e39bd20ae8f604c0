-- ===== src/IceCache/Sharing.antt =====
-- iceCache.ts: one request at a time, and for how long its answer serves.
use together.Base.{
  eqb, ap, ◌∙◌, Failure, failed, some, ◌*◌, ℕ, ◌+◌, ◌≤◌, ◌≡◌, refl, true, false, none, List, [],
  ◌∷◌, map, arith, ltb, ok, if◌then◌else◌,
}
use together.IceCache.{
  IceServer, IceState, IceResponse, cached, awaits, clean, ttl_ms, get_ice_servers, settle,
}

-- The calls at the given times, while no request settles.
pub calls : List ℕ → IceState → IceState
calls [] s = s
calls (now ∷ times) s = calls times (get_ice_servers now s).0

calls_inflight : (times : List ℕ) (s : IceState) → s.inflight ≡ true → calls times s ≡ s
unfolding calls get_ice_servers
calls_inflight [] s h = refl
calls_inflight (now ∷ times) s h = ground (arith, calls_inflight times s h)

-- Any number of calls with nothing cached and nothing out send one request between them.
calls-one_request :
    (now : ℕ) (times : List ℕ) (s : IceState)
    → s.cache ≡ none
    → s.inflight ≡ false
    → ((calls (now ∷ times) s).requests ≡ s.requests + 1)
      × ((calls (now ∷ times) s).inflight ≡ true)
unfolding calls get_ice_servers
calls-one_request now times s empty idle =
    ground
      (arith, calls_inflight times (record s { inflight = true; requests = s.requests + 1 }) refl)

-- What may follow an answer: calls, and requests that fail, each at its time.
pub data Later : Type 0 where
  call : ℕ → Later
  fails : ℕ → Failure → Later

abbrev pub after : List Later → IceState → IceState
after [] s = s
after (call now ∷ es) s = after es (get_ice_servers now s).0
after (fails now err ∷ es) s = after es (settle now (failed err) s).0

cache-get_ice_servers : (now : ℕ) (s : IceState) → (get_ice_servers now s).0.cache ≡ s.cache
unfolding get_ice_servers
cache-get_ice_servers now s = ground arith

-- Calls and failures leave the cache.
cache-after : (es : List Later) (s : IceState) → (after es s).cache ≡ s.cache
unfolding settle
cache-after [] s = refl
cache-after (call now ∷ es) s =
    cache-after es (get_ice_servers now s).0 ∙ cache-get_ice_servers now s
cache-after (fails now err ∷ es) s = cache-after es (settle now (failed err) s).0

served_until :
    (servers : List IceServer) (expires_at later : ℕ) (s : IceState)
    → s.cache ≡ some (record { servers = servers; expires_at = expires_at })
    → (get_ice_servers later s).1 ≡ (if ltb later expires_at then cached servers else awaits)
unfolding get_ice_servers
served_until servers expires_at later s h = rw h (ground arith)

ttl_ms-lifetime :
    (given ttl : ℕ)
    → ttl ≡ (if eqb given 0 then 86400 else given)
    → 120 ≤ ttl
    → ttl_ms given + 60 * 1000 ≡ ttl * 1000
ttl_ms-lifetime given ttl known long = ground (arith, known, long)

less_than_minute :
    (now later life ttl : ℕ)
    → life + 60 * 1000 ≡ ttl * 1000
    → ltb later (now + life) ≡ ltb (later + 60 * 1000) (now + ttl * 1000)
less_than_minute now later life ttl h = ground (arith, h)

-- After an answer whose credentials live for at least two minutes, a missing time counting as a day,
-- and whatever calls and failures follow: a call is given
-- these servers exactly if the credentials live for more than a minute then, and otherwise waits for a new answer. So it
-- is given none that are about to expire, and none that have.
pub settle-serves :
    (now later ttl : ℕ) (res : IceResponse) (s : IceState) (events : List Later)
    → ttl ≡ (if eqb res.ttl 0 then 86400 else res.ttl)
    → 120 ≤ ttl
    → (get_ice_servers later (after events (settle now (ok res) s).0)).1 ≡ (
        if ltb (later + 60 * 1000) (now + ttl * 1000)
        then cached (map clean res.ice_servers)
        else awaits)
unfolding settle
settle-serves now later ttl res s events known long =
    let s' = after events (settle now (ok res) s).0 in
    served_until (map clean res.ice_servers) (now + ttl_ms res.ttl) later s'
      (cache-after events (settle now (ok res) s).0)
    ∙ ap (λ b. if b then cached (map clean res.ice_servers) else awaits)
        (less_than_minute now later (ttl_ms res.ttl) ttl (ttl_ms-lifetime res.ttl ttl known long))
