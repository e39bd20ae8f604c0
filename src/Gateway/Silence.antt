-- ===== src/Gateway/Silence.antt =====
-- websocket.ts: after `disconnect` the client is silent.
use together.Base.{String, ◌≡◌, refl, none, arith}
use together.Gateway.{Client, disconnect, fresh}
use together.Gateway.Steps.{
  Browser, Reach, BrowserOnly, socket_opens, socket_closing, socket_closes, receives,
  heartbeat_fires, reconnect_fires, still, then_next,
}
use together.Gateway.Invariant.{IsIdle, disconnect-IsIdle, Reach-Inv}

-- Signed out, with nothing running, and with what it has emitted so far.
record IsSilent (c d : Client) : Type 0 where
  idle : IsIdle d
  no_token : d.token ≡ none
  same_emitted : d.emitted ≡ c.emitted

module _ (encode : String → String) (c : Client) where
  -- Nothing is enabled but what has no effect.
  Browser-IsSilent : {d e : Client} → Browser encode d e → IsSilent c d → IsSilent c e
  Browser-IsSilent (socket_opens s e a r) q = ground (arith, q.idle.no_socket)
  Browser-IsSilent (socket_closing s e r) q = ground (arith, q.idle.no_socket)
  Browser-IsSilent (socket_closes s e a r) q = ground (arith, q.idle.no_socket)
  Browser-IsSilent (receives s msg e a r) q = ground (arith, q.idle.no_socket)
  Browser-IsSilent (heartbeat_fires i h) q = ground (arith, q.idle.no_interval)
  Browser-IsSilent (reconnect_fires i h) q = ground (arith, q.idle.no_timeout)

  BrowserOnly-IsSilent : {d e : Client} → IsSilent c d → BrowserOnly encode d e → IsSilent c e
  BrowserOnly-IsSilent q still = q
  BrowserOnly-IsSilent q (then_next r b) = Browser-IsSilent b (BrowserOnly-IsSilent q r)

-- After `disconnect`, from any state that the client can get into, nothing that its sockets or timers do makes it
-- connect, start a timer or emit anything.
pub disconnect_final :
    (encode : String → String) (base : String) {c d : Client}
    → Reach encode (fresh base) c
    → BrowserOnly encode (disconnect c) d
    → IsIdle d × (d.emitted ≡ c.emitted)
unfolding disconnect
disconnect_final encode base {c} r only =
    let start : IsSilent c (disconnect c) = record {
      idle = disconnect-IsIdle c (Reach-Inv encode base r);
      no_token = refl;
      same_emitted = refl;
    } in
    let q = BrowserOnly-IsSilent encode c start only in (q.idle, q.same_emitted)
