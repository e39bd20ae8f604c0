-- ===== src/Gateway/Steps.antt =====
-- websocket.ts: what can happen to the client, by its callers, its sockets and its timers. A socket that was let go of
-- has no callbacks, so its later changes do not show. A handler that calls the client back is a caller
-- whose step comes after the one that emitted.
use together.Base.{ℕ, String, true, not, ◌≡◌, ◌≢◌, Option, some, filter, eqb, any}
use together.Gateway.{
  Client, Socket, ReadyState, connecting, opened, closing, closed, GatewayMessage, heartbeat, send,
  on_open, on_close, on_message, do_connect, connect, disconnect, set_server_url,
}

abbrev pub with_state : ReadyState → Socket → Client → Client
with_state r s c = record c { ws = some (record s { ready_state = r }) }

module _ (encode : String → String) where
  -- What the browser does by itself.
  pub data Browser (c : Client) : Client → Type 0 where
    socket_opens :
        (s : Socket)
        → c.ws ≡ some s
        → s.attached ≡ true
        → s.ready_state ≡ connecting
        → Browser c (on_open (with_state opened s c))
    socket_closing :
        (s : Socket) → c.ws ≡ some s → s.ready_state ≡ opened → Browser c (with_state closing s c)
    socket_closes :
        (s : Socket)
        → c.ws ≡ some s
        → s.attached ≡ true
        → s.ready_state ≢ closed
        → Browser c (on_close (with_state closed s c))
    receives :
        (s : Socket) (msg : Option GatewayMessage)
        → c.ws ≡ some s
        → s.attached ≡ true
        → s.ready_state ≡ opened
        → Browser c (on_message msg c)
    heartbeat_fires : (i : ℕ) → any (λ j. eqb j i) c.intervals ≡ true → Browser c (send heartbeat c)
    reconnect_fires :
        (i : ℕ)
        → any (λ e. eqb e.0 i) c.timeouts ≡ true
        → Browser c
            (do_connect encode (record c { timeouts = filter (λ e. not (eqb e.0 i)) c.timeouts }))

  pub data Step (c : Client) : Client → Type 0 where
    connects : (token : String) → Step c (connect encode token c)
    disconnects : Step c (disconnect c)
    sets_url : (base : String) → Step c (set_server_url encode base c)
    by_browser : {d : Client} → Browser c d → Step c d

  pub data Reach (c : Client) : Client → Type 0 where
    here : Reach c c
    next : {d e : Client} → Reach c d → Step d e → Reach c e

  pub data BrowserOnly (c : Client) : Client → Type 0 where
    still : BrowserOnly c c
    then_next : {d e : Client} → BrowserOnly c d → Browser d e → BrowserOnly c e
