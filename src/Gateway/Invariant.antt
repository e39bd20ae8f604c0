-- ===== src/Gateway/Invariant.antt =====
-- websocket.ts: no socket and no timer leaks.
use together.Base.{
  ℕ, String, Bool, true, false, not, ◌&&◌, ◌≡◌, ◌≢◌, refl, Option, none, some, List, [], ◌∷◌,
  filter, eqb, any, all, is_some, arith,
}
use together.Gateway.{
  Client, Socket, ReadyState, connecting, opened, closing, closed, GatewayMessage, heartbeat, send,
  on_open, on_close, on_message, do_connect, connect, disconnect, set_server_url, fresh, cleanup,
  open_socket, clear_timeout,
}
use together.Gateway.Steps.{
  Step, Browser, Reach, connects, disconnects, sets_url, by_browser, socket_opens, socket_closing,
  socket_closes, receives, heartbeat_fires, reconnect_fires, here, next, with_state,
}

abbrev pub is_active : ReadyState → Bool
is_active connecting = true
is_active opened = true
is_active closing = false
is_active closed = false

-- Let go of for good: closed or closing, and with no callbacks.
abbrev pub is_dead : Socket → Bool
is_dead s = not s.attached && not (is_active s.ready_state)

abbrev pub is_closed : Option Socket → Bool
is_closed none = true
is_closed (some s) = elim s.ready_state [ closed ↦ true | _ ↦ false ]

abbrev pub is_attached : Option Socket → Bool
is_attached none = true
is_attached (some s) = s.attached

abbrev pub held_interval : Option ℕ → List ℕ
held_interval none = []
held_interval (some i) = i ∷ []

-- At most one timeout is pending, and it is the one that the client holds.
abbrev pub Held : Option ℕ → List (ℕ × ℕ) → Type 0
Held r [] = Unit {0}
Held none (e ∷ es) = ⊥
Held (some i) (e ∷ []) = e.0 ≡ i
Held (some i) (e ∷ f ∷ es) = ⊥

-- The invariant. The running interval is the one that is held, and it runs exactly while connected;
-- one timeout at most is pending, the held one, and only without a socket that is not closed; sockets that were let go
-- of are dead; and without a token there is no socket, no pending timeout and no connection.
pub record Inv (c : Client) : Type 0 where
  pub interval : c.intervals ≡ held_interval c.heartbeat_timer
  pub beats : c.is_connected ≡ is_some c.heartbeat_timer
  pub timeout : Held c.reconnect_timer c.timeouts
  pub no_race : is_closed c.ws ≡ false → c.timeouts ≡ []
  pub dead : all is_dead c.dropped ≡ true
  pub callbacks : is_attached c.ws ≡ true
  pub signed_out : c.token ≡ none → (c.ws ≡ none) × (c.timeouts ≡ []) × (c.is_connected ≡ false)

clear_timeout-Held : (r : Option ℕ) (es : List (ℕ × ℕ)) → Held r es → clear_timeout r es ≡ []
clear_timeout-Held none [] h = refl
clear_timeout-Held (some i) [] h = refl
clear_timeout-Held none (e ∷ es) h = absurd h
clear_timeout-Held (some i) (e ∷ []) h = ground arith
clear_timeout-Held (some i) (e ∷ f ∷ es) h = absurd h

fired-Held :
    (i : ℕ) (r : Option ℕ) (es : List (ℕ × ℕ))
    → Held r es
    → any (λ e. eqb e.0 i) es ≡ true
    → filter (λ e. not (eqb e.0 i)) es ≡ []
fired-Held i none [] h a = refl
fired-Held i (some j) [] h a = refl
fired-Held i none (e ∷ es) h a = absurd h
fired-Held i (some j) (e ∷ []) h a = ground arith
fired-Held i (some j) (e ∷ f ∷ es) h a = absurd h

-- What `cleanup` leaves: nothing that runs, and one more dead socket at most.
pub record IsIdle (c : Client) : Type 0 where
  pub no_socket : c.ws ≡ none
  pub no_interval : c.intervals ≡ []
  pub no_heartbeat : c.heartbeat_timer ≡ none
  pub no_timeout : c.timeouts ≡ []
  pub offline : c.is_connected ≡ false
  pub all_dead : all is_dead c.dropped ≡ true

module _ (c : Client) (v : Inv c) where
  pub cleanup-IsIdle : IsIdle (cleanup c)
  unfolding cleanup
  cleanup-IsIdle = record {
    no_socket = refl;
    no_interval = ground arith;
    no_heartbeat = refl;
    no_timeout = clear_timeout-Held c.reconnect_timer c.timeouts v.timeout;
    offline = refl;
    all_dead = ground arith;
  }

  on_open-Inv :
      (s : Socket)
      → c.ws ≡ some s
      → s.attached ≡ true
      → s.ready_state ≡ connecting
      → Inv (on_open (with_state opened s c))
  unfolding on_open
  on_open-Inv s e a r = ground arith

  closing-Inv : (s : Socket) → c.ws ≡ some s → s.ready_state ≡ opened → Inv (with_state closing s c)
  closing-Inv s e r = ground arith

  on_close-Inv :
      (s : Socket)
      → c.ws ≡ some s
      → s.attached ≡ true
      → s.ready_state ≢ closed
      → Inv (on_close (with_state closed s c))
  unfolding on_close
  on_close-Inv s e a r = ground arith

  on_message-Inv : (msg : Option GatewayMessage) → Inv (on_message msg c)
  unfolding on_message
  on_message-Inv msg = ground arith

  send-Inv : (msg : GatewayMessage) → Inv (send msg c)
  unfolding send
  send-Inv msg = ground arith

idle-Inv : (c : Client) → IsIdle c → Inv c
idle-Inv c i = ground arith

open_socket-Inv :
    (url token : String) (c : Client) → IsIdle c → c.token ≡ some token → Inv (open_socket url c)
unfolding open_socket
open_socket-Inv url token c i t = ground arith

module _ (encode : String → String) where
  do_connect-Inv : (c : Client) → Inv c → Inv (do_connect encode c)
  unfolding do_connect
  do_connect-Inv c v = ground (arith, clear_timeout-Held c.reconnect_timer c.timeouts v.timeout)

  connect-Inv : (token : String) (c : Client) → Inv c → Inv (connect encode token c)
  unfolding connect
  connect-Inv token c v =
      do_connect-Inv (record c { token = some token; reconnect_attempts = 0 }) (ground arith)

  set_server_url-Inv : (base : String) (c : Client) → Inv c → Inv (set_server_url encode base c)
  unfolding set_server_url
  set_server_url-Inv base c v =
      let moved : Inv (record c { ws_base = base }) = ground arith in
      let idle = cleanup-IsIdle (record c { ws_base = base }) moved in
      ground
        (arith, moved, do_connect-Inv (cleanup (record c { ws_base = base })) (idle-Inv _ idle))

pub disconnect-IsIdle : (c : Client) → Inv c → IsIdle (disconnect c)
unfolding disconnect cleanup
disconnect-IsIdle c v =
    let i = cleanup-IsIdle c v in
    record {
      no_socket = refl;
      no_interval = i.no_interval;
      no_heartbeat = refl;
      no_timeout = i.no_timeout;
      offline = refl;
      all_dead = i.all_dead;
    }

module _ (encode : String → String) where
  Browser-Inv : {c d : Client} → Browser encode c d → Inv c → Inv d
  Browser-Inv {c} (socket_opens s e a r) v = on_open-Inv c v s e a r
  Browser-Inv {c} (socket_closing s e r) v = closing-Inv c v s e r
  Browser-Inv {c} (socket_closes s e a r) v = on_close-Inv c v s e a r
  Browser-Inv {c} (receives s msg e a r) v = on_message-Inv c v msg
  Browser-Inv {c} (heartbeat_fires i h) v = send-Inv c v heartbeat
  Browser-Inv {c} (reconnect_fires i h) v =
      do_connect-Inv encode _
        (ground (arith, fired-Held i c.reconnect_timer c.timeouts v.timeout h))

  Step-Inv : {c d : Client} → Step encode c d → Inv c → Inv d
  Step-Inv {c} (connects token) v = connect-Inv encode token c v
  Step-Inv {c} disconnects v = idle-Inv _ (disconnect-IsIdle c v)
  Step-Inv {c} (sets_url base) v = set_server_url-Inv encode base c v
  Step-Inv (by_browser b) v = Browser-Inv b v

  fresh-Inv : (base : String) → Inv (fresh base)
  fresh-Inv base = ground arith

  -- Whatever its callers, its sockets and its timers do: a heartbeat runs exactly while connected, and only one; one
  -- reconnect at most is pending, and none beside a socket that is not closed; sockets that were let go of
  -- are closed or closing and have no callbacks; and without a token there is no socket, no reconnect and
  -- no connection.
  pub Reach-Inv : (base : String) {c : Client} → Reach encode (fresh base) c → Inv c
  Reach-Inv base here = fresh-Inv base
  Reach-Inv base (next r st) = Step-Inv st (Reach-Inv base r)
