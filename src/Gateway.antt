-- ===== src/Gateway.antt =====
-- clients/web/src/api/websocket.ts: the client of the gateway, with the part of the browser that it drives: the
-- sockets that it has made, the timers that are running, and what it has emitted to its handlers.
pub mod Backoff
pub mod Steps
pub mod Invariant
pub mod Silence
pub mod Recovery
use Prim.Native.String.{◌++◌ as append}
use together.Base.{
  ℕ, ◌+◌, ◌*◌, ◌^◌, min, String, Bool, true, false, not, ◌&&◌, Option, none, some, List, [], ◌∷◌,
  ◌++◌, eqb, if◌then◌else◌, filter, truthy, ◌==◌, get_or,
}

pub data ReadyState : Type 0 where
  connecting opened closing closed : ReadyState

-- A parsed payload: `undefined`, another value that counts as false, or a value.
pub data Payload : Type 0 where
  absent falsy : Payload
  value : String → Payload

-- `op` and `t` of a message that came over the wire; either may be missing.
pub record GatewayMessage : Type 0 where
  pub op : Option String
  pub t : Option String
  pub d : Payload

-- `attached` says whether the client's callbacks are still set on the socket.
pub record Socket : Type 0 where
  pub url : String
  pub ready_state : ReadyState
  pub attached : Bool
  pub sent : List GatewayMessage

pub data Emission : Type 0 where
  connected disconnected : Emission
  dispatched : String → String → Emission

pub record Client : Type 0 where
  pub ws : Option Socket
  pub heartbeat_timer : Option ℕ
  pub reconnect_timer : Option ℕ
  pub reconnect_attempts : ℕ
  pub token : Option String
  pub is_connected : Bool
  pub ws_base : String
  -- sockets that `ws` referred to before
  pub dropped : List Socket
  -- the running intervals, and the pending timeouts with their delays
  pub intervals : List ℕ
  pub timeouts : List (ℕ × ℕ)
  pub next_timer : ℕ
  pub emitted : List Emission

abbrev pub fresh : String → Client
fresh base = record {
  ws = none;
  heartbeat_timer = none;
  reconnect_timer = none;
  reconnect_attempts = 0;
  token = none;
  is_connected = false;
  ws_base = base;
  dropped = [];
  intervals = [];
  timeouts = [];
  next_timer = 1;
  emitted = [];
}

abbrev pub emit : Emission → Client → Client
emit e c = record c { emitted = c.emitted ++ e ∷ [] }

-- A message goes out only over an open socket.
abbrev pub send_over : GatewayMessage → Option Socket → Option Socket
send_over msg none = none
send_over msg (some (s)) = elim s.ready_state [
  | opened ↦ some (record s { sent = s.sent ++ msg ∷ [] })
  | _ ↦ some s
]

unfoldable pub send : GatewayMessage → Client → Client
send msg c = record c { ws = send_over msg c.ws }

abbrev pub heartbeat : GatewayMessage
heartbeat = record { op = some "HEARTBEAT"; t = none; d = falsy }

unfoldable pub send_typing_start : String → Client → Client
unfolding send
send_typing_start channel_id =
    send (record { op = some "TYPING_START"; t = none; d = value channel_id })

-- clearInterval
abbrev pub clear_interval : Option ℕ → List ℕ → List ℕ
clear_interval none running = running
clear_interval (some i) running = filter (λ j. not (eqb j i)) running

-- clearTimeout
abbrev pub clear_timeout : Option ℕ → List (ℕ × ℕ) → List (ℕ × ℕ)
clear_timeout none pending = pending
clear_timeout (some i) pending = filter (λ e. not (eqb e.0 i)) pending

unfoldable pub stop_heartbeat : Client → Client
stop_heartbeat c = record c {
  intervals = clear_interval c.heartbeat_timer c.intervals;
  heartbeat_timer = none;
}

unfoldable pub start_heartbeat : Client → Client
unfolding stop_heartbeat
start_heartbeat c =
    let c' = stop_heartbeat c in
    record c' {
      heartbeat_timer = some c'.next_timer;
      intervals = c'.next_timer ∷ c'.intervals;
      next_timer = c'.next_timer + 1;
    }

-- The old socket loses its callbacks, and is closed if it is open or about to open.
abbrev pub detach : Socket → Socket
detach s = record s {
  attached = false;
  ready_state = elim s.ready_state [ connecting ↦ closing | opened ↦ closing | other ↦ other ];
}

abbrev pub drop_socket : Option Socket → List Socket → List Socket
drop_socket none dropped = dropped
drop_socket (some s) dropped = detach s ∷ dropped

unfoldable pub cleanup : Client → Client
unfolding stop_heartbeat
cleanup c =
    let c' = stop_heartbeat c in
    record c' {
      timeouts = clear_timeout c'.reconnect_timer c'.timeouts;
      reconnect_timer = none;
      dropped = drop_socket c'.ws c'.dropped;
      ws = none;
      is_connected = false;
    }

-- A socket that is overwritten goes to `dropped` as it is.
abbrev pub overwritten : Option Socket → List Socket → List Socket
overwritten none dropped = dropped
overwritten (some s) dropped = s ∷ dropped

unfoldable pub open_socket : String → Client → Client
open_socket url c = record c {
  dropped = overwritten c.ws c.dropped;
  ws = some (record { url = url; ready_state = connecting; attached = true; sent = [] });
}

unfoldable pub backoff : ℕ → ℕ
backoff attempts = min (1000 * 2 ^ attempts) 30000

unfoldable pub schedule_reconnect : Client → Client
schedule_reconnect c =
    if truthy c.token
    then record c {
      reconnect_timer = some c.next_timer;
      timeouts = (c.next_timer, backoff c.reconnect_attempts) ∷ c.timeouts;
      next_timer = c.next_timer + 1;
      reconnect_attempts = c.reconnect_attempts + 1;
    }
    else c

unfoldable pub on_open : Client → Client
unfolding start_heartbeat
on_open c =
    emit connected (start_heartbeat (record c { is_connected = true; reconnect_attempts = 0 }))

unfoldable pub on_close : Client → Client
unfolding stop_heartbeat schedule_reconnect
on_close c =
    schedule_reconnect (emit disconnected (stop_heartbeat (record c { is_connected = false })))

unfoldable pub handle_message : GatewayMessage → Client → Client
handle_message msg c =
    if get_or msg.op "" == "DISPATCH" && truthy msg.t
    then elim msg.d [ absent ↦ c | falsy ↦ c | value d ↦ emit (dispatched (get_or msg.t "") d) c ]
    else c

-- `none` is a message that JSON.parse refuses.
unfoldable pub on_message : Option GatewayMessage → Client → Client
unfolding handle_message
on_message none c = c
on_message (some msg) c = handle_message msg c

unfoldable pub disconnect : Client → Client
unfolding cleanup
disconnect c = cleanup (record c { token = none })

-- `encode` is encodeURIComponent.
module _ (encode : String → String) where
  unfoldable pub do_connect : Client → Client
  unfolding cleanup open_socket
  do_connect c =
      if truthy c.token && not (c.ws_base == "")
      then open_socket (append (append c.ws_base "?token=") (encode (get_or c.token "")))
          (cleanup c)
      else c

  unfoldable pub connect : String → Client → Client
  unfolding do_connect
  connect token c = do_connect (record c { token = some token; reconnect_attempts = 0 })

  -- The argument is the base that the parsed URL gives: ws or wss by its protocol, its host, and /ws.
  unfoldable pub set_server_url : String → Client → Client
  unfolding do_connect cleanup
  set_server_url base c =
      let c' = record c { ws_base = base } in
      if truthy c'.token then do_connect (cleanup c') else c'
