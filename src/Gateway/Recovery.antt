-- ===== src/Gateway/Recovery.antt =====
-- websocket.ts: a client that is signed in can always get connected again.
use Prim.Native.String.{◌++◌ as append}
use together.Base.{
  get_or, inl, inr, ◌⊎◌, ℕ, String, Bool, true, false, not, ◌&&◌, ◌≡◌, ◌≢◌, refl, ◌∙◌, Option, none,
  some, List, [], ◌∷◌, filter, eqb, truthy, ◌==◌, arith, if◌then◌else◌,
}
use together.Gateway.{
  Client, Socket, ReadyState, connecting, opened, closing, closed, send, on_open, on_close,
  on_message, do_connect, connect, disconnect, set_server_url, fresh, cleanup, open_socket,
  schedule_reconnect, backoff,
}
use together.Gateway.Steps.{
  Step, Browser, Reach, BrowserOnly, connects, disconnects, sets_url, by_browser, socket_opens,
  socket_closing, socket_closes, receives, heartbeat_fires, reconnect_fires, here, next, still,
  then_next, with_state,
}
use together.Gateway.Invariant.{Reach-Inv}

-- There is a socket, and if it is closed a reconnect is pending.
abbrev pub hopeful : Option Socket → List (ℕ × ℕ) → Bool
hopeful none pending = false
hopeful (some s) pending = elim s.ready_state [
  | closed ↦ elim pending [ [] ↦ false | _ ∷ _ ↦ true ]
  | _ ↦ true
]

-- With a token, and an address to connect to.
abbrev pub signed_in : Client → Bool
signed_in c = truthy c.token && not (c.ws_base == "")

abbrev IsHopeful : Client → Type 0
IsHopeful c = (if signed_in c then hopeful c.ws c.timeouts else true) ≡ true

module _ (encode : String → String) where
  do_connect-IsHopeful : (c : Client) → IsHopeful (do_connect encode c)
  unfolding do_connect open_socket cleanup
  do_connect-IsHopeful c = ground arith

  Browser-IsHopeful : {c d : Client} → Browser encode c d → IsHopeful c → IsHopeful d
  unfolding on_open on_close on_message send schedule_reconnect
  Browser-IsHopeful {c} (socket_opens s e a r) h = ground arith
  Browser-IsHopeful {c} (socket_closing s e r) h = ground arith
  Browser-IsHopeful {c} (socket_closes s e a r) h = ground arith
  Browser-IsHopeful {c} (receives s msg e a r) h = ground (arith, h)
  Browser-IsHopeful {c} (heartbeat_fires i e) h = ground (arith, h)
  Browser-IsHopeful {c} (reconnect_fires i e) h = do_connect-IsHopeful _

  Step-IsHopeful : {c d : Client} → Step encode c d → IsHopeful c → IsHopeful d
  unfolding connect disconnect set_server_url cleanup
  Step-IsHopeful {c} (connects token) h =
      do_connect-IsHopeful (record c { token = some token; reconnect_attempts = 0 })
  Step-IsHopeful {c} disconnects h = refl
  Step-IsHopeful {c} (sets_url base) h =
      ground (arith, do_connect-IsHopeful (cleanup (record c { ws_base = base })))
  Step-IsHopeful (by_browser b) h = Browser-IsHopeful b h

  Reach-IsHopeful : (base : String) {c : Client} → Reach encode (fresh base) c → IsHopeful c
  Reach-IsHopeful base here = refl
  Reach-IsHopeful base (next r st) = Step-IsHopeful st (Reach-IsHopeful base r)

  -- What the browser does by itself can bring the client to be connected, with the same token and address.
  abbrev pub CanConnect : Client → Type 0
  CanConnect c =
      (d : Client) × BrowserOnly encode c d
      × (d.is_connected ≡ true)
      × (d.token ≡ c.token)
      × (d.ws_base ≡ c.ws_base)

  after : {c d e : Client} → Browser encode c d → BrowserOnly encode d e → BrowserOnly encode c e
  after b still = then_next still b
  after b (then_next r b') = then_next (after b r) b'

  CanConnect-after :
      {c d : Client}
      → Browser encode c d
      → d.token ≡ c.token
      → d.ws_base ≡ c.ws_base
      → CanConnect d
      → CanConnect c
  CanConnect-after b t u (e, r, on, t', u') = (e, after b r, on, t' ∙ t, u' ∙ u)

  connecting-CanConnect :
      (c : Client) (s : Socket)
      → c.ws ≡ some s
      → s.attached ≡ true
      → s.ready_state ≡ connecting
      → CanConnect c
  unfolding on_open
  connecting-CanConnect c s e a r =
      (on_open (with_state opened s c), then_next still (socket_opens s e a r), refl, refl, refl)

  -- What `doConnect` does with a token and an address.
  do_connect-opens :
      (c : Client)
      → signed_in c ≡ true
      → (s : Socket) × ((do_connect encode c).ws ≡ some s)
        × (s.attached ≡ true)
        × (s.ready_state ≡ connecting)
        × ((do_connect encode c).token ≡ c.token)
        × ((do_connect encode c).ws_base ≡ c.ws_base)
  unfolding do_connect open_socket cleanup
  do_connect-opens c h =
      let url = append (append c.ws_base "?token=") (encode (get_or c.token "")) in
      (
        record { url = url; ready_state = connecting; attached = true; sent = [] },
        ground (arith, h),
        refl,
        refl,
        ground (arith, h),
        ground (arith, h),
      )

  pending-CanConnect :
      (c : Client) (i delay : ℕ) (rest : List (ℕ × ℕ))
      → signed_in c ≡ true
      → c.timeouts ≡ (i, delay) ∷ rest
      → CanConnect c
  pending-CanConnect c i delay rest h e =
      let c' = record c { timeouts = filter (λ e. not (eqb e.0 i)) c.timeouts } in
      let (s, ws, attached, fresh_one, t, u) = do_connect-opens c' h in
      CanConnect-after (reconnect_fires i (ground (arith, e))) t u
        (connecting-CanConnect (do_connect encode c') s ws attached fresh_one)

  closing-CanConnect :
      (c : Client) (s : Socket)
      → signed_in c ≡ true
      → c.ws ≡ some s
      → s.attached ≡ true
      → s.ready_state ≢ closed
      → CanConnect c
  unfolding on_close schedule_reconnect
  closing-CanConnect c s h e a r =
      let d = on_close (with_state closed s c) in
      CanConnect-after (socket_closes s e a r) (ground arith) (ground arith) (
        pending-CanConnect d c.next_timer (backoff c.reconnect_attempts) c.timeouts
          (ground (arith, h)) (ground (arith, h)))

-- What a socket and the pending timeouts are, where there is hope.
hopeful_state :
    (r : ReadyState) (pending : List (ℕ × ℕ))
    → elim r [ closed ↦ elim pending [ [] ↦ false | _ ∷ _ ↦ true ] | _ ↦ true ] ≡ true
    → (r ≢ closed) ⊎ ((e : ℕ × ℕ) × (rest : List (ℕ × ℕ)) × (pending ≡ e ∷ rest))
hopeful_state connecting pending h = inl (λ e. ground (arith, e))
hopeful_state opened pending h = inl (λ e. ground (arith, e))
hopeful_state closing pending h = inl (λ e. ground (arith, e))
hopeful_state closed [] h = absurd (ground (arith, h))
hopeful_state closed (e ∷ rest) h = inr (e, rest, refl)

hopeful_socket :
    (ws : Option Socket) (pending : List (ℕ × ℕ))
    → hopeful ws pending ≡ true
    → (s : Socket) × (ws ≡ some s)
      × ((s.ready_state ≢ closed) ⊎ ((e : ℕ × ℕ) × (rest : List (ℕ × ℕ)) × (pending ≡ e ∷ rest)))
hopeful_socket none pending h = absurd (ground (arith, h))
hopeful_socket (some s) pending h = (s, refl, hopeful_state s.ready_state pending h)

-- In any state that the client can get into with a token and an address, what the browser does by itself can bring it
-- to be connected with them: it never waits for something that does not come.
pub can_recover :
    (encode : String → String) (base : String) {c : Client}
    → Reach encode (fresh base) c
    → signed_in c ≡ true
    → CanConnect encode c
can_recover encode base {c} r h =
    let inv = Reach-Inv encode base r in
    let hope : hopeful c.ws c.timeouts ≡ true = ground (arith, h, Reach-IsHopeful encode base r) in
    let (s, ws, live_or_pending) = hopeful_socket c.ws c.timeouts hope in
    elim live_or_pending [
      | inl live ↦ closing-CanConnect encode c s h ws (ground (arith, ws, inv.callbacks)) live
      | inr ((i, delay), rest, pending) ↦ pending-CanConnect encode c i delay rest h pending
    ]
