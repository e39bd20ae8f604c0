-- ===== src/Examples/OfGateway.antt =====
-- The theorems on websocket.ts along a short history.
use together.Base.{String, refl}
use together.Gateway.{Client, fresh, connect, disconnect}
use together.Gateway.Steps.{Reach, connects, here, next, still}
use together.Gateway.Invariant.{Inv, IsIdle, Reach-Inv}
use together.Gateway.Recovery.{CanConnect, can_recover}
use together.Gateway.Silence.{disconnect_final}

plain : String → String
plain t = t

abbrev connecting_client : Client
connecting_client = connect plain "secret" (fresh "wss://host/ws")

abbrev connected_once : Reach plain (fresh "wss://host/ws") connecting_client
connected_once = next here (connects "secret")

Reach-Inv_example : Inv connecting_client
Reach-Inv_example = Reach-Inv plain "wss://host/ws" connected_once

disconnect_final_example : IsIdle (disconnect connecting_client)
disconnect_final_example = (disconnect_final plain "wss://host/ws" connected_once still).0

can_recover_example : CanConnect plain connecting_client
unfolding connect
can_recover_example = can_recover plain "wss://host/ws" connected_once refl
