-- ===== src/Endpoints/Delivery.antt =====
-- client.ts and server/src/main.rs: where the requests of the client arrive.
pub mod Table
pub mod ChatTable
use together.Base.{Bool, ◌≡◌, sym, String, false, ◌&&◌, List, ◌++◌, map, all}
use together.Endpoints.Routes.{Route}
use together.Endpoints.Routes.Servers.{server_routes}
use together.Endpoints.Routes.Channels.{channel_routes}
use together.Endpoints.Routes.Others.{other_routes}
use together.Endpoints.Routing.{Chosen, Served, handled, routed, is_apart}
use together.Endpoints.Delivery.Table.{Arguments, Sent, account_calls, server_calls}
use together.Endpoints.Delivery.ChatTable.{chat_calls, community_calls}

abbrev pub routes : List Route
routes = server_routes ++ channel_routes ++ other_routes

module _ {ℓ} {D : Type ℓ} where
  abbrev pub calls : Arguments D → List (Sent D)
  calls a = account_calls a ++ server_calls a ++ chat_calls a ++ community_calls a

  -- By a rule for two patterns, each request is served by the handler that is meant, with what it is meant to get.
  abbrev pub Arrives : (Chosen → Chosen → Chosen) → List (Sent D) → Type 0
  Arrives rule cs =
      map (λ (c : Sent D). routed rule routes c.request) cs
      ≡ map (λ (c : Sent D). handled c.handler c.params) cs

  -- Nothing that is put in a path is a word of a route.
  abbrev pub are_apart : List (Sent D) → Bool
  are_apart = all (λ (c : Sent D). is_apart routes c.request.path)
