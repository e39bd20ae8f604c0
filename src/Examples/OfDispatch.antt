-- ===== src/Examples/OfDispatch.antt =====
-- The theorems on useWebSocket.ts at concrete stores.
use together.Base.{◌≡◌, refl, some, [], ◌∷◌}
use together.Base.Dict.{get}
use together.ReadState.Counting.{unread}
use together.Roles.{my_role_ids}
use together.Dispatch.{session, on_message_create}
use together.Dispatch.Community.{on_member_role_add}
use together.Dispatch.Messaging.{message_routes}
use together.Dispatch.Stale.{role_add_leaves_stale}
use together.Examples.Data.{message, stores, role_info, member, role_given}

message_routes_example :
    unread "general" (on_message_create (some "random") (message "m3") stores).read ≡ 1
unfolding get
message_routes_example = (message_routes (some "random") (message "m3") stores "general").1

role_add_leaves_stale_example :
    my_role_ids (session (on_member_role_add role_given stores)) "ann" ≡ "crew" ∷ "mods" ∷ []
role_add_leaves_stale_example =
    (role_add_leaves_stale role_given (member "ann" (role_info "crew" ∷ [])) stores refl refl refl
      refl).1
