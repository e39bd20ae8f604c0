-- ===== src/Examples/OfRoles.antt =====
-- The theorems on roleStore.ts at a member whose overrides meet.
use together.Base.{◌≡◌, refl, true, false}
use together.Base.Dict.{get}
use together.Bits.{test_bit}
use together.Types.Permissions.{speak, send_messages, manage_messages, mute_members, bit_of}
use together.Roles.{my_role_ids}
use together.Roles.Overrides.{compute_channel_permissions, is_owner}
use together.Roles.Refinement.{may, compute_channel_permissions-may}
use together.Dispatch.{session}
use together.Examples.Data.{stores, guild_roles}

-- Ann's own override takes sending away; the crew's takes speaking away; muting stays.
compute_channel_permissions-may_example :
    test_bit
      (bit_of send_messages)
      (compute_channel_permissions (session stores) "guild" "general" guild_roles)
    ≡ may (session stores) "guild" "general" guild_roles send_messages
compute_channel_permissions-may_example =
    compute_channel_permissions-may (session stores) "guild" "general" guild_roles send_messages

may_by_overrides :
    (may (session stores) "guild" "general" guild_roles send_messages ≡ false)
    × (may (session stores) "guild" "general" guild_roles speak ≡ false)
    × (may (session stores) "guild" "general" guild_roles manage_messages ≡ true)
    × (may (session stores) "guild" "general" guild_roles mute_members ≡ true)
unfolding is_owner my_role_ids get test_bit
may_by_overrides = (refl, refl, refl, refl)
