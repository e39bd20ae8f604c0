-- ===== src/Types/Permissions.antt =====
-- PERMISSIONS and hasPermission of clients/web/src/types/index.ts.
use together.Base.{ℕ, ◌≡◌, Bool, not, ◌||◌, eqb, arith}
use together.Bits.{and32, and32-pow, test_bit}

pub data Permission : Type 0 where
  view_channel send_messages manage_messages attach_files add_reactions : Permission
  connect_voice speak mute_members kick_members ban_members : Permission
  manage_channels manage_roles manage_server administrator create_invites : Permission

-- PERMISSIONS
abbrev pub mask : Permission → ℕ
mask view_channel = 1
mask send_messages = 2
mask manage_messages = 4
mask attach_files = 8
mask add_reactions = 16
mask connect_voice = 32
mask speak = 64
mask mute_members = 128
mask kick_members = 256
mask ban_members = 512
mask manage_channels = 1024
mask manage_roles = 2048
mask manage_server = 4096
mask administrator = 8192
mask create_invites = 16384

-- The place of a permission's bit.
abbrev pub bit_of : Permission → ℕ
bit_of view_channel = 0
bit_of send_messages = 1
bit_of manage_messages = 2
bit_of attach_files = 3
bit_of add_reactions = 4
bit_of connect_voice = 5
bit_of speak = 6
bit_of mute_members = 7
bit_of kick_members = 8
bit_of ban_members = 9
bit_of manage_channels = 10
bit_of manage_roles = 11
bit_of manage_server = 12
bit_of administrator = 13
bit_of create_invites = 14

unfoldable pub has_permission : ℕ → ℕ → Bool
has_permission perms bit =
    not (eqb (and32 perms bit) 0) || not (eqb (and32 perms (mask administrator)) 0)

pub mask-test_bit :
    (perms : ℕ) (p : Permission) → eqb (and32 perms (mask p)) 0 ≡ not (test_bit (bit_of p) perms)
mask-test_bit perms view_channel = and32-pow 0 perms (omega arith)
mask-test_bit perms send_messages = and32-pow 1 perms (omega arith)
mask-test_bit perms manage_messages = and32-pow 2 perms (omega arith)
mask-test_bit perms attach_files = and32-pow 3 perms (omega arith)
mask-test_bit perms add_reactions = and32-pow 4 perms (omega arith)
mask-test_bit perms connect_voice = and32-pow 5 perms (omega arith)
mask-test_bit perms speak = and32-pow 6 perms (omega arith)
mask-test_bit perms mute_members = and32-pow 7 perms (omega arith)
mask-test_bit perms kick_members = and32-pow 8 perms (omega arith)
mask-test_bit perms ban_members = and32-pow 9 perms (omega arith)
mask-test_bit perms manage_channels = and32-pow 10 perms (omega arith)
mask-test_bit perms manage_roles = and32-pow 11 perms (omega arith)
mask-test_bit perms manage_server = and32-pow 12 perms (omega arith)
mask-test_bit perms administrator = and32-pow 13 perms (omega arith)
mask-test_bit perms create_invites = and32-pow 14 perms (omega arith)

-- A permission is had exactly when its own bit is set or the administrator's is.
pub has_permission-test_bit :
    (perms : ℕ) (p : Permission)
    → has_permission perms (mask p)
      ≡ (test_bit (bit_of p) perms || test_bit (bit_of administrator) perms)
unfolding has_permission
has_permission-test_bit perms p =
    ground (arith, mask-test_bit perms p, mask-test_bit perms administrator)
