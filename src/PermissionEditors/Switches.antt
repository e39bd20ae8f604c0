-- ===== src/PermissionEditors/Switches.antt =====
-- ChannelPermissions.tsx and RoleEditor.tsx: a switch changes one permission.
use together.Base.{ℕ, ◌^◌, ◌≡◌, refl, ap, ◌∙◌, Bool, not, ◌&&◌, ◌||◌, eqb, if◌then◌else◌, arith}
use together.Bits.{
  test_bit, or32, and32, not32, xor32, xor, test_bit-or32, test_bit-and32, test_bit-not32,
  test_bit-xor32, test_bit-pow,
}
use together.Types.Permissions.{
  Permission, mask, bit_of, administrator, view_channel, mask-test_bit,
}
use together.Roles.Refinement.{bit_of-lt}
use together.PermissionEditors.{
  TriState, inherit, allow, deny, EditorState, get_tri_state, set_tri_state, toggle_perm,
}

-- Whether two permissions are the same.
abbrev pub same : Permission → Permission → Bool
same p q = eqb (bit_of p) (bit_of q)

mask-pow : (p : Permission) → mask p ≡ 2 ^ bit_of p
mask-pow view_channel = refl
mask-pow _ = refl

test_bit-mask : (q p : Permission) → test_bit (bit_of q) (mask p) ≡ same q p
test_bit-mask q p = ap (test_bit (bit_of q)) (mask-pow p) ∙ test_bit-pow (bit_of q) (bit_of p)

-- Setting and clearing a permission, as any other one sees it.
test_bit-set :
    (q p : Permission) (a : ℕ)
    → test_bit (bit_of q) (or32 a (mask p)) ≡ (test_bit (bit_of q) a || same q p)
test_bit-set q p a =
    test_bit-or32 (bit_of q) a (mask p) (bit_of-lt q)
    ∙ ap (λ b. test_bit (bit_of q) a || b) (test_bit-mask q p)

test_bit-clear :
    (q p : Permission) (a : ℕ)
    → test_bit (bit_of q) (and32 a (not32 (mask p))) ≡ (test_bit (bit_of q) a && not (same q p))
test_bit-clear q p a =
    test_bit-and32 (bit_of q) a (not32 (mask p)) (bit_of-lt q)
    ∙ ap (λ b. test_bit (bit_of q) a && b)
        (test_bit-not32 (bit_of q) (mask p) (bit_of-lt q) ∙ ap not (test_bit-mask q p))

test_bit-toggle :
    (q p : Permission) (a : ℕ)
    → test_bit (bit_of q) (xor32 a (mask p)) ≡ xor (test_bit (bit_of q) a) (same q p)
test_bit-toggle q p a =
    test_bit-xor32 (bit_of q) a (mask p) (bit_of-lt q)
    ∙ ap (xor (test_bit (bit_of q) a)) (test_bit-mask q p)

-- What is set for a permission is what is shown for it, and nothing changes for another permission.
pub get_tri_state-set_tri_state :
    (p q : Permission) (t : TriState) (s : EditorState)
    → get_tri_state (mask q) (set_tri_state (mask p) t s)
      ≡ (if same q p then t else get_tri_state (mask q) s)
unfolding get_tri_state set_tri_state
get_tri_state-set_tri_state p q allow s = ground (
  arith,
  mask-test_bit (or32 s.local_allow (mask p)) q,
  test_bit-set q p s.local_allow,
  mask-test_bit s.local_allow q,
  mask-test_bit s.local_deny q,
  mask-test_bit (and32 s.local_deny (not32 (mask p))) q,
  test_bit-clear q p s.local_deny,
)
get_tri_state-set_tri_state p q deny s = ground (
  arith,
  mask-test_bit (or32 s.local_deny (mask p)) q,
  test_bit-set q p s.local_deny,
  mask-test_bit s.local_allow q,
  mask-test_bit s.local_deny q,
  mask-test_bit (and32 s.local_allow (not32 (mask p))) q,
  test_bit-clear q p s.local_allow,
)
get_tri_state-set_tri_state p q inherit s = ground (
  arith,
  mask-test_bit (and32 s.local_deny (not32 (mask p))) q,
  test_bit-clear q p s.local_deny,
  mask-test_bit s.local_allow q,
  mask-test_bit s.local_deny q,
  mask-test_bit (and32 s.local_allow (not32 (mask p))) q,
  test_bit-clear q p s.local_allow,
)

toggle_perm-xor :
    (p q : Permission) (a : ℕ)
    → test_bit (bit_of q) (toggle_perm (mask p) a) ≡ xor (test_bit (bit_of q) a) (same q p)
unfolding toggle_perm
toggle_perm-xor p q a = ground (
  arith,
  test_bit-toggle q p a,
  test_bit-clear q administrator a,
  test_bit-set q administrator a,
  mask-test_bit a administrator,
  test_bit-mask q p,
  test_bit-mask q administrator,
)

-- A switch of the role editor turns its permission over and no other, so that turning it twice leaves every
-- permission as it was.
toggle_perm-test_bit :
    (p q : Permission) (a : ℕ)
    → (test_bit (bit_of q) (toggle_perm (mask p) a) ≡ xor (test_bit (bit_of q) a) (same q p))
      × (test_bit (bit_of q) (toggle_perm (mask p) (toggle_perm (mask p) a))
          ≡ test_bit (bit_of q) a)
toggle_perm-test_bit p q a = (
  toggle_perm-xor p q a,
  ground (arith, toggle_perm-xor p q (toggle_perm (mask p) a), toggle_perm-xor p q a),
)
