-- ===== src/Bits.antt =====
-- JavaScript's `|`, `&`, `^` and `~` on permission masks. A mask is read as a 32-bit pattern; the model keeps
-- the pattern where JavaScript shows it as a signed number.
use Prim.Native.Nat.{
  bit_and, bit_or, bit_xor, differ, digits, bit_and-bitwise, bit_or-bitwise, bit_xor-bitwise,
}
use native.Mathlib.Nat.{pow-suc, mod-eq_of_lt}
use together.Base.{
  ℕ, zero, suc, ◌+◌, ◌-◌, ◌*◌, ◌/◌, ◌%◌, ◌^◌, ◌≤◌, ◌<◌, min, max, ◌≡◌, refl, sym, ap, ◌∙◌, Bool,
  false, not, ◌&&◌, ◌||◌, arith, eqb, if◌then◌else◌,
}

-- bit k of the pattern
unfoldable pub test_bit : ℕ → ℕ → Bool
test_bit zero a = eqb (a % 2) 1
test_bit (suc k) a = test_bit k (a / 2)

-- exclusive or
abbrev pub xor : Bool → Bool → Bool
xor a b = if a then not b else b

-- Two digits that are below 2, and their exclusive or.
differ_digits :
    (x y : ℕ) → x < 2 → y < 2 → (differ x y < 2) × (eqb (differ x y) 1 ≡ xor (eqb x 1) (eqb y 1))
differ_digits zero y h k = ground (arith, k)
differ_digits (suc x) zero h k = ground (arith, h)
differ_digits (suc x) (suc y) h k =
    let e : x ≡ 0 = omega arith in let f : y ≡ 0 = omega arith in rw (e, f) (ground arith)

-- The count of digits to go may be any number that is as large as the first operand.
module _ (end : ℕ → ℕ) (op : ℕ → ℕ → ℕ) where
  digits-surplus :
      (many few : ℕ)
      → few ≤ many
      → (x y : ℕ) → x ≤ few
      → digits end op many x y ≡ digits end op few x y
  digits-surplus zero zero k x y h = refl
  digits-surplus zero (suc few) k x y h = absurd (omega arith)
  digits-surplus (suc many) zero k zero y h = refl
  digits-surplus (suc many) zero k (suc x) y h = absurd (omega arith)
  digits-surplus (suc many) (suc few) k zero y h = refl
  digits-surplus (suc many) (suc few) k (suc x) y h =
      ap (λ r. r * 2 + op (suc x % 2) (y % 2))
        (digits-surplus many few (omega arith) (suc x / 2) (y / 2) (omega arith))

  -- The lowest digit and the rest.
  digits-halved :
      (x y : ℕ)
      → digits end op (suc x) (suc x) y
        ≡ digits end op (suc x / 2) (suc x / 2) (y / 2) * 2 + op (suc x % 2) (y % 2)
  digits-halved x y =
      ap (λ r. r * 2 + op (suc x % 2) (y % 2))
        (digits-surplus x (suc x / 2) (omega arith) (suc x / 2) (y / 2) (omega arith))

-- One digit of each operation.
and_step : (x y : ℕ) → bit_and x y ≡ bit_and (x / 2) (y / 2) * 2 + min (x % 2) (y % 2)
and_step zero y = omega (arith, bit_and-bitwise 0 y, bit_and-bitwise 0 (y / 2))
and_step (suc x) y =
    bit_and-bitwise (suc x) y
    ∙ digits-halved (λ _. 0) min x y
    ∙ ap (λ r. r * 2 + min (suc x % 2) (y % 2)) (sym (bit_and-bitwise (suc x / 2) (y / 2)))

or_step : (x y : ℕ) → bit_or x y ≡ bit_or (x / 2) (y / 2) * 2 + max (x % 2) (y % 2)
or_step zero y = omega (arith, bit_or-bitwise 0 y, bit_or-bitwise 0 (y / 2))
or_step (suc x) y =
    bit_or-bitwise (suc x) y
    ∙ digits-halved (λ y. y) max x y
    ∙ ap (λ r. r * 2 + max (suc x % 2) (y % 2)) (sym (bit_or-bitwise (suc x / 2) (y / 2)))

xor_step : (x y : ℕ) → bit_xor x y ≡ bit_xor (x / 2) (y / 2) * 2 + differ (x % 2) (y % 2)
xor_step zero y =
    bit_xor-bitwise 0 y ∙ ground (arith, bit_xor-bitwise 0 (y / 2), differ_zero (y % 2))
  where
    differ_zero : (y : ℕ) → differ (0 % 2) y ≡ y
    differ_zero y = refl
xor_step (suc x) y =
    bit_xor-bitwise (suc x) y
    ∙ digits-halved (λ y. y) differ x y
    ∙ ap (λ r. r * 2 + differ (suc x % 2) (y % 2)) (sym (bit_xor-bitwise (suc x / 2) (y / 2)))

pub test_bit-and : (k a b : ℕ) → test_bit k (bit_and a b) ≡ (test_bit k a && test_bit k b)
unfolding test_bit
test_bit-and zero a b = ground (arith, and_step a b)
test_bit-and (suc k) a b =
    ap (test_bit k) (omega (arith, and_step a b)) ∙ test_bit-and k (a / 2) (b / 2)

pub test_bit-or : (k a b : ℕ) → test_bit k (bit_or a b) ≡ (test_bit k a || test_bit k b)
unfolding test_bit
test_bit-or zero a b = ground (arith, or_step a b)
test_bit-or (suc k) a b =
    ap (test_bit k) (omega (arith, or_step a b)) ∙ test_bit-or k (a / 2) (b / 2)

pub test_bit-xor : (k a b : ℕ) → test_bit k (bit_xor a b) ≡ xor (test_bit k a) (test_bit k b)
unfolding test_bit
test_bit-xor zero a b = ground (arith, xor_step a b, differ_digits (a % 2) (b % 2))
test_bit-xor (suc k) a b =
    ap (test_bit k) (ground (arith, xor_step a b, differ_digits (a % 2) (b % 2)))
    ∙ test_bit-xor k (a / 2) (b / 2)

-- x | y
unfoldable pub or32 : ℕ → ℕ → ℕ
or32 a b = bit_or (a % 2 ^ 32) (b % 2 ^ 32)

-- x & y
unfoldable pub and32 : ℕ → ℕ → ℕ
and32 a b = bit_and (a % 2 ^ 32) (b % 2 ^ 32)

-- x ^ y
unfoldable pub xor32 : ℕ → ℕ → ℕ
xor32 a b = bit_xor (a % 2 ^ 32) (b % 2 ^ 32)

-- ~x
unfoldable pub not32 : ℕ → ℕ
not32 a = 2 ^ 32 - 1 - a % 2 ^ 32

-- What stands from bit n upwards does not show below it.
test_bit-add_high : (k n r q : ℕ) → k < n → test_bit k (r + q * 2 ^ n) ≡ test_bit k r
unfolding test_bit
test_bit-add_high k zero r q h = absurd (omega arith)
test_bit-add_high zero (suc n) r q h = ground (arith, double r q n)
  where
    double : (r q n : ℕ) → q * 2 ^ suc n ≡ 2 * (q * 2 ^ n)
    double r q n = rw pow-suc (omega arith)
test_bit-add_high (suc k) (suc n) r q h =
    ap (test_bit k) (half_add r q n) ∙ test_bit-add_high k n (r / 2) q (omega arith)
  where
    half_add : (r q n : ℕ) → (r + q * 2 ^ suc n) / 2 ≡ r / 2 + q * 2 ^ n
    half_add r q n = rw pow-suc (omega arith)

test_bit-mod : (k n a : ℕ) → k < n → test_bit k (a % 2 ^ n) ≡ test_bit k a
test_bit-mod k n a h =
    sym (test_bit-add_high k n (a % 2 ^ n) (a / 2 ^ n) h) ∙ ap (test_bit k) (grind arith)

complement_odd : (x a : ℕ) → a < x * 2 → eqb ((x * 2 - 1 - a) % 2) 1 ≡ not (eqb (a % 2) 1)
complement_odd x a h = ground arith

complement_half : (x a : ℕ) → a < x * 2 → (x * 2 - 1 - a) / 2 ≡ x - 1 - a / 2
complement_half x a h = omega arith

test_bit-complement :
    (k n a : ℕ) → k < n → a < 2 ^ n → test_bit k (2 ^ n - 1 - a) ≡ not (test_bit k a)
unfolding test_bit
test_bit-complement k zero a h b = absurd (omega arith)
test_bit-complement zero (suc n) a h b = rw pow-suc (complement_odd (2 ^ n) a (rw pow-suc at b))
test_bit-complement (suc k) (suc n) a h b =
    let b' : a < 2 ^ n * 2 = rw pow-suc at b in
    rw pow-suc (
      ap (test_bit k) (complement_half (2 ^ n) a b')
      ∙ test_bit-complement k n (a / 2) (omega arith) (omega arith))

pub test_bit-or32 : (k a b : ℕ) → k < 32 → test_bit k (or32 a b) ≡ (test_bit k a || test_bit k b)
unfolding or32
test_bit-or32 k a b h = rw (test_bit-or, test_bit-mod k 32 a h, test_bit-mod k 32 b h)

pub test_bit-and32 : (k a b : ℕ) → k < 32 → test_bit k (and32 a b) ≡ (test_bit k a && test_bit k b)
unfolding and32
test_bit-and32 k a b h = rw (test_bit-and, test_bit-mod k 32 a h, test_bit-mod k 32 b h)

pub test_bit-not32 : (k a : ℕ) → k < 32 → test_bit k (not32 a) ≡ not (test_bit k a)
unfolding not32
test_bit-not32 k a h =
    test_bit-complement k 32 (a % 2 ^ 32) h (omega arith) ∙ ap not (test_bit-mod k 32 a h)

nothing_in_zero : (count x : ℕ) → digits (λ _. 0) min count x 0 ≡ 0
nothing_in_zero zero x = refl
nothing_in_zero (suc count) zero = refl
nothing_in_zero (suc count) (suc x) = omega (arith, nothing_in_zero count (suc x / 2))

-- A mask of one bit reads that bit.
bit_and-pow : (k a : ℕ) → bit_and a (2 ^ k) ≡ (if test_bit k a then 2 ^ k else 0)
unfolding test_bit
bit_and-pow zero a =
    ground (arith, and_step a 1, bit_and-bitwise (a / 2) 0 ∙ nothing_in_zero (a / 2) (a / 2))
bit_and-pow (suc k) a = and_step a (2 ^ suc k) ∙ rw pow-suc (step (2 ^ k) (bit_and-pow k (a / 2)))
  where
    step :
        (x : ℕ)
        → bit_and (a / 2) x ≡ (if test_bit k (a / 2) then x else 0)
        → bit_and (a / 2) (x * 2 / 2) * 2 + min (a % 2) (x * 2 % 2)
          ≡ (if test_bit k (a / 2) then x * 2 else 0)
    step x h = let half : x * 2 / 2 ≡ x = omega arith in rw half (ground (arith, h))

pow-pos : (k : ℕ) → 0 < 2 ^ k
pow-pos zero = omega arith
pow-pos (suc k) = rw pow-suc (omega (arith, pow-pos k))

pow-lt : (k n : ℕ) → k < n → 2 ^ k < 2 ^ n
pow-lt k zero h = absurd (omega arith)
pow-lt zero (suc n) h = rw pow-suc (omega (arith, pow-pos n))
pow-lt (suc k) (suc n) h = rw (pow-suc, pow-suc) (omega (arith, pow-lt k n (omega arith)))

pub test_bit-xor32 :
    (k a b : ℕ) → k < 32 → test_bit k (xor32 a b) ≡ xor (test_bit k a) (test_bit k b)
unfolding xor32
test_bit-xor32 k a b h = rw (test_bit-xor, test_bit-mod k 32 a h, test_bit-mod k 32 b h)

pub test_bit-zero : (k : ℕ) → test_bit k 0 ≡ false
unfolding test_bit
test_bit-zero zero = refl
test_bit-zero (suc k) = test_bit-zero k

-- A power of two has one bit.
pub test_bit-pow : (j k : ℕ) → test_bit j (2 ^ k) ≡ eqb j k
unfolding test_bit
test_bit-pow zero zero = refl
test_bit-pow zero (suc k) = rw pow-suc (ground arith)
test_bit-pow (suc j) zero = test_bit-zero j ∙ ground arith
test_bit-pow (suc j) (suc k) =
    let half : 2 ^ suc k / 2 ≡ 2 ^ k = rw pow-suc (omega arith) in
    ap (test_bit j) half ∙ test_bit-pow j k ∙ ground arith

-- (x & 2 ** k) === 0
pub and32-pow : (k a : ℕ) → k < 32 → eqb (and32 a (2 ^ k)) 0 ≡ not (test_bit k a)
unfolding and32
and32-pow k a h =
    rw (mod-eq_of_lt (pow-lt k 32 h), bit_and-pow, test_bit-mod k 32 a h)
      (ground (arith, pow-pos k))
