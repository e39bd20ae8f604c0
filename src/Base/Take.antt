-- ===== src/Base/Take.antt =====
-- The first items of a list: laws of `take`.
use Prim.Native.Nat.{ℕ, zero, suc, ◌-◌, ◌≤◌}
use mathlib.Core.Path.{◌≡◌, refl, ap, ◌∙◌}
use mathlib.Core.List.{List, [], ◌∷◌, ◌++◌}
use native.Mathlib.Omega.{arith}
use together.Base.Lists.{length, take}

module _ {ℓ} {A : Type ℓ} where
  pub take-all : (n : ℕ) (xs : List A) → length xs ≤ n → take n xs ≡ xs
  take-all zero [] h = refl
  take-all zero (x ∷ xs) h = absurd (omega arith)
  take-all (suc n) [] h = refl
  take-all (suc n) (x ∷ xs) h = ap (λ t. x ∷ t) (take-all n xs (omega arith))

  pub take-append_length : (n : ℕ) (xs ys : List A) → length xs ≡ n → take n (xs ++ ys) ≡ xs
  take-append_length zero [] ys h = refl
  take-append_length zero (x ∷ xs) ys h = absurd (omega arith)
  take-append_length (suc n) [] ys h = absurd (omega arith)
  take-append_length (suc n) (x ∷ xs) ys h =
      ap (λ t. x ∷ t) (take-append_length n xs ys (omega arith))

  pub take-append-le : (n : ℕ) (xs ys : List A) → n ≤ length xs → take n (xs ++ ys) ≡ take n xs
  take-append-le zero xs ys h = refl
  take-append-le (suc n) [] ys h = absurd (omega arith)
  take-append-le (suc n) (x ∷ xs) ys h = ap (λ t. x ∷ t) (take-append-le n xs ys (omega arith))

  -- Of what is appended only so much counts as there is room for.
  pub take-append-take :
      (n : ℕ) (xs ys : List A)
      → length xs ≤ n
      → take n (xs ++ take (n - length xs) ys) ≡ take n (xs ++ ys)
  take-append-take n [] ys h =
      let e : n - 0 ≡ n = omega arith in ap (λ m. take n (take m ys)) e ∙ twice n ys
    where
      twice : (n : ℕ) (ys : List A) → take n (take n ys) ≡ take n ys
      twice zero ys = refl
      twice (suc n) [] = refl
      twice (suc n) (y ∷ ys) = ap (λ t. y ∷ t) (twice n ys)
  take-append-take zero (x ∷ xs) ys h = absurd (omega arith)
  take-append-take (suc n) (x ∷ xs) ys h =
      let e : suc n - length (x ∷ xs) ≡ n - length xs = omega arith in
      ap (λ m. take (suc n) (x ∷ xs ++ take m ys)) e
      ∙ ap (λ t. x ∷ t) (take-append-take n xs ys (omega arith))
