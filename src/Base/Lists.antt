-- ===== src/Base/Lists.antt =====
-- The methods of `Array` that the stores use, with a Boolean test as the source has it.
use Prim.Native.Nat.{ℕ, zero, suc, ◌+◌, ◌≤◌}
use Prim.Native.String.{String}
use mathlib.Core.Path.{◌≡◌, refl}
use mathlib.Core.Bool.{Bool, true, false, ◌&&◌, ◌||◌, not}
use mathlib.Core.Option
use mathlib.Core.Option.{Option, none, some}
use mathlib.Core.List.{List, [], ◌∷◌, ◌++◌}
use native.Mathlib.Omega.{arith}
use text.Mathlib.Text.{◌==◌}
use text.Mathlib.TextEquality.{eq_iff}
use together.Base.Tests.{if◌then◌else◌, or_else, is_some}

module _ {ℓ} {A : Type ℓ} where
  abbrev pub length : List A → ℕ
  length [] = 0
  length (x ∷ xs) = suc (length xs)

  -- xs.slice(0, n)
  abbrev pub take : ℕ → List A → List A
  take zero xs = []
  take (suc n) [] = []
  take (suc n) (x ∷ xs) = x ∷ take n xs

  -- xs.some(p)
  abbrev pub any : (A → Bool) → List A → Bool
  any p [] = false
  any p (x ∷ xs) = p x || any p xs

  abbrev pub all : (A → Bool) → List A → Bool
  all p [] = true
  all p (x ∷ xs) = p x && all p xs

  -- xs.filter(p)
  abbrev pub filter : (A → Bool) → List A → List A
  filter p [] = []
  filter p (x ∷ xs) = let rest = filter p xs in if p x then x ∷ rest else rest

  -- xs.find(p)
  abbrev pub find : (A → Bool) → List A → Option A
  find p [] = none
  find p (x ∷ xs) = if p x then some x else find p xs

  -- xs.map((x) => (p(x) ? f(x) : x))
  abbrev pub map_where : (A → Bool) → (A → A) → List A → List A
  map_where p f [] = []
  map_where p f (x ∷ xs) = (if p x then f x else x) ∷ map_where p f xs

  -- `xs[n]`, where `none` is `undefined`
  abbrev pub get_elem? : List A → ℕ → Option A
  get_elem? [] n = none
  get_elem? (x ∷ xs) zero = some x
  get_elem? (x ∷ xs) (suc n) = get_elem? xs n

  pub length-append : (xs ys : List A) → length (xs ++ ys) ≡ length xs + length ys
  length-append [] ys = omega arith
  length-append (x ∷ xs) ys = omega (arith, length-append xs ys)

  pub filter-append :
      (p : A → Bool) (xs ys : List A) → filter p (xs ++ ys) ≡ filter p xs ++ filter p ys
  filter-append p [] ys = refl
  filter-append p (x ∷ xs) ys = ground (arith, filter-append p xs ys)

  pub length-map_where :
      (p : A → Bool) (f : A → A) (xs : List A) → length (map_where p f xs) ≡ length xs
  length-map_where p f [] = refl
  length-map_where p f (x ∷ xs) = omega (arith, length-map_where p f xs)

  pub length-filter-le : (p : A → Bool) (xs : List A) → length (filter p xs) ≤ length xs
  length-filter-le p [] = omega arith
  length-filter-le p (x ∷ xs) = ground (arith, length-filter-le p xs)

  pub any-append : (p : A → Bool) (xs ys : List A) → any p (xs ++ ys) ≡ (any p xs || any p ys)
  any-append p [] ys = refl
  any-append p (x ∷ xs) ys = ground (arith, any-append p xs ys)

  -- A filter that every item passes changes nothing.
  pub filter-all : (p : A → Bool) (xs : List A) → all p xs ≡ true → filter p xs ≡ xs
  filter-all p [] h = refl
  filter-all p (x ∷ xs) h = ground (arith, filter-all p xs)

  pub all-filter : (p : A → Bool) (xs : List A) → all p (filter p xs) ≡ true
  all-filter p [] = refl
  all-filter p (x ∷ xs) = ground (arith, all-filter p xs)

  pub any-filter : (p : A → Bool) (xs : List A) → any p (filter p xs) ≡ any p xs
  any-filter p [] = refl
  any-filter p (x ∷ xs) = ground (arith, any-filter p xs)

-- includes(k), on texts
abbrev pub includes : List String → String → Bool
includes xs k = any (λ j. j == k) xs

-- Lists of items that are told apart by an id.
module _ {ℓ} {A : Type ℓ} (id_of : A → String) where
  -- xs.some((x) => x.id === k)
  abbrev pub has_id : String → List A → Bool
  has_id k = any (λ x. id_of x == k)

  -- xs.map((x) => (x.id === k ? f(x) : x))
  abbrev pub update_id : String → (A → A) → List A → List A
  update_id k = map_where (λ x. id_of x == k)

  -- xs.filter((x) => x.id !== k)
  abbrev pub remove_id : String → List A → List A
  remove_id k = filter (λ x. not (id_of x == k))

  -- No id stands twice.
  abbrev pub distinct : List A → Bool
  distinct [] = true
  distinct (x ∷ xs) = not (has_id (id_of x) xs) && distinct xs

  has_id-filter :
      (p : A → Bool) (j : String) (xs : List A)
      → has_id j xs ≡ false
      → has_id j (filter p xs) ≡ false
  has_id-filter p j [] h = refl
  has_id-filter p j (x ∷ xs) h = ground (arith, has_id-filter p j xs)

  pub distinct-filter :
      (p : A → Bool) (xs : List A) → distinct xs ≡ true → distinct (filter p xs) ≡ true
  distinct-filter p [] h = refl
  distinct-filter p (x ∷ xs) h = ground (arith, distinct-filter p xs, has_id-filter p (id_of x) xs)

  pub has_id-remove_id :
      (j k : String) (xs : List A) → has_id j (remove_id k xs) ≡ (not (k == j) && has_id j xs)
  has_id-remove_id j k [] = ground arith
  has_id-remove_id j k (x ∷ xs) =
      ground (arith, has_id-remove_id j k xs, eq_iff (id_of x) k, eq_iff (id_of x) j, eq_iff k j)

  pub distinct-remove_id :
      (k : String) (xs : List A) → distinct xs ≡ true → distinct (remove_id k xs) ≡ true
  distinct-remove_id k [] h = refl
  distinct-remove_id k (x ∷ xs) h =
      ground (arith, distinct-remove_id k xs, has_id-remove_id (id_of x) k xs)

  -- An append of an item whose id is new.
  pub distinct-append_one :
      (xs : List A) (a : A)
      → distinct xs ≡ true
      → has_id (id_of a) xs ≡ false
      → distinct (xs ++ a ∷ []) ≡ true
  distinct-append_one [] a h n = refl
  distinct-append_one (x ∷ xs) a h n = ground (
    arith,
    distinct-append_one xs a,
    any-append (λ y. id_of y == id_of x) xs (a ∷ []),
    eq_iff (id_of x) (id_of a),
    eq_iff (id_of a) (id_of x),
  )

  -- f keeps the id of the items that it is applied to.
  abbrev pub KeepsId : String → (A → A) → Type ℓ
  KeepsId k f = (x : A) → (id_of x == k) ≡ true → id_of (f x) ≡ k

  module _ (k : String) (f : A → A) (keeps : KeepsId k f) where
    pub has_id-update_id : (j : String) (xs : List A) → has_id j (update_id k f xs) ≡ has_id j xs
    has_id-update_id j [] = refl
    has_id-update_id j (x ∷ xs) = ground (arith, has_id-update_id j xs, keeps x, eq_iff (id_of x) k)

    pub distinct-update_id : (xs : List A) → distinct (update_id k f xs) ≡ distinct xs
    distinct-update_id [] = refl
    distinct-update_id (x ∷ xs) =
        ground
          (arith, distinct-update_id xs, has_id-update_id (id_of x) xs, keeps x, eq_iff (id_of x) k)

  module _ (p : A → Bool) (f : A → A) (keeps : (x : A) → id_of (f x) ≡ id_of x) where
    pub has_id-map_where : (j : String) (xs : List A) → has_id j (map_where p f xs) ≡ has_id j xs
    has_id-map_where j [] = refl
    has_id-map_where j (x ∷ xs) = ground (arith, has_id-map_where j xs, keeps x)

    pub distinct-map_where : (xs : List A) → distinct (map_where p f xs) ≡ distinct xs
    distinct-map_where [] = refl
    distinct-map_where (x ∷ xs) =
        ground (arith, distinct-map_where xs, has_id-map_where (id_of x) xs, keeps x)

  -- The item with an id, where there is one.
  abbrev pub find_id : String → List A → Option A
  find_id k = find (λ x. id_of x == k)

  pub find_id-update_id :
      (k : String) (f : A → A)
      → KeepsId k f
      → (j : String) (xs : List A)
      → find_id j (update_id k f xs)
        ≡ (if k == j then Option.map f (find_id j xs) else find_id j xs)
  find_id-update_id k f keeps j [] = ground arith
  find_id-update_id k f keeps j (x ∷ xs) = ground (
    arith,
    find_id-update_id k f keeps j xs,
    keeps x,
    eq_iff (id_of x) k,
    eq_iff (id_of x) j,
    eq_iff k j,
  )

  pub find_id-append_one :
      (j : String) (xs : List A) (a : A)
      → find_id j (xs ++ a ∷ []) ≡ or_else (find_id j xs) (if id_of a == j then some a else none)
  find_id-append_one j [] a = ground arith
  find_id-append_one j (x ∷ xs) a = ground (arith, find_id-append_one j xs a)

  pub has_id-find_id : (j : String) (xs : List A) → has_id j xs ≡ is_some (find_id j xs)
  has_id-find_id j [] = refl
  has_id-find_id j (x ∷ xs) = ground (arith, has_id-find_id j xs)
