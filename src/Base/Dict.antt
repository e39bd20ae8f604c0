-- ===== src/Base/Dict.antt =====
-- A plain object that serves as a dictionary, `Record<string, V>`: its own properties in the order in
-- which they were first written. Keys are the server's ids.
use Prim.Native.String.{String}
use mathlib.Core.Path.{◌≡◌, refl}
use mathlib.Core.Bool.{Bool, true, false, ◌||◌}
use mathlib.Core.Option
use mathlib.Core.Option.{Option, none, some}
use mathlib.Core.List.{List, [], ◌∷◌}
use native.Mathlib.Omega.{arith}
use text.Mathlib.Text.{◌==◌}
use text.Mathlib.TextEquality.{eq_iff}
use text.Mathlib.TextPositions.{eq_refl}
use together.Base.Tests.{if◌then◌else◌}
use together.Base.Lists.{has_id, distinct, filter, all}

abbrev pub Dict {ℓ} : Type ℓ → Type ℓ
Dict V = List (String × V)

module _ {ℓ} {V : Type ℓ} where
  -- d[k]
  unfoldable pub get : Dict V → String → Option V
  get [] k = none
  get ((j, v) ∷ d) k = if j == k then some v else get d k

  -- { ...d, [k]: v }
  unfoldable pub put : Dict V → String → V → Dict V
  put [] k v = (k, v) ∷ []
  put ((j, w) ∷ d) k v = if j == k then (j, v) ∷ d else (j, w) ∷ put d k v

  -- delete d[k]
  unfoldable pub remove : Dict V → String → Dict V
  remove [] k = []
  remove ((j, w) ∷ d) k = let rest = remove d k in if j == k then rest else (j, w) ∷ rest

  -- { ...d, ...e }
  unfoldable pub merge : Dict V → Dict V → Dict V
  merge d [] = d
  merge d ((k, v) ∷ e) = merge (put d k v) e

  pub get-put :
      (d : Dict V) (k : String) (v : V) (other : String)
      → get (put d k v) other ≡ (if k == other then some v else get d other)
  unfolding get put
  get-put [] k v other = refl
  get-put ((i, w) ∷ d) k v other =
      ground (arith, get-put d k v other, eq_iff i k, eq_iff i other, eq_iff k other)

  pub get-remove :
      (d : Dict V) (k other : String)
      → get (remove d k) other ≡ (if k == other then none else get d other)
  unfolding get remove
  get-remove [] k other = ground arith
  get-remove ((i, w) ∷ d) k other =
      ground (arith, get-remove d k other, eq_iff i k, eq_iff i other, eq_iff k other)

  pub get-put_self : (d : Dict V) (k : String) (v : V) → get (put d k v) k ≡ some v
  get-put_self d k v = simp (get-put, eq_refl)

  pub get-empty : (k : String) → get [] k ≡ none
  unfolding get
  get-empty k = refl

  -- No key stands twice, as in an object.
  abbrev pub IsObject : Dict V → Type 0
  IsObject d = distinct (λ e. e.0) d ≡ true

  pub has_key-put :
      (d : Dict V) (k : String) (v : V) (j : String)
      → has_id (λ e. e.0) j (put d k v) ≡ (k == j || has_id (λ e. e.0) j d)
  unfolding put
  has_key-put [] k v j = ground arith
  has_key-put ((i, w) ∷ d) k v j =
      ground (arith, has_key-put d k v j, eq_iff i k, eq_iff i j, eq_iff k j)

  pub put-IsObject : (d : Dict V) (k : String) (v : V) → IsObject d → IsObject (put d k v)
  unfolding put
  put-IsObject [] k v h = refl
  put-IsObject ((i, w) ∷ d) k v h =
      ground (arith, put-IsObject d k v, has_key-put d k v i, eq_iff i k, eq_iff k i)

  pub remove-IsObject : (d : Dict V) (k : String) → IsObject d → IsObject (remove d k)
  unfolding remove
  remove-IsObject [] k h = refl
  remove-IsObject ((i, w) ∷ d) k h = ground (arith, remove-IsObject d k, absent d k i)
    where
      absent :
          (d : Dict V) (k i : String)
          → has_id (λ e. e.0) i d ≡ false
          → has_id (λ e. e.0) i (remove d k) ≡ false
      absent [] k i n = refl
      absent ((j, w) ∷ d) k i n = ground (arith, absent d k i)

  get-absent : (d : Dict V) (k : String) → has_id (λ e. e.0) k d ≡ false → get d k ≡ none
  unfolding get
  get-absent [] k n = refl
  get-absent ((j, w) ∷ d) k n = ground (arith, get-absent d k)

  -- What the properties that are kept are: those whose values pass the test.
  pub get-filter :
      (p : V → Bool) (d : Dict V) (k : String)
      → IsObject d
      → get (filter (λ e. p e.1) d) k
        ≡ elim (get d k) [ none ↦ none | some v ↦ if p v then some v else none ]
  unfolding get
  get-filter p [] k h = refl
  get-filter p ((j, w) ∷ d) k h = ground (arith, get-filter p d k, get-absent d k, eq_iff j k)

  -- A test that all values pass still holds after a write of one that passes it.
  pub all-put :
      (p : V → Bool) (d : Dict V) (k : String) (v : V)
      → all (λ e. p e.1) d ≡ true
      → p v ≡ true
      → all (λ e. p e.1) (put d k v) ≡ true
  unfolding put
  all-put p [] k v h q = ground arith
  all-put p ((j, w) ∷ d) k v h q = ground (arith, all-put p d k v)

  pub all-remove :
      (p : V → Bool) (d : Dict V) (k : String)
      → all (λ e. p e.1) d ≡ true
      → all (λ e. p e.1) (remove d k) ≡ true
  unfolding remove
  all-remove p [] k h = refl
  all-remove p ((j, w) ∷ d) k h = ground (arith, all-remove p d k)

  pub all-filter_values :
      (p q : V → Bool) (d : Dict V)
      → all (λ e. p e.1) d ≡ true
      → all (λ e. p e.1) (filter (λ e. q e.1) d) ≡ true
  all-filter_values p q [] h = refl
  all-filter_values p q ((j, w) ∷ d) h = ground (arith, all-filter_values p q d)

  pub all-get :
      (p : V → Bool) (d : Dict V) (k : String) (v : V)
      → all (λ e. p e.1) d ≡ true
      → get d k ≡ some v
      → p v ≡ true
  unfolding get
  all-get p [] k v h q = ground arith
  all-get p ((j, w) ∷ d) k v h q = ground (arith, all-get p d k v)

-- The values replaced by f of them.
abbrev pub map_values {ℓ κ} : {V : Type ℓ} {W : Type κ} → (V → W) → Dict V → Dict W
map_values f [] = []
map_values f ((k, v) ∷ d) = (k, f v) ∷ map_values f d

module _ {ℓ} {V : Type ℓ} (f : V → V) where
  pub get-map_values : (d : Dict V) (k : String) → get (map_values f d) k ≡ Option.map f (get d k)
  unfolding get
  get-map_values [] k = refl
  get-map_values ((j, v) ∷ d) k = ground (arith, get-map_values d k)

  has_key-map_values :
      (d : Dict V) (k : String) → has_id (λ e. e.0) k (map_values f d) ≡ has_id (λ e. e.0) k d
  has_key-map_values [] k = refl
  has_key-map_values ((j, v) ∷ d) k = ground (arith, has_key-map_values d k)

  pub map_values-IsObject : (d : Dict V) → IsObject d → IsObject (map_values f d)
  map_values-IsObject [] h = refl
  map_values-IsObject ((j, v) ∷ d) h = ground (arith, map_values-IsObject d, has_key-map_values d j)
