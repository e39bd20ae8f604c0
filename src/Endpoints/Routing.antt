-- ===== src/Endpoints/Routing.antt =====
-- How the router behind server/src/main.rs takes a request: by the path first, and then by the method. Where two patterns take
-- a path, the router's documentation lets a word go before a parameter, and main.rs notes that the route which is registered
-- first goes before; both rules are here.
use together.Base.{
  ◌≡◌, refl, ap, ◌∙◌, String, Bool, true, false, not, ◌&&◌, ◌||◌, Option, none, some, List, [], ◌∷◌,
  ◌==◌, if◌then◌else◌, all, arith,
}
use together.Endpoints.{Method, get, post, patch, put, delete, Part, fixed, value, Request}
use together.Endpoints.Routes.{Segment, word, param, Route}

abbrev pub same_method : Method → Method → Bool
same_method get get = true
same_method post post = true
same_method patch patch = true
same_method put put = true
same_method delete delete = true
same_method _ _ = false

abbrev pub same_pattern : List Segment → List Segment → Bool
same_pattern [] [] = true
same_pattern (word v ∷ p) (word w ∷ q) = let rest = same_pattern p q in v == w && rest
same_pattern (param _ ∷ p) (param _ ∷ q) = same_pattern p q
same_pattern _ _ = false

-- Of two patterns for the same path, whether the first goes before: it has a word where they differ first.
abbrev pub precedes : List Segment → List Segment → Bool
precedes (word _ ∷ p) (param _ ∷ q) = true
precedes (word _ ∷ p) (word _ ∷ q) = precedes p q
precedes (param _ ∷ p) (param _ ∷ q) = precedes p q
precedes _ _ = false

abbrev pub bind : String → Option (List String) → Option (List String)
bind v none = none
bind v (some vs) = some (v ∷ vs)

-- What the parameters of a pattern take of a path, in their order.
abbrev pub takes : List String → List Segment → Option (List String)
takes [] [] = some []
takes (s ∷ path) (word w ∷ p) = let rest = takes path p in if w == s then rest else none
takes (s ∷ path) (param _ ∷ p) = bind s (takes path p)
takes _ _ = none

-- What becomes of a request: the handler with its parameters, or the statuses 404 and 405.
pub data Served : Type 0 where
  handled : String → List String → Served
  not_found method_not_allowed : Served

abbrev pub Chosen : Type 0
Chosen = Option (List Segment × List String)

abbrev pub better : Chosen → Chosen → Chosen
better none b = b
better (some a) none = some a
better (some (p, xs)) (some (q, ys)) = if precedes q p then some (q, ys) else some (p, xs)

abbrev pub with_pattern : List Segment → Option (List String) → Chosen
with_pattern p none = none
with_pattern p (some xs) = some (p, xs)

-- The rule of main.rs.
abbrev pub first_of : Chosen → Chosen → Chosen
first_of none b = b
first_of (some a) b = some a

-- The pattern that goes before all others that take the path, by a rule for two.
abbrev pub choose :
    (Chosen → Chosen → Chosen) → (List Segment → Option (List String)) → List Route → Chosen
choose rule taken [] = none
choose rule taken (r ∷ rs) = rule (with_pattern r.pattern (taken r.pattern)) (choose rule taken rs)

abbrev pub handler_for : Method → List Segment → List String → List Route → Served
handler_for method p xs [] = method_not_allowed
handler_for method p xs (r ∷ rs) =
    let rest = handler_for method p xs rs in
    if same_method r.method method && same_pattern r.pattern p then handled r.handler xs else rest

abbrev pub serve : Method → List Route → Chosen → Served
serve method routes none = not_found
serve method routes (some (p, xs)) = handler_for method p xs routes

abbrev pub texts : List Part → List String
texts [] = []
texts (fixed s ∷ path) = s ∷ texts path
texts (value v ∷ path) = v ∷ texts path

pub routed {ℓ} : {D : Type ℓ} → (Chosen → Chosen → Chosen) → List Route → Request D → Served
routed rule routes request =
    serve request.method routes (choose rule (takes (texts request.path)) routes)

-- Whether a text is a word of the pattern.
abbrev pub is_word : String → List Segment → Bool
is_word v [] = false
is_word v (word w ∷ p) = w == v || is_word v p
is_word v (param _ ∷ p) = is_word v p

-- Whether nothing that is put in the path is a word of the pattern.
abbrev pub apart : List Part → List Segment → Bool
apart [] p = true
apart (fixed _ ∷ path) p = apart path p
apart (value v ∷ path) p = not (is_word v p) && apart path p

unfoldable pub is_apart : List Route → List Part → Bool
is_apart routes path = all (λ r. apart path r.pattern) routes

-- The same with the parts that are put in taken by parameters only.
abbrev pub fits : List Part → List Segment → Option (List String)
fits [] [] = some []
fits (fixed s ∷ path) (word w ∷ p) = let rest = fits path p in if w == s then rest else none
fits (value _ ∷ path) (word _ ∷ p) = none
fits (fixed s ∷ path) (param _ ∷ p) = bind s (fits path p)
fits (value v ∷ path) (param _ ∷ p) = bind v (fits path p)
fits _ _ = none

apart_tail :
    (path : List Part) (s : Segment) (p : List Segment)
    → apart path (s ∷ p) ≡ true
    → apart path p ≡ true
apart_tail [] s p h = refl
apart_tail (fixed _ ∷ path) s p h = apart_tail path s p h
apart_tail (value v ∷ path) (word w) p h = ground (arith, h, apart_tail path (word w) p)
apart_tail (value v ∷ path) (param w) p h = ground (arith, h, apart_tail path (param w) p)

takes-fits :
    (path : List Part) (p : List Segment) → apart path p ≡ true → takes (texts path) p ≡ fits path p
takes-fits [] [] h = refl
takes-fits [] (_ ∷ p) h = refl
takes-fits (fixed s ∷ path) [] h = refl
takes-fits (value v ∷ path) [] h = refl
takes-fits (fixed s ∷ path) (word w ∷ p) h =
    ap (λ rest. if w == s then rest else none) (takes-fits path p (apart_tail path (word w) p h))
takes-fits (value v ∷ path) (word w ∷ p) h = ground (arith, h)
takes-fits (fixed s ∷ path) (param w ∷ p) h =
    ap (bind s) (takes-fits path p (apart_tail path (param w) p h))
takes-fits (value v ∷ path) (param w ∷ p) h =
    ap (bind v) (takes-fits path p (apart_tail path (param w) p (ground (arith, h))))

module _ (rule : Chosen → Chosen → Chosen) where
  choose-fits :
      (path : List Part) (routes : List Route)
      → is_apart routes path ≡ true
      → choose rule (takes (texts path)) routes ≡ choose rule (fits path) routes
  unfolding is_apart
  choose-fits path [] h = refl
  choose-fits path (r ∷ rs) h =
      ap (λ t. rule (with_pattern r.pattern t) (choose rule (takes (texts path)) rs))
        (takes-fits path r.pattern (ground (arith, h)))
      ∙ ap (rule (with_pattern r.pattern (fits path r.pattern)))
          (choose-fits path rs (ground (arith, h)))

  -- Of a request whose identifiers are no words of the routes.
  pub routed-fits {ℓ} :
      {D : Type ℓ} (routes : List Route) (request : Request D)
      → is_apart routes request.path ≡ true
      → routed rule routes request
        ≡ serve request.method routes (choose rule (fits request.path) routes)
  unfolding routed
  routed-fits routes request h =
      ap (serve request.method routes) (choose-fits request.path routes h)
