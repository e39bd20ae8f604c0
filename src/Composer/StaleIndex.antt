-- ===== src/Composer/StaleIndex.antt =====
-- MessageInput.tsx: a choice by an index that the results have shrunk below.
use together.Base.{
  ℕ, zero, suc, ◌≤◌, ◌<◌, ◌≡◌, refl, none, some, List, [], ◌∷◌, length, get_elem?, arith, ap, ◌∙◌,
}
use together.SlashCommands.{search_commands}
use together.Composer.{Composer, on_change, detect_all_triggers, kept_index}
use together.Composer.Keys.{
  type_error, Sources, Press, enter, navigate, choose, after_slash, slash_key, handle_key_down,
}

get_elem?-none {ℓ} : {A : Type ℓ} (xs : List A) (n : ℕ) → length xs ≤ n → get_elem? xs n ≡ none
get_elem?-none [] n h = refl
get_elem?-none (x ∷ xs) zero h = ground (arith, h)
get_elem?-none (x ∷ xs) (suc n) h = get_elem?-none xs n (ground (arith, h))

index-kept :
    (cursor : ℕ) (content query : List ℕ) (s : Composer)
    → (on_change cursor content s).slash_query ≡ some query
    → (on_change cursor content s).slash_active_idx ≡ s.slash_active_idx
unfolding on_change detect_all_triggers
index-kept cursor content query s q = ap (λ c. kept_index c s.slash_active_idx) q

navigate-choose : (count idx : ℕ) → 0 < count → navigate enter count idx ≡ choose
unfolding navigate
navigate-choose count idx h = ground (arith, h)

slash_key-throws :
    (src : Sources) (p : Press) (query : List ℕ) (s : Composer)
    → p.key ≡ enter
    → 0 < length (search_commands src.to_lower_case query)
    → length (search_commands src.to_lower_case query) ≤ s.slash_active_idx
    → slash_key src p query s ≡ type_error
unfolding slash_key
slash_key-throws src p query s e some_left few =
    let results = search_commands src.to_lower_case query in
    rw
      (
        e,
        navigate-choose (length results) s.slash_active_idx some_left,
        get_elem?-none results s.slash_active_idx few,
      )
      refl

-- A change of the text that leaves the list of commands open keeps its index. Where fewer commands are left than the
-- index, Enter looks up a command that is not there, and the handler throws.
pub stale_index_throws :
    (src : Sources) (p : Press) (cursor : ℕ) (content query : List ℕ) (s : Composer)
    → p.key ≡ enter
    → (on_change cursor content s).slash_query ≡ some query
    → 0 < length (search_commands src.to_lower_case query)
    → length (search_commands src.to_lower_case query) ≤ s.slash_active_idx
    → handle_key_down src p (on_change cursor content s) ≡ type_error
unfolding handle_key_down
stale_index_throws src p cursor content query s e q some_left few =
    let t = on_change cursor content s in
    ap (λ o. elim o [ none ↦ after_slash src p t | some letters ↦ slash_key src p letters t ]) q
    ∙ slash_key-throws src p query t e some_left (rw (index-kept cursor content query s q) few)
