-- ===== src/Text/Matching.antt =====
-- What a match at the end of a text consists of.
use together.Base.{
  ℕ, ◌≡◌, refl, sym, ap, ◌∙◌, Bool, true, false, some, List, [], ◌∷◌, ◌++◌, reverse, all, arith,
  Bool-cases, inl, inr,
}
use mathlib.Core.List.{reverse_aux, reverse_aux-eq, reverse_aux-append, reverse-reverse, append-nil}
use together.Text.{match_back}

module _ (word : ℕ → Bool) (mark : ℕ) (start : List ℕ → Bool) where
  -- The text is a beginning that is accepted, the mark, and a query of the class.
  pub record EndsIn (text query : List ℕ) : Type 0 where
    pub beginning : List ℕ
    pub read : text ≡ beginning ++ mark ∷ query
    pub in_class : all word query ≡ true
    pub accepted : start (reverse beginning) ≡ true

  record Matched (before passed query : List ℕ) : Type 0 where
    rest : List ℕ
    read : reverse_aux before passed ≡ reverse_aux rest (mark ∷ query)
    in_class : all word passed ≡ true → all word query ≡ true
    accepted : start rest ≡ true

  match_back-Matched :
      (before passed query : List ℕ)
      → match_back word mark start before passed ≡ some query
      → Matched before passed query
  unfolding match_back
  match_back-Matched [] passed query h = absurd (ground (arith, h))
  match_back-Matched (c ∷ before) passed query h = elim (Bool-cases (word c)) [
    | inl letter ↦
        let m = match_back-Matched before (c ∷ passed) query (rw letter at h) in
        record {
          rest = m.rest;
          read = m.read;
          in_class = λ l. m.in_class (ground (arith, letter, l));
          accepted = m.accepted;
        }
    | inr other ↦
        let found : (c ≡ mark) × (start before ≡ true) × (passed ≡ query) =
          ground (arith, other, h) in
        record {
          rest = before;
          read =
              ap (λ d. reverse_aux before (d ∷ passed)) found.0
              ∙ ap (λ q. reverse_aux before (mark ∷ q)) found.2;
          in_class = λ l. ap (all word) (sym found.2) ∙ l;
          accepted = found.1;
        }
  ]

  -- The units of a query are passed one by one.
  match_back-query :
      (query before passed : List ℕ)
      → all word query ≡ true
      → match_back word mark start (reverse_aux query before) passed
        ≡ match_back word mark start before (query ++ passed)
  unfolding match_back
  match_back-query [] before passed h = refl
  match_back-query (c ∷ query) before passed h =
      match_back-query query (c ∷ before) passed (ground (arith, h)) ∙ ground (arith, h)

  pub match_back-EndsIn :
      (text query : List ℕ)
      → match_back word mark start (reverse text) [] ≡ some query
      → EndsIn text query
  match_back-EndsIn text query h =
      let m = match_back-Matched (reverse text) [] query h in
      record {
        beginning = reverse m.rest;
        read = sym (reverse-reverse text) ∙ m.read ∙ reverse_aux-eq m.rest (mark ∷ query);
        in_class = m.in_class refl;
        accepted = rw reverse-reverse m.accepted;
      }

  pub EndsIn-match_back :
      (text query : List ℕ)
      → word mark ≡ false
      → EndsIn text query
      → match_back word mark start (reverse text) [] ≡ some query
  unfolding match_back
  EndsIn-match_back text query shut e =
      ap (λ t. match_back word mark start (reverse t) []) e.read
      ∙ ap (λ r. match_back word mark start r []) (reverse_aux-append e.beginning (mark ∷ query) [])
      ∙ match_back-query query (mark ∷ reverse e.beginning) [] e.in_class
      ∙ rw append-nil (ground (arith, shut, e.accepted))
