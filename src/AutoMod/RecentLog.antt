-- ===== src/AutoMod/RecentLog.antt =====
-- autoModStore.ts: the log keeps the latest hundred entries.
use together.Base.{
  ℕ, zero, suc, ◌≤◌, String, ◌≡◌, refl, sym, ap, ◌∙◌, List, [], ◌∷◌, arith, length, take,
}
use together.AutoMod.{AutoModState, AutoModLog, AutoModActionEvent, log_entry, append_realtime_log}

-- An event with the identifier and the time that its entry gets.
pub record Arrival : Type 0 where
  pub id : String
  pub created_at : String
  pub event : AutoModActionEvent

pub append_all : List Arrival → AutoModState → AutoModState
append_all [] s = s
append_all (a ∷ arrivals) s = append_all arrivals (append_realtime_log a.id a.created_at a.event s)

abbrev pub entry : Arrival → AutoModLog
entry a = log_entry a.id a.created_at a.event

abbrev pub newest_first : List Arrival → List AutoModLog → List AutoModLog
newest_first [] logs = logs
newest_first (a ∷ arrivals) logs = newest_first arrivals (entry a ∷ logs)

take-take : (n m : ℕ) (xs : List AutoModLog) → n ≤ m → take n (take m xs) ≡ take n xs
take-take zero m xs h = refl
take-take (suc n) zero xs h = absurd (omega arith)
take-take (suc n) (suc m) [] h = refl
take-take (suc n) (suc m) (x ∷ xs) h = ap (λ t. x ∷ t) (take-take n m xs (omega arith))

take-cons :
    (n : ℕ) (x : AutoModLog) (xs ys : List AutoModLog)
    → take n xs ≡ take n ys
    → take n (x ∷ xs) ≡ take n (x ∷ ys)
take-cons zero x xs ys h = refl
take-cons (suc n) x xs ys h =
    ap (λ t. x ∷ t)
      (sym (take-take n (suc n) xs (omega arith))
        ∙ ap (take n) h
        ∙ take-take n (suc n) ys (omega arith))

-- What a longer history shows in its first n entries depends only on the first n of what was there.
take-newest_first :
    (n : ℕ) (arrivals : List Arrival) (xs ys : List AutoModLog)
    → take n xs ≡ take n ys
    → take n (newest_first arrivals xs) ≡ take n (newest_first arrivals ys)
take-newest_first n [] xs ys h = h
take-newest_first n (a ∷ arrivals) xs ys h =
    take-newest_first n arrivals (entry a ∷ xs) (entry a ∷ ys) (take-cons n (entry a) xs ys h)

append_all-take :
    (arrivals : List Arrival) (s : AutoModState)
    → take 100 (append_all arrivals s).logs ≡ take 100 (newest_first arrivals s.logs)
unfolding append_all append_realtime_log
append_all-take [] s = refl
append_all-take (a ∷ arrivals) s =
    append_all-take arrivals (append_realtime_log a.id a.created_at a.event s)
    ∙ take-newest_first 100 arrivals (take 100 (entry a ∷ s.logs)) (entry a ∷ s.logs)
        (take-take 100 100 (entry a ∷ s.logs) (omega arith))

kept_short :
    (arrivals : List Arrival) (s : AutoModState)
    → take 100 s.logs ≡ s.logs
    → take 100 (append_all arrivals s).logs ≡ (append_all arrivals s).logs
unfolding append_all append_realtime_log
kept_short [] s h = h
kept_short (a ∷ arrivals) s h =
    kept_short arrivals (append_realtime_log a.id a.created_at a.event s)
      (take-take 100 100 (entry a ∷ s.logs) (omega arith))

length-take : (n : ℕ) (xs : List AutoModLog) → length (take n xs) ≤ n
length-take zero xs = omega arith
length-take (suc n) [] = omega arith
length-take (suc n) (x ∷ xs) = omega (arith, length-take n xs)

-- After any events, on a log that had at most a hundred entries, the log is the latest hundred of all
-- entries, the newest first, so that it never grows past a hundred.
append_all-logs :
    (arrivals : List Arrival) (s : AutoModState)
    → take 100 s.logs ≡ s.logs
    → ((append_all arrivals s).logs ≡ take 100 (newest_first arrivals s.logs))
      × (length (append_all arrivals s).logs ≤ 100)
append_all-logs arrivals s h =
    let e = sym (kept_short arrivals s h) ∙ append_all-take arrivals s in
    (e, rw e (length-take 100 (newest_first arrivals s.logs)))
