-- ===== src/GoLive/Accounts.antt =====
-- useGoLive.ts: what becomes of the connections, whatever happens in whatever order.
use together.Base.{
  ℕ, ◌<◌, ◌≡◌, refl, ap, ◌∙◌, String, Bool, true, false, ◌||◌, Option, none, some, List, [], ◌∷◌,
  eqb, any, any-append, arith, ◌==◌, eq_iff, if◌then◌else◌, includes, Outcome, returned, thrown,
  Bool-cases, inl, inr,
}
use together.Base.Dict.{Dict, get, put, remove, get-put, get-remove, get-put_self}
use together.Calls.{Stream, SignalType, offer, answer, candidate, add_id}
use together.Calls.Signals.{SignalingState}
use together.GoLive.{
  Live, GoLiveSession, no_live, close_found, close_go_live_peer, existing_or_new,
  create_go_live_peer, send_go_live_offer,
}
use together.GoLive.Broadcast.{
  on_offer, by_type, send_offers, on_capture, on_registered, connections, tear_down,
}

pub connections-holds :
    (d : Dict ℕ) (k : String) (n : ℕ) → get d k ≡ some n → any (eqb n) (connections d) ≡ true
unfolding get
connections-holds [] k n h = absurd (ground (arith, h))
connections-holds ((j, m) ∷ d) k n h = ground (arith, h, connections-holds d k n)

connections-remove :
    (d : Dict ℕ) (k : String) (n : ℕ)
    → any (eqb n) (connections (remove d k)) ≡ true
    → any (eqb n) (connections d) ≡ true
unfolding remove
connections-remove [] k n h = h
connections-remove ((j, m) ∷ d) k n h = elim (Bool-cases (j == k)) [
  | inl same ↦ ground (arith, connections-remove d k n (ground (arith, h, same)))
  | inr other ↦ ground (arith, h, other, connections-remove d k n)
]

connections-put :
    (d : Dict ℕ) (k : String) (m n : ℕ)
    → any (eqb n) (connections (put d k m)) ≡ true
    → (eqb n m || any (eqb n) (connections d)) ≡ true
unfolding put
connections-put [] k m n h = h
connections-put ((j, o) ∷ d) k m n h = elim (Bool-cases (j == k)) [
  | inl same ↦ ground (arith, h, same)
  | inr other ↦ ground (arith, h, other, connections-put d k m n)
]

-- Every connection that was made answers an offer, or is the broadcaster's for some peer, or has been closed. No
-- connection that answers an offer is among the latter two.
pub record Accounted (peers : Dict ℕ) (made : ℕ) (answers closed : List ℕ) : Type 0 where
  pub held :
      (n : ℕ) → any (eqb n) (connections peers) ≡ true → (n < made) × (any (eqb n) answers ≡ false)
  pub past : (n : ℕ) → any (eqb n) closed ≡ true → (n < made) × (any (eqb n) answers ≡ false)
  pub answered : (n : ℕ) → any (eqb n) answers ≡ true → n < made
  pub kept :
      (n : ℕ)
      → n < made
      → any (eqb n) answers ≡ false
      → any (eqb n) closed ≡ false
      → (k : String) × (get peers k ≡ some n)

abbrev pub IsAccounted : Live → Type 0
IsAccounted l = Accounted l.go_live_peers l.made l.answering l.closed

pub no_live-IsAccounted : IsAccounted no_live
no_live-IsAccounted = record {
  held = λ n h. absurd (ground (arith, h));
  past = λ n h. absurd (ground (arith, h));
  answered = λ n h. absurd (ground (arith, h));
  kept = λ n h a o. absurd (omega (arith, h));
}

found-IsAccounted :
    (k : String) (l : Live) (found : Option ℕ)
    → get l.go_live_peers k ≡ found
    → IsAccounted l
    → IsAccounted (close_found k found l)
found-IsAccounted k l none e a = a
found-IsAccounted k l (some pc) e a = record {
  held = λ n h. a.held n (connections-remove l.go_live_peers k n h);
  past = λ n h. elim (Bool-cases (eqb n pc)) [
    | inl same ↦ a.held n (connections-holds l.go_live_peers k n (e ∙ ground (arith, same)))
    | inr other ↦ a.past n (ground (arith, h, other))
  ];
  answered = a.answered;
  kept = λ n h s o.
      let (j, there) = a.kept n h s (ground (arith, o)) in
      (j, get-remove l.go_live_peers k j ∙ ground (arith, there, e, o, eq_iff k j));
}

pub close_go_live_peer-IsAccounted :
    (k : String) (l : Live) → IsAccounted l → IsAccounted (close_go_live_peer k l)
unfolding close_go_live_peer
close_go_live_peer-IsAccounted k l a = found-IsAccounted k l (get l.go_live_peers k) refl a

created-IsAccounted :
    (k : String) (l : Live) (found : Option ℕ)
    → get l.go_live_peers k ≡ found
    → IsAccounted l
    → IsAccounted (existing_or_new k found l)
created-IsAccounted k l (some pc) e a = a
created-IsAccounted k l none e a = record {
  held = λ n h.
      ground (arith, connections-put l.go_live_peers k l.made n h, a.held n, a.answered l.made);
  past = λ n h. ground (arith, a.past n h);
  answered = λ n h. omega (arith, a.answered n h);
  kept = λ n h s o. elim (Bool-cases (eqb n l.made)) [
    | inl same ↦ (k, get-put_self l.go_live_peers k l.made ∙ ap some (ground (arith, same)))
    | inr other ↦
        (let (j, there) = a.kept n (ground (arith, h, other)) s o in
          (j, get-put l.go_live_peers k l.made j ∙ ground (arith, there, e, eq_iff k j)))
  ];
}

pub either :
    (b : Bool) (x y : Live) → IsAccounted x → IsAccounted y → IsAccounted (if b then x else y)
either true x y p q = p
either false x y p q = q

send_go_live_offer-IsAccounted :
    (k : String) (l : Live) → IsAccounted l → IsAccounted (send_go_live_offer k l)
unfolding send_go_live_offer create_go_live_peer
send_go_live_offer-IsAccounted k l a =
    let marked = record l { offered_go_live_peers = add_id k l.offered_go_live_peers } in
    either (includes l.offered_go_live_peers k) l
      (existing_or_new k (get marked.go_live_peers k) marked) a
      (created-IsAccounted k marked (get marked.go_live_peers k) refl a)

pub send_offers-IsAccounted :
    (me : String) (ps : List String) (l : Live) → IsAccounted l → IsAccounted (send_offers me ps l)
unfolding send_offers
send_offers-IsAccounted me [] l a = a
send_offers-IsAccounted me (p ∷ ps) l a =
    send_offers-IsAccounted me ps (if p == me then l else send_go_live_offer p l)
      (either (p == me) l (send_go_live_offer p l) a (send_go_live_offer-IsAccounted p l a))

pub on_registered-IsAccounted :
    (me : String) (ps : List String) (text : Option String) (s : Stream)
    (reply : Outcome GoLiveSession) (l : Live)
    → IsAccounted l
    → IsAccounted (on_registered me ps text s reply l)
unfolding on_registered
on_registered-IsAccounted me ps text s (returned session) l a =
    send_offers-IsAccounted me ps (record l { active_session = some session }) a
on_registered-IsAccounted me ps text s (thrown err) l a = a

on_offer-IsAccounted : (l : Live) → IsAccounted l → IsAccounted (on_offer l)
unfolding on_offer
on_offer-IsAccounted l a = record {
  held = λ n h. ground (arith, a.held n h);
  past = λ n h. ground (arith, a.past n h);
  answered = λ n h. elim (Bool-cases (eqb n l.made)) [
    | inl same ↦ ground (arith, same)
    | inr other ↦ omega (arith, a.answered n (ground (arith, h, other)))
  ];
  kept = λ n h s o. a.kept n (ground (arith, h, s)) (ground (arith, s)) o;
}

pub by_type-IsAccounted :
    (t : SignalType) (state : SignalingState) (k : String) (l : Live)
    → IsAccounted l
    → IsAccounted (by_type t state k l).0
unfolding on_offer
by_type-IsAccounted offer state k l a = on_offer-IsAccounted l a
by_type-IsAccounted answer state k l a = a
by_type-IsAccounted candidate state k l a = a

pub tear_down-IsAccounted : (l : Live) → IsAccounted l → IsAccounted (tear_down l)
tear_down-IsAccounted l a = record {
  held = λ n h. absurd (ground (arith, h));
  past = λ n h.
      ground
        (arith, h, any-append (eqb n) (connections l.go_live_peers) l.closed, a.held n, a.past n);
  answered = a.answered;
  kept = λ n h s o.
      let (k, there) =
        a.kept n h s
          (ground (arith, o, any-append (eqb n) (connections l.go_live_peers) l.closed)) in
      absurd (
        ground (
          arith,
          o,
          any-append (eqb n) (connections l.go_live_peers) l.closed,
          connections-holds l.go_live_peers k n there,
        ));
}

pub on_capture-IsAccounted :
    (s : Outcome Stream) (l : Live) → IsAccounted l → IsAccounted (on_capture s l)
on_capture-IsAccounted (thrown err) l a = a
on_capture-IsAccounted (returned s) l a = a
