-- ===== src/GoLive/Offers.antt =====
-- useGoLive.ts: the offers of a broadcast, which both `startBroadcast` and the effect on participants send.
use together.Base.{
  ℕ, ◌≡◌, refl, ap, ◌∙◌, String, Bool, true, false, not, ◌||◌, Option, none, some, List, [], ◌∷◌,
  ◌++◌, all, any-append, arith, ◌==◌, eq_iff, eq_refl, if◌then◌else◌, includes, returned,
  Bool-cases, inl, inr, is_some,
}
use together.Base.Dict.{get}
use together.Calls.{Stream, add_id}
use together.GoLive.{
  Live, GoLiveSession, existing_or_new, create_go_live_peer, send_go_live_offer, is_broadcasting,
}
use together.GoLive.Broadcast.{send_offers, on_participants, on_registered}

-- Whether the peer has been offered the broadcast.
abbrev IsOffered : String → Live → Type 0
IsOffered k l = includes l.offered_go_live_peers k ≡ true

offered-existing_or_new :
    (k : String) (l : Live) (found : Option ℕ)
    → (existing_or_new k found l).offered_go_live_peers ≡ l.offered_go_live_peers
offered-existing_or_new k l none = refl
offered-existing_or_new k l (some pc) = refl

choice :
    (k : String) (b : Bool) (x y : Live)
    → (b ≡ true → IsOffered k x)
    → IsOffered k y
    → IsOffered k (if b then x else y)
choice k true x y p q = p refl
choice k false x y p q = q

marked : String → Live → Live
marked k l = record l { offered_go_live_peers = add_id k l.offered_go_live_peers }

offered-send_go_live_offer :
    (j k : String) (l : Live)
    → (includes l.offered_go_live_peers k || j == k) ≡ true
    → IsOffered k (send_go_live_offer j l)
unfolding send_go_live_offer create_go_live_peer marked
offered-send_go_live_offer j k l h =
    choice k (includes l.offered_go_live_peers j) l
      (existing_or_new j (get l.go_live_peers j) (marked j l))
      (λ e. ground (arith, h, e, eq_iff j k))
      (ap (λ ks. includes ks k) (offered-existing_or_new j (marked j l) (get l.go_live_peers j))
        ∙ ground (arith, h, any-append (λ x. x == k) l.offered_go_live_peers (j ∷ []), eq_iff j k))

-- An offer is not forgotten while more are sent.
offered-send_offers :
    (me : String) (ps : List String) (k : String) (l : Live)
    → IsOffered k l
    → IsOffered k (send_offers me ps l)
unfolding send_offers
offered-send_offers me [] k l h = h
offered-send_offers me (p ∷ ps) k l h =
    offered-send_offers me ps k (if p == me then l else send_go_live_offer p l) (
      choice k (p == me) l (send_go_live_offer p l) (λ e. h)
        (offered-send_go_live_offer p k l (ground (arith, h))))

-- Everyone but the user has been offered the broadcast.
all_offered : (my_user_id : String) → List String → Live → Bool
all_offered me ps l = all (λ p. p == me || includes l.offered_go_live_peers p) ps

offered_or_me :
    (me p : String) (l : Live)
    → (p == me || includes (if p == me then l else send_go_live_offer p l).offered_go_live_peers p)
      ≡ true
offered_or_me me p l = elim (Bool-cases (p == me)) [
  | inl e ↦ rw e refl
  | inr e ↦ rw e (offered-send_go_live_offer p p l (ground (arith, eq_refl p)))
]

all_offered-send_offers :
    (me : String) (ps : List String) (l : Live) → all_offered me ps (send_offers me ps l) ≡ true
unfolding send_offers all_offered
all_offered-send_offers me [] l = refl
all_offered-send_offers me (p ∷ ps) l =
    let l' = if p == me then l else send_go_live_offer p l in
    ground (
      arith,
      offered_or_me me p l,
      offered-send_offers me ps p l',
      all_offered-send_offers me ps l',
    )

send_go_live_offer-again : (k : String) (l : Live) → IsOffered k l → send_go_live_offer k l ≡ l
unfolding send_go_live_offer
send_go_live_offer-again k l h = rw h refl

-- Whoever has been offered the broadcast is not offered it again.
send_offers-again :
    (me : String) (ps : List String) (l : Live)
    → all_offered me ps l ≡ true
    → send_offers me ps l ≡ l
unfolding send_offers all_offered
send_offers-again me [] l h = refl
send_offers-again me (p ∷ ps) l h = elim (Bool-cases (p == me)) [
  | inl e ↦ rw e (send_offers-again me ps l (ground (arith, h)))
  | inr e ↦
      rw (e, send_go_live_offer-again p l (ground (arith, h, e)))
        (send_offers-again me ps l (ground (arith, h)))
]

send_offers-append :
    (me : String) (ps qs : List String) (l : Live)
    → send_offers me (ps ++ qs) l ≡ send_offers me qs (send_offers me ps l)
unfolding send_offers
send_offers-append me [] qs l = refl
send_offers-append me (p ∷ ps) qs l =
    send_offers-append me ps qs (if p == me then l else send_go_live_offer p l)

-- When the server has accepted a broadcast, the effect on participants offers it only to those who have joined since:
-- who was there has the offer of `startBroadcast`, and gets no second one.
pub newcomers_only :
    (me : String) (ps newcomers : List String) (text : Option String) (s : Stream)
    (session : GoLiveSession) (l : Live)
    → let live = on_registered me ps text s (returned session) l in
      on_participants me (ps ++ newcomers) live ≡ on_participants me newcomers live
unfolding on_registered on_participants
newcomers_only me ps newcomers text s session l =
    let live = send_offers me ps (record l { active_session = some session }) in
    ap (λ d. if not (is_some live.display_stream) || not (is_broadcasting me live) then live else d)
      (send_offers-append me ps newcomers live
        ∙ ap (send_offers me newcomers) (
            send_offers-again me ps live
              (all_offered-send_offers me ps (record l { active_session = some session }))))
