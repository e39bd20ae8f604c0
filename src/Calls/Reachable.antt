-- ===== src/Calls/Reachable.antt =====
-- useWebRTC.ts: what holds in every state that the steps lead to.
use together.Base.{
  none, eq_refl, any-append, ℕ, ◌<◌, ◌≡◌, refl, ◌∙◌, ap, String, Bool, true, false, ◌||◌, List, [],
  ◌∷◌, Outcome, arith, includes, any, eqb, ◌==◌, if◌then◌else◌,
}
use together.Base.Dict.{get, get-empty}
use together.Calls.{close_peer, Call, fresh, create_peer, add_id}
use together.Calls.Signals.{send_offer, offer_to, unmount}
use together.Calls.Steps.{Reach}
use together.Calls.Leaks.{
  peers-close_peer, unmount-closes, offered-create_peer, offered-close_peer, IsTight, Leaves-Tight,
  create_peer-IsTight, close_peer-IsTight,
}
use together.Calls.Stability.{Stable, send_offer-P, Reach-P}

IsTight-Stable : Stable IsTight
IsTight-Stable = record {
  leaves = Leaves-Tight;
  creates = create_peer-IsTight;
  closes = close_peer-IsTight;
  marks = λ k c t. t;
}

fresh-IsTight : IsTight fresh
fresh-IsTight = record {
  older = λ k n h. absurd (ground (arith, get-empty {V = ℕ} k, h));
  unclosed = λ k n h. refl;
  different = λ j k n h g. absurd (ground (arith, get-empty {V = ℕ} j, h));
  past = λ n h. absurd (ground (arith, h));
  kept = λ n h o. absurd (omega (arith, h));
}

-- In every state that the hook can get into, whatever it awaits: its connections are open and all different, each for
-- one peer; every other connection that was ever made has been closed; and when the component goes, all are.
pub no_connection_leaks :
    (me : String) {c : Call} (n : ℕ)
    → Reach me fresh c
    → n < c.made
    → IsTight c × (any (eqb n) (unmount c).closed ≡ true)
no_connection_leaks me {c} n r h =
    let t = Reach-P IsTight IsTight-Stable me r fresh-IsTight in (t, unmount-closes c n t h)

-- Whether a peer has been sent an offer by the effect.
abbrev IsOffered : String → Call → Type 0
IsOffered k c = includes c.offered_peers k ≡ true

add_id-keeps :
    (j k : String) (ks : List String) → includes ks k ≡ true → includes (add_id j ks) k ≡ true
add_id-keeps j k ks h = ground (arith, h, any-append (λ x. x == k) ks (j ∷ []))

add_id-adds : (k : String) (ks : List String) → includes (add_id k ks) k ≡ true
add_id-adds k ks = ground (arith, any-append (λ x. x == k) ks (k ∷ []), eq_refl k)

IsOffered-Stable : (k : String) → Stable (IsOffered k)
IsOffered-Stable k = record {
  leaves = λ c d same p. ap (λ ks. includes ks k) same.3 ∙ p;
  creates = λ j s c p. ap (λ ks. includes ks k) (offered-create_peer j s c) ∙ p;
  closes = λ j c p. ap (λ ks. includes ks k) (offered-close_peer j c) ∙ p;
  marks = λ j c p. add_id-keeps j k c.offered_peers p;
}

choice :
    (P : Call → Type 0) (b : Bool) (x y : Call) → (b ≡ true → P x) → P y → P (if b then x else y)
choice P true x y p q = p refl
choice P false x y p q = q

offer_to-IsOffered :
    (me k : String) (meanwhile : Call → Call) (sdp : Outcome String) (c : Call)
    → ((x : Call) → Reach me x (meanwhile x))
    → (k == me) ≡ false
    → IsOffered k (offer_to meanwhile sdp me k c)
unfolding offer_to
offer_to-IsOffered me k meanwhile sdp c later h =
    let marked = record c { offered_peers = add_id k c.offered_peers } in
    let ready = (create_peer k c.local_stream marked).1 in
    let message : String = "Failed to establish voice connection with a peer" in
    let st = IsOffered-Stable k in
    let mark : IsOffered k marked = add_id-adds k c.offered_peers in
    choice (IsOffered k) (k == me || includes c.offered_peers k) c
      (send_offer meanwhile sdp message k ready) (λ g. ground (arith, g, h))
      (send_offer-P (IsOffered k) st meanwhile (λ x q. Reach-P (IsOffered k) st me (later x) q) sdp
        message k ready (st.creates k c.local_stream marked mark))

first : (a b : Bool) (x y : Call) → b ≡ true → (if a || b then x else y) ≡ x
first true b x y h = refl
first false true x y h = refl
first false false x y h = absurd (ground (arith, h))

already_offered :
    (me k : String) (meanwhile : Call → Call) (sdp : Outcome String) (c : Call)
    → IsOffered k c
    → offer_to meanwhile sdp me k c ≡ c
unfolding offer_to
already_offered me k meanwhile sdp c h = first (k == me) (includes c.offered_peers k) c _ h

-- Once the effect has run for a peer, it never does anything for that peer again, whatever has happened since: it neither
-- sends an offer nor makes a connection. So a peer whose connection is closed is left without one by the effect, also
-- when the user joins the channel anew. This is about the effect alone: a connection that is there may be negotiated again.
pub offered_only_once :
    (me k : String) (meanwhile again : Call → Call) (sdp later_sdp : Outcome String) (c : Call)
    {d : Call}
    → ((x : Call) → Reach me x (meanwhile x))
    → (k == me) ≡ false
    → Reach me (offer_to meanwhile sdp me k c) d
    → (offer_to again later_sdp me k d ≡ d)
      × (get (offer_to again later_sdp me k (close_peer k d)).peers k ≡ none)
offered_only_once me k meanwhile again sdp later_sdp c {d} later h r =
    let st = IsOffered-Stable k in
    let offered : IsOffered k d =
      Reach-P (IsOffered k) st me r (offer_to-IsOffered me k meanwhile sdp c later h) in
    (
      already_offered me k again later_sdp d offered,
      ap (λ e. get e.peers k)
            (already_offered me k again later_sdp (close_peer k d) (st.closes k d offered))
          ∙ (peers-close_peer k d k ∙ ground (arith, eq_refl k)),
    )
