-- ===== src/Calls/Leaks.antt =====
-- useWebRTC.ts: no connection is lost, whatever is awaited and whatever comes in meanwhile.
use together.Calls.Keeping.{
  stop_tracks-Leaves, Leaves, Leaves-after, add_tracks-Leaves, add_camera-Leaves, add_screen-Leaves,
}
use together.Calls.Signals.{unmount, keys, close_all}
use together.Base.{
  includes, ℕ, ◌+◌, ◌<◌, ◌≡◌, refl, sym, ap, ◌∙◌, String, true, false, Option, none, some, List, [],
  ◌∷◌, eqb, any, arith, ◌==◌, eq_iff, if◌then◌else◌, Option-cases, Bool-cases, inl, inr,
}
use together.Base.Dict.{Dict, get, put, remove, get-put, get-remove, get-put_self}
use together.Calls.{
  stop_tracks, Call, Stream, create_peer, close_peer, add_tracks, add_camera, add_screen,
  forget_peer, new_peer, existing_or_new, stop_speaking_detector, audio_of, video_of,
}

-- The connections of the hook are open and all different, and every other one that was made has been closed.
pub record Tight (peers : Dict ℕ) (made : ℕ) (closed : List ℕ) : Type 0 where
  pub older : (k : String) (n : ℕ) → get peers k ≡ some n → n < made
  pub unclosed : (k : String) (n : ℕ) → get peers k ≡ some n → any (eqb n) closed ≡ false
  pub different : (j k : String) (n : ℕ) → get peers j ≡ some n → get peers k ≡ some n → j ≡ k
  pub past : (n : ℕ) → any (eqb n) closed ≡ true → n < made
  pub kept : (n : ℕ) → n < made → any (eqb n) closed ≡ false → (k : String) × (get peers k ≡ some n)

abbrev pub IsTight : Call → Type 0
IsTight c = Tight c.peers c.made c.closed

made-Tight :
    (peers : Dict ℕ) (made : ℕ) (closed : List ℕ) (k : String)
    → get peers k ≡ none
    → Tight peers made closed
    → Tight (put peers k made) (made + 1) closed
made-Tight peers made closed k e t = record {
  older = λ j n h. ground (arith, rw get-put at h, t.older j n);
  unclosed = λ j n h. ground (arith, rw get-put at h, t.unclosed j n, t.past made);
  different = λ i j n h g. ground (
    arith,
    rw get-put at h,
    rw get-put at g,
    t.different i j n,
    t.older i n,
    t.older j n,
    eq_iff k i,
    eq_iff k j,
  );
  past = λ n h. omega (arith, t.past n h);
  kept = λ n h o. elim (Bool-cases (eqb n made)) [
    | inl same ↦ (k, get-put_self peers k made ∙ ap some (ground (arith, same)))
    | inr other ↦
        (let (j, found) = t.kept n (ground (arith, h, other)) o in
          (j, get-put peers k made j ∙ ground (arith, found, e, eq_iff k j)))
  ];
}

closed-Tight :
    (peers : Dict ℕ) (made : ℕ) (closed : List ℕ) (k : String) (pc : ℕ)
    → get peers k ≡ some pc
    → Tight peers made closed
    → Tight (remove peers k) made (pc ∷ closed)
closed-Tight peers made closed k pc e t = record {
  older = λ j n h. ground (arith, rw get-remove at h, t.older j n);
  unclosed =
      λ j n h. ground (arith, rw get-remove at h, t.unclosed j n, t.different j k n, e, eq_iff k j);
  different =
      λ i j n h g. ground (arith, rw get-remove at h, rw get-remove at g, t.different i j n);
  past = λ n h. ground (arith, h, t.past n, t.older k pc, e);
  kept = λ n h o.
      let (j, found) = t.kept n h (ground (arith, o)) in
      (j, get-remove peers k j ∙ ground (arith, found, e, o, eq_iff k j));
}

pub Leaves-Tight : (c d : Call) → Leaves c d → IsTight c → IsTight d
Leaves-Tight c d (p, m, k, o) t = rw (p, m, k) t

-- A map with the same entries.
same-Tight :
    (peers peers' : Dict ℕ) (made : ℕ) (closed : List ℕ)
    → ((k : String) → get peers' k ≡ get peers k)
    → Tight peers made closed
    → Tight peers' made closed
same-Tight peers peers' made closed e t = record {
  older = λ k n h. t.older k n (sym (e k) ∙ h);
  unclosed = λ k n h. t.unclosed k n (sym (e k) ∙ h);
  different = λ j k n h g. t.different j k n (sym (e j) ∙ h) (sym (e k) ∙ g);
  past = t.past;
  kept = λ n h o. let (k, found) = t.kept n h o in (k, e k ∙ found);
}

abbrev pub with_connection : String → Call → Call
with_connection peer_id c = record c { peers = put c.peers peer_id c.made; made = c.made + 1 }

pub new_peer-Leaves :
    (peer_id : String) (local_stream : Option Stream) (c : Call)
    → Leaves (with_connection peer_id c) (new_peer peer_id local_stream c)
new_peer-Leaves peer_id local_stream c =
    let pc = c.made in
    let c0 = with_connection peer_id c in
    let c1 = add_tracks pc (audio_of local_stream) c0 in
    let c2 = add_camera pc (video_of c1.local_video_stream) c1 in
    let c3 = add_screen pc (video_of c2.local_screen_stream) c2 in
    let first = add_tracks-Leaves pc (audio_of local_stream) c0 in
    let second = add_camera-Leaves pc (video_of c1.local_video_stream) c1 in
    let third = add_screen-Leaves pc (video_of c2.local_screen_stream) c2 in
    Leaves-after c0 c1 c3 first (Leaves-after c1 c2 c3 second third)

new_peer-IsTight :
    (peer_id : String) (local_stream : Option Stream) (c : Call)
    → get c.peers peer_id ≡ none
    → IsTight c
    → IsTight (new_peer peer_id local_stream c)
new_peer-IsTight peer_id local_stream c e t =
    Leaves-Tight (with_connection peer_id c) (new_peer peer_id local_stream c)
      (new_peer-Leaves peer_id local_stream c) (made-Tight c.peers c.made c.closed peer_id e t)

created-IsTight :
    (peer_id : String) (local_stream : Option Stream) (c : Call) (found : Option ℕ)
    → get c.peers peer_id ≡ found
    → IsTight c
    → IsTight (existing_or_new peer_id local_stream c found).1
created-IsTight peer_id local_stream c none e t = new_peer-IsTight peer_id local_stream c e t
created-IsTight peer_id local_stream c (some pc) e t = t

-- With the connection for the peer, an old one or a new one.
pub create_peer-IsTight :
    (peer_id : String) (local_stream : Option Stream) (c : Call)
    → IsTight c
    → IsTight (create_peer peer_id local_stream c).1
unfolding create_peer
create_peer-IsTight peer_id local_stream c t =
    created-IsTight peer_id local_stream c (get c.peers peer_id) refl t

forgotten-IsTight :
    (peer_id : String) (c : Call) (found : Option ℕ)
    → get c.peers peer_id ≡ found
    → IsTight c
    → IsTight (forget_peer peer_id found c)
unfolding stop_speaking_detector
forgotten-IsTight peer_id c (some pc) e t = closed-Tight c.peers c.made c.closed peer_id pc e t
forgotten-IsTight peer_id c none e t =
    same-Tight c.peers (remove c.peers peer_id) c.made c.closed
      (λ k. get-remove c.peers peer_id k ∙ ground (arith, e, eq_iff peer_id k)) t

pub close_peer-IsTight : (peer_id : String) (c : Call) → IsTight c → IsTight (close_peer peer_id c)
unfolding close_peer
close_peer-IsTight peer_id c t = forgotten-IsTight peer_id c (get c.peers peer_id) refl t

peers-forget_peer :
    (j : String) (found : Option ℕ) (c : Call) → (forget_peer j found c).peers ≡ remove c.peers j
unfolding stop_speaking_detector
peers-forget_peer j none c = refl
peers-forget_peer j (some pc) c = refl

pub peers-close_peer :
    (j : String) (c : Call) (k : String)
    → get (close_peer j c).peers k ≡ (if j == k then none else get c.peers k)
unfolding close_peer
peers-close_peer j c k =
    ap (λ d. get d k) (peers-forget_peer j (get c.peers j) c) ∙ get-remove c.peers j k

forgets :
    (ks : List String) (c : Call) (k : String)
    → get c.peers k ≡ none
    → get (close_all ks c).peers k ≡ none
unfolding close_all
forgets [] c k h = h
forgets (j ∷ ks) c k h = forgets ks (close_peer j c) k (peers-close_peer j c k ∙ ground (arith, h))

closes_listed :
    (ks : List String) (c : Call) (k : String)
    → includes ks k ≡ true
    → get (close_all ks c).peers k ≡ none
unfolding close_all
closes_listed [] c k h = absurd (ground (arith, h))
closes_listed (j ∷ ks) c k h = elim (Bool-cases (j == k)) [
  | inl same ↦ forgets ks (close_peer j c) k (peers-close_peer j c k ∙ ground (arith, same))
  | inr other ↦ closes_listed ks (close_peer j c) k (ground (arith, h, other))
]

keys-get : (d : Dict ℕ) (k : String) (n : ℕ) → get d k ≡ some n → includes (keys d) k ≡ true
unfolding get
keys-get [] k n h = absurd (ground (arith, h))
keys-get ((j, m) ∷ d) k n h = ground (arith, h, keys-get d k n)

none_left : (c : Call) (k : String) → get (close_all (keys c.peers) c).peers k ≡ none
none_left c k = elim (Option-cases (get c.peers k)) [
  | inl e ↦ forgets (keys c.peers) c k e
  | inr (n, e) ↦ closes_listed (keys c.peers) c k (keys-get c.peers k n e)
]

pub close_all-IsTight : (ks : List String) (c : Call) → IsTight c → IsTight (close_all ks c)
unfolding close_all
close_all-IsTight [] c t = t
close_all-IsTight (k ∷ ks) c t = close_all-IsTight ks (close_peer k c) (close_peer-IsTight k c t)

made-forget_peer :
    (j : String) (found : Option ℕ) (c : Call)
    → ((forget_peer j found c).made ≡ c.made)
      × ((forget_peer j found c).offered_peers ≡ c.offered_peers)
unfolding stop_speaking_detector
made-forget_peer j none c = (refl, refl)
made-forget_peer j (some pc) c = (refl, refl)

pub offered-close_peer : (j : String) (c : Call) → (close_peer j c).offered_peers ≡ c.offered_peers
unfolding close_peer
offered-close_peer j c = (made-forget_peer j (get c.peers j) c).1

offered-existing_or_new :
    (j : String) (s : Option Stream) (c : Call) (found : Option ℕ)
    → (existing_or_new j s c found).1.offered_peers ≡ c.offered_peers
offered-existing_or_new j s c (some pc) = refl
offered-existing_or_new j s c none = (new_peer-Leaves j s c).3

pub offered-create_peer :
    (j : String) (s : Option Stream) (c : Call)
    → (create_peer j s c).1.offered_peers ≡ c.offered_peers
unfolding create_peer
offered-create_peer j s c = offered-existing_or_new j s c (get c.peers j)

made-close_all : (ks : List String) (c : Call) → (close_all ks c).made ≡ c.made
unfolding close_all close_peer
made-close_all [] c = refl
made-close_all (k ∷ ks) c =
    made-close_all ks (close_peer k c) ∙ (made-forget_peer k (get c.peers k) c).0

-- What is left when the component goes.
closed-unmount : (c : Call) → (unmount c).closed ≡ (close_all (keys c.peers) c).closed
unfolding unmount
closed-unmount c =
    let d = close_all (keys c.peers) c in
    (stop_tracks-Leaves d.local_screen_stream (stop_tracks d.local_video_stream d)).2
    ∙ (stop_tracks-Leaves d.local_video_stream d).2

pub unmount-closes :
    (c : Call) (n : ℕ) → IsTight c → n < c.made → any (eqb n) (unmount c).closed ≡ true
unmount-closes c n t h =
    let d = close_all (keys c.peers) c in
    let tight = close_all-IsTight (keys c.peers) c t in
    elim (Bool-cases (any (eqb n) d.closed)) [
      | inl closed ↦ ap (any (eqb n)) (closed-unmount c) ∙ closed
      | inr not_closed ↦
          (let (k, held) = tight.kept n (rw (made-close_all (keys c.peers) c) h) not_closed in
            absurd (ground (arith, held, none_left c k)))
    ]
