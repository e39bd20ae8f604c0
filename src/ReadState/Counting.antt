-- ===== src/ReadState/Counting.antt =====
-- readStateStore.ts: the count of a channel is the number of its messages since it was last read.
use together.Base.{
  ℕ, ◌+◌, String, ◌≡◌, refl, List, [], ◌∷◌, arith, if◌then◌else◌, ◌==◌, eq_iff, get_or,
}
use together.Base.Dict.{get, get-put}
use together.ReadState.{ReadState, mark_read, increment_unread, increment_mention, clear_mentions}

-- What happens to a channel's counts.
pub data ReadEvent : Type 0 where
  message : String → ReadEvent
  mention : String → ReadEvent
  read : String → ReadEvent
  mentions_seen : String → ReadEvent

pub apply : ReadEvent → ReadState → ReadState
unfolding mark_read increment_unread increment_mention clear_mentions
apply (message c) s = increment_unread c s
apply (mention c) s = increment_mention c s
apply (read c) s = mark_read c s
apply (mentions_seen c) s = clear_mentions c s

pub run : List ReadEvent → ReadState → ReadState
run [] s = s
run (e ∷ es) s = run es (apply e s)

abbrev pub unread : String → ReadState → ℕ
unread c s = get_or (get s.unread_counts c) 0

abbrev pub mentions : String → ReadState → ℕ
mentions c s = get_or (get s.mention_counts c) 0

-- From a count, the messages of channel c after its last `read` in the history.
abbrev pub since_read : String → ℕ → List ReadEvent → ℕ
since_read c n [] = n
since_read c n (message d ∷ es) = since_read c (if d == c then n + 1 else n) es
since_read c n (read d ∷ es) = since_read c (if d == c then 0 else n) es
since_read c n (e ∷ es) = since_read c n es

abbrev pub since_seen : String → ℕ → List ReadEvent → ℕ
since_seen c n [] = n
since_seen c n (mention d ∷ es) = since_seen c (if d == c then n + 1 else n) es
since_seen c n (mentions_seen d ∷ es) = since_seen c (if d == c then 0 else n) es
since_seen c n (e ∷ es) = since_seen c n es

-- After any history each channel's unread count is the number of its messages since its last read, and
-- its mention count that of its mentions since they were cleared; no channel's events touch another's.
pub run-since_read :
    (c : String) (es : List ReadEvent) (s : ReadState)
    → (unread c (run es s) ≡ since_read c (unread c s) es)
      × (mentions c (run es s) ≡ since_seen c (mentions c s) es)
unfolding run apply
run-since_read c [] s = (refl, refl)
run-since_read c (message d ∷ es) s =
    let n = get_or (get s.unread_counts d) 0 + 1 in
    ground
      (arith, run-since_read c es (increment_unread d s), get-put s.unread_counts d n c, eq_iff d c)
run-since_read c (mention d ∷ es) s =
    let n = get_or (get s.mention_counts d) 0 + 1 in
    ground (
      arith,
      run-since_read c es (increment_mention d s),
      get-put s.mention_counts d n c,
      eq_iff d c,
    )
run-since_read c (read d ∷ es) s =
    ground (arith, run-since_read c es (mark_read d s), get-put s.unread_counts d 0 c, eq_iff d c)
run-since_read c (mentions_seen d ∷ es) s =
    ground
      (arith, run-since_read c es (clear_mentions d s), get-put s.mention_counts d 0 c, eq_iff d c)
