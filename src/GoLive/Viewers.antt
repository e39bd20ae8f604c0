-- ===== src/GoLive/Viewers.antt =====
-- useGoLive.ts: which connections are handed the signals that come in.
use together.Base.{ℕ, Bool, false, Option, none, some, eqb, any}
use together.GoLive.{Live}

-- Whether the connection that is handed a signal, if one is, is one that answers an offer.
abbrev pub serves_viewer : Option ℕ → Live → Bool
serves_viewer none l = false
serves_viewer (some n) l = any (eqb n) l.answering
