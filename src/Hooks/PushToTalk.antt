-- ===== src/Hooks/PushToTalk.antt =====
-- clients/web/src/hooks/usePushToTalk.ts: the listeners of one run of the effect, for one key. `active` is
-- `activeRef.current`; `calls` are the calls of onPress and onRelease so far.
use together.Base.{
  ◌≡◌, refl, String, Bool, true, false, not, ◌&&◌, List, [], ◌∷◌, ◌++◌, if◌then◌else◌, ◌==◌, arith,
}

pub data Call : Type 0 where
  press release : Call

pub record Held : Type 0 where
  pub active : Bool
  pub calls : List Call

unfoldable pub handle_key_down : (ptt_key code : String) → Held → Held
handle_key_down ptt_key code s =
    if not (code == ptt_key)
    then s
    else if s.active
    then s
    else record { active = true; calls = s.calls ++ press ∷ [] }

unfoldable pub handle_key_up : (ptt_key code : String) → Held → Held
handle_key_up ptt_key code s =
    if not (code == ptt_key)
    then s
    else if not s.active
    then s
    else record { active = false; calls = s.calls ++ release ∷ [] }

-- Also what the effect does when it ends.
unfoldable pub handle_blur : Held → Held
handle_blur s = if s.active then record { active = false; calls = s.calls ++ release ∷ [] } else s

pub data KeyEvent : Type 0 where
  key_down key_up : String → KeyEvent
  blur : KeyEvent

unfoldable pub handle : String → KeyEvent → Held → Held
unfolding handle_key_down handle_key_up handle_blur
handle ptt_key (key_down code) = handle_key_down ptt_key code
handle ptt_key (key_up code) = handle_key_up ptt_key code
handle ptt_key blur = handle_blur

unfoldable pub handle_all : String → List KeyEvent → Held → Held
handle_all ptt_key [] s = s
handle_all ptt_key (e ∷ es) s = handle_all ptt_key es (handle ptt_key e s)

abbrev pub released : Held
released = record { active = false; calls = [] }

-- The calls alternate, a press first; the flag says whether the last was a press.
abbrev pub alternates : Bool → List Call → Bool → Bool
alternates start [] end = if start then end else not end
alternates start (press ∷ calls) end = not start && alternates true calls end
alternates start (release ∷ calls) end = start && alternates false calls end

alternates-press :
    (start : Bool) (calls : List Call)
    → alternates start calls false ≡ true
    → alternates start (calls ++ press ∷ []) true ≡ true
alternates-press true [] h = h
alternates-press false [] h = refl
alternates-press start (press ∷ calls) h = ground (arith, alternates-press true calls, h)
alternates-press start (release ∷ calls) h = ground (arith, alternates-press false calls, h)

alternates-release :
    (start : Bool) (calls : List Call)
    → alternates start calls true ≡ true
    → alternates start (calls ++ release ∷ []) false ≡ true
alternates-release true [] h = refl
alternates-release false [] h = h
alternates-release start (press ∷ calls) h = ground (arith, alternates-release true calls, h)
alternates-release start (release ∷ calls) h = ground (arith, alternates-release false calls, h)

handle-alternates :
    (ptt_key : String) (e : KeyEvent) (s : Held)
    → alternates false s.calls s.active ≡ true
    → alternates false (handle ptt_key e s).calls (handle ptt_key e s).active ≡ true
unfolding handle handle_key_down handle_key_up handle_blur
handle-alternates ptt_key (key_down code) s h = ground (arith, h, alternates-press false s.calls)
handle-alternates ptt_key (key_up code) s h = ground (arith, h, alternates-release false s.calls)
handle-alternates ptt_key blur s h = ground (arith, h, alternates-release false s.calls)

handle_all-alternates :
    (ptt_key : String) (es : List KeyEvent) (s : Held)
    → alternates false s.calls s.active ≡ true
    → alternates false (handle_all ptt_key es s).calls (handle_all ptt_key es s).active ≡ true
unfolding handle_all
handle_all-alternates ptt_key [] s h = h
handle_all-alternates ptt_key (e ∷ es) s h =
    handle_all-alternates ptt_key es (handle ptt_key e s) (handle-alternates ptt_key e s h)

-- After any keys and losses of focus, key repeats included, presses and releases alternate, and the microphone is
-- held open exactly if the last call was a press; a loss of focus, or the end of the effect, then always closes it.
pub handle_all-balanced :
    (ptt_key : String) (es : List KeyEvent)
    → let s = handle_all ptt_key es released in
      (alternates false s.calls s.active ≡ true)
      × ((handle_blur s).active ≡ false)
      × (alternates false (handle_blur s).calls false ≡ true)
unfolding handle_blur
handle_all-balanced ptt_key es =
    let s = handle_all ptt_key es released in
    let h : alternates false s.calls s.active ≡ true =
      handle_all-alternates ptt_key es released refl in
    (h, ground arith, ground (arith, h, alternates-release false s.calls))
