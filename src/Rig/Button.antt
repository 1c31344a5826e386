-- ===== src/Rig/Button.antt =====
-- test_rig/button.c: the start button, polled by a timer.
use t2_firmware.Prelude.{
  ℕ, zero, suc, ◌≡◌, refl, ap, ◌∙◌, List, [], ◌∷◌, ◌++◌, Bool, true, false, replicate, sym,
}

pub data ButtonState : Type 0 where
  up bounce down : ButtonState

-- `button_poll`, with the report that it sends; `pressed` is that the pin is low
unfoldable pub button_poll : (pressed : Bool) → ButtonState → ButtonState × List Bool
button_poll true up = (bounce, [])
button_poll true bounce = (down, true ∷ [])
button_poll false down = (up, false ∷ [])
button_poll _ s = (s, [])

-- the reports over some polls
unfoldable pub reports : ButtonState → List Bool → List Bool
unfolding button_poll
reports s [] = []
reports s (p ∷ ps) = let (t, r) = button_poll p s in r ++ reports t ps

-- the changes of a signal
abbrev pub edges : (before : Bool) → List Bool → List Bool
edges b [] = []
edges true (true ∷ ps) = edges true ps
edges true (false ∷ ps) = false ∷ edges false ps
edges false (true ∷ ps) = true ∷ edges true ps
edges false (false ∷ ps) = edges false ps

-- Presses that last for at least two polls each: the polls before one, and how much longer it lasts.
abbrev pub polls : List (ℕ × ℕ) → List Bool
polls [] = []
polls ((before, longer) ∷ l) =
    replicate before false ++ (replicate (suc (suc longer)) true ++ (false ∷ polls l))

reports-released : (n : ℕ) (ps : List Bool) → reports up (replicate n false ++ ps) ≡ reports up ps
unfolding reports
reports-released zero ps = refl
reports-released (suc n) ps = reports-released n ps

reports-held : (n : ℕ) (ps : List Bool) → reports down (replicate n true ++ ps) ≡ reports down ps
unfolding reports
reports-held zero ps = refl
reports-held (suc n) ps = reports-held n ps

reports-waiting :
    (n : ℕ) (ps : List Bool) → reports bounce (replicate n false ++ ps) ≡ reports bounce ps
unfolding reports
reports-waiting zero ps = refl
reports-waiting (suc n) ps = reports-waiting n ps

edges-held : (b : Bool) (n : ℕ) (ps : List Bool) → edges b (replicate n b ++ ps) ≡ edges b ps
edges-held b zero ps = refl
edges-held true (suc n) ps = edges-held true n ps
edges-held false (suc n) ps = edges-held false n ps

-- As long as each press lasts for at least two polls, the reports are the changes of the button.
pub reports-edges : (l : List (ℕ × ℕ)) → reports up (polls l) ≡ edges false (polls l)
unfolding reports
reports-edges [] = refl
reports-edges ((before, longer) ∷ l) =
    let rest : List Bool = true ∷ true ∷ (replicate longer true ++ (false ∷ polls l)) in
    reports-released before rest
    ∙ ap (true ∷◌) (reports-held longer (false ∷ polls l) ∙ ap (false ∷◌) (reports-edges l))
    ∙ sym (edges-held false before rest ∙ ap (true ∷◌) (edges-held true longer (false ∷ polls l)))

-- A press is reported also for two contacts of one poll each, however long after one another.
pub reports-glitches : (n : ℕ) → reports up (true ∷ replicate n false ++ true ∷ []) ≡ true ∷ []
unfolding reports
reports-glitches n = reports-waiting n (true ∷ [])

-- Reports alternate, a press first.
abbrev pub Alternates : Bool → List Bool → Type 0
Alternates b [] = Unit {0}
Alternates true (true ∷ rs) = Alternates false rs
Alternates false (false ∷ rs) = Alternates true rs
Alternates _ _ = ⊥

abbrev next : ButtonState → Bool
next down = false
next _ = true

pub reports-Alternates : (s : ButtonState) (ps : List Bool) → Alternates (next s) (reports s ps)
unfolding reports
reports-Alternates s [] = tt
reports-Alternates up (true ∷ ps) = reports-Alternates bounce ps
reports-Alternates up (false ∷ ps) = reports-Alternates up ps
reports-Alternates bounce (true ∷ ps) = reports-Alternates down ps
reports-Alternates bounce (false ∷ ps) = reports-Alternates bounce ps
reports-Alternates down (true ∷ ps) = reports-Alternates down ps
reports-Alternates down (false ∷ ps) = reports-Alternates up ps
