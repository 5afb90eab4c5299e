-- ===== src/Daemon/Laws.antt =====
-- What the code relies on of the clock, and calls that leave the containers alone.
use freshdock.Prelude.{◌+◌, ◌≤◌, ◌≡◌, refl, List, ◌∷◌, keep, ok, err}
use freshdock.Daemon.Types.{Fallible}
use freshdock.Daemon.Actions.{Action, try, or_return}
use freshdock.Labels.Values.{Duration}
use freshdock.Daemon.Calls.{Call, History, Daemon, swaps}

-- The documented behaviour of tokio's clock: time does not run backwards, and a sleep lasts as long
-- as it was asked to at least.
pub record Ticking (d : Daemon) : Type 0 where
  pub monotone : (c : Call) (h : History) → d.now h ≤ d.now (c ∷ h)
  pub sleeps : (time : Duration) (h : History) → d.now h + time ≤ d.now (Call.sleep time ∷ h)

-- The calls of a history that change containers.
abbrev pub swaps_of : History → List Call
swaps_of h = keep swaps h

-- Inversion of a chain that returned a value.
pub try-eq-ok :
    {A B : Type 0} (m : Action (Fallible A)) (f : A → Action (Fallible B)) (h h' : History) {b : B}
    → try m f h ≡ (ok b, h')
    → (a : A) × (mid : History) × (m h ≡ (ok a, mid)) × (f a mid ≡ (ok b, h'))
try-eq-ok {A} {B} m f h h' {b} e = go (m h) refl e
  where
    go :
        (r : Fallible A × History)
        → m h ≡ r
        → or_return r.0 f r.1 ≡ (ok b, h')
        → (a : A) × (mid : History) × (m h ≡ (ok a, mid)) × (f a mid ≡ (ok b, h'))
    go (ok a, mid) same e = (a, mid, same, e)
    go (err x, mid) same e = cc
