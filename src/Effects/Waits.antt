-- ===== src/Effects/Waits.antt =====
-- The waits in a trace.
use stocker_informer.Base.{ℕ, ◌≡◌, refl, ap, List, [], ◌∷◌, ◌++◌}
use stocker_informer.Effects.{Event, slept}

-- The waits among some events.
abbrev pub waits : List Event → List ℕ
waits [] = []
waits (slept d ∷ es) = d ∷ waits es
waits (e ∷ es) = waits es

pub waits-append : (xs ys : List Event) → waits (xs ++ ys) ≡ waits xs ++ waits ys
waits-append [] ys = refl
waits-append (slept d ∷ xs) ys = ap (λ zs. d ∷ zs) (waits-append xs ys)
waits-append (e ∷ xs) ys = waits-append xs ys
