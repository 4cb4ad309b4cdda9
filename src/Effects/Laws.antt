-- ===== src/Effects/Laws.antt =====
-- Events by kind.
use Prim.Native.String.{String}
use stocker_informer.Base.{◌≡◌, ◌∙◌, append-nil, refl, ap, List, [], ◌∷◌, ◌++◌}
use stocker_informer.Effects.{Event, Level, logged, acked, nacked}

-- The events that are not log lines.
abbrev pub effects : List Event → List Event
effects [] = []
effects (logged level line ∷ es) = effects es
effects (e ∷ es) = e ∷ effects es

pub effects-append : (xs ys : List Event) → effects (xs ++ ys) ≡ effects xs ++ effects ys
effects-append [] ys = refl
effects-append (logged level line ∷ xs) ys = effects-append xs ys
effects-append (e ∷ xs) ys = ap (λ zs. e ∷ zs) (effects-append xs ys)

-- The settlements among some events.
abbrev pub settlements : List Event → List Event
settlements [] = []
settlements (acked tag ∷ es) = acked tag ∷ settlements es
settlements (nacked tag requeue ∷ es) = nacked tag requeue ∷ settlements es
settlements (e ∷ es) = settlements es

pub settlements-append :
    (xs ys : List Event) → settlements (xs ++ ys) ≡ settlements xs ++ settlements ys
settlements-append [] ys = refl
settlements-append (acked tag ∷ xs) ys = ap (λ zs. acked tag ∷ zs) (settlements-append xs ys)
settlements-append (nacked tag requeue ∷ xs) ys =
    ap (λ zs. nacked tag requeue ∷ zs) (settlements-append xs ys)
settlements-append (e ∷ xs) ys = settlements-append xs ys

-- A log line at the end is no effect.
pub effects-append_logged :
    (xs : List Event) (level : Level) (line : String)
    → effects (xs ++ logged level line ∷ []) ≡ effects xs
effects-append_logged xs level line =
    effects-append xs (logged level line ∷ []) ∙ append-nil (effects xs)

-- Nothing but log lines, and nothing after them.
pub effects-append_logs : (xs : List Event) → effects xs ≡ [] → effects (xs ++ []) ≡ []
effects-append_logs xs h = effects-append xs [] ∙ (append-nil (effects xs) ∙ h)
