-- ===== src/Effects/Tags.antt =====
-- The delivery tags in a trace.
use stocker_informer.Base.{ℕ, ◌≡◌, refl, sym, ◌∙◌, ap, List, [], ◌∷◌, ◌++◌}
use stocker_informer.Effects.{Event, acked, nacked, received, logged}
use stocker_informer.Effects.Laws.{effects, settlements}

-- The delivery tags that arrived, and those that were settled, each in its order.
abbrev pub arrivals : List Event → List ℕ
arrivals [] = []
arrivals (received tag ∷ es) = tag ∷ arrivals es
arrivals (e ∷ es) = arrivals es

abbrev pub settled_tags : List Event → List ℕ
settled_tags [] = []
settled_tags (acked tag ∷ es) = tag ∷ settled_tags es
settled_tags (nacked tag requeue ∷ es) = tag ∷ settled_tags es
settled_tags (e ∷ es) = settled_tags es

-- Each arrival was settled once, in order of arrival.
abbrev pub IsSettled : List Event → Type 0
IsSettled es = settled_tags es ≡ arrivals es

pub arrivals-append : (xs ys : List Event) → arrivals (xs ++ ys) ≡ arrivals xs ++ arrivals ys
arrivals-append [] ys = refl
arrivals-append (received tag ∷ xs) ys = ap (λ zs. tag ∷ zs) (arrivals-append xs ys)
arrivals-append (e ∷ xs) ys = arrivals-append xs ys

pub settled_tags-append :
    (xs ys : List Event) → settled_tags (xs ++ ys) ≡ settled_tags xs ++ settled_tags ys
settled_tags-append [] ys = refl
settled_tags-append (acked tag ∷ xs) ys = ap (λ zs. tag ∷ zs) (settled_tags-append xs ys)
settled_tags-append (nacked tag requeue ∷ xs) ys = ap (λ zs. tag ∷ zs) (settled_tags-append xs ys)
settled_tags-append (e ∷ xs) ys = settled_tags-append xs ys

pub IsSettled-append : (xs ys : List Event) → IsSettled xs → IsSettled ys → IsSettled (xs ++ ys)
IsSettled-append xs ys p q = settled_tags-append xs ys ∙ (rw (p, q) (sym (arrivals-append xs ys)))

pub arrivals-effects : (es : List Event) → arrivals (effects es) ≡ arrivals es
arrivals-effects [] = refl
arrivals-effects (logged level line ∷ es) = arrivals-effects es
arrivals-effects (received tag ∷ es) = ap (λ zs. tag ∷ zs) (arrivals-effects es)
arrivals-effects (e ∷ es) = arrivals-effects es

pub settled_tags-settlements : (es : List Event) → settled_tags (settlements es) ≡ settled_tags es
settled_tags-settlements [] = refl
settled_tags-settlements (acked tag ∷ es) = ap (λ zs. tag ∷ zs) (settled_tags-settlements es)
settled_tags-settlements (nacked tag requeue ∷ es) =
    ap (λ zs. tag ∷ zs) (settled_tags-settlements es)
settled_tags-settlements (e ∷ es) = settled_tags-settlements es
