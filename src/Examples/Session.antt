-- ===== src/Examples/Session.antt =====
-- Two callers of one session: acks that race with a close.
use stocker_informer.Base.{ℕ, ◌≡◌, refl, true, List, [], ◌∷◌, ◌++◌, none, some, arith}
use stocker_informer.Errors.{session_closed}
use stocker_informer.Effects.{acked, channel_closed, connection_closed}
use stocker_informer.Session.Callers.{
  Request, acking, closing, System, act, advance, turn, interleave, open_history, begin,
}
use stocker_informer.Session.Callers.Finish.{IsServed}
use stocker_informer.Session.Callers.Refines.{interleave-IsServed}
use stocker_informer.Session.Callers.Closing.{IsOrderly, interleave-IsOrderly}
use stocker_informer.Session.Callers.Progress.{Freed, interleave-Freed}
use stocker_informer.Examples.World.{contexts, session, start}

abbrev acks : List (ℕ × Request)
acks = (0, acking 1) ∷ (0, acking 1) ∷ []

abbrev closes : List (ℕ × Request)
closes = (1, closing) ∷ (1, closing) ∷ []

-- Caller 0 takes the mutex and caller 1 finds it taken.
abbrev contended : List (ℕ × Request)
contended = acks ++ closes

-- Caller 0 acks, caller 1 closes, and the second ack of caller 0 comes too late.
abbrev to_the_end : List (ℕ × Request)
to_the_end =
    contended ++ acks ++ (1, closing) ∷ (0, acking 1) ∷ closes ++ closes ++ closes ++ acks ++ acks

abbrev after : List (ℕ × Request) → System contexts
after turns = interleave contexts (begin contexts (session contexts) start) turns

after_all :
    ((after to_the_end).history.events ≡ acked 1 ∷ channel_closed ∷ connection_closed ∷ [])
    × ((after to_the_end).history.answered
        ≡ (acking 1, none) ∷ (closing, none) ∷ (acking 1, some session_closed) ∷ [])
unfolding interleave turn advance act
after_all = (refl, refl)

interleave-IsServed_example :
    IsServed contexts (open_history contexts (session contexts) start) (after to_the_end).history
unfolding interleave turn advance act
interleave-IsServed_example = interleave-IsServed contexts (session contexts) start to_the_end refl

interleave-IsOrderly_example : IsOrderly true (after to_the_end).history.events
unfolding interleave turn advance act
interleave-IsOrderly_example =
    interleave-IsOrderly contexts (session contexts) start to_the_end refl refl

interleave-Freed_example : Freed contexts (after contended) 0 (acks ++ closes ++ acks ++ acks)
unfolding interleave turn advance act
interleave-Freed_example =
    interleave-Freed contexts (session contexts) start contended 0 refl
      (acks ++ closes ++ acks ++ acks) (omega arith)
