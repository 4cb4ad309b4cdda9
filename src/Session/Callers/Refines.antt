-- ===== src/Session/Callers/Refines.antt =====
-- Callers that interleave on one session (internal/rabbitmq/session.go) against calls that nothing
-- interrupts.
use stocker_informer.Base.{ℕ, ◌≡◌, List, none}
use stocker_informer.Contexts.{Contexts}
use stocker_informer.Session.{Session}
use stocker_informer.Session.Callers.{Request, interleave, open_history, begin}
use stocker_informer.Session.Callers.Finish.{IsServed}
use stocker_informer.Session.Callers.Invariant.{interleave-Inv, begin-Inv}

module _ {W : Type 0} (contexts : Contexts W) where
  -- The methods of a session act as if each call were one step. Let any number of callers take
  -- their steps in any order, from a session of any state. Whenever the mutex is free, the
  -- session's flag, the world, the calls of the channel and of the connection, and what each call
  -- has returned are those of the same calls made one after the other, each from its start to its
  -- end, in the order in which they returned.
  pub interleave-IsServed :
      (sess : Session contexts) (w : W) (turns : List (ℕ × Request))
      → (interleave contexts (begin contexts sess w) turns).holder ≡ none
      → IsServed contexts
          (open_history contexts sess w)
          (interleave contexts (begin contexts sess w) turns).history
  interleave-IsServed sess w turns e =
      (interleave-Inv contexts _ _ turns (begin-Inv contexts sess w)).free e
