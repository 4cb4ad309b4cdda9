-- ===== src/Dialer/Deadline.antt =====
-- The deadline of dialAMQP (internal/rabbitmq/session.go).
use stocker_informer.Base.{◌≡◌, false, List, [], ◌∷◌, ◌++◌, All, Option, none, some, Text}
use stocker_informer.Int.{ℤ, ltb_ℤ}
use stocker_informer.Errors.{Error, Result, ok, err}
use stocker_informer.Contexts.{Contexts}
use stocker_informer.Effects.{Event, socket_opened, deadline_set, socket_closed, M, Out}
use stocker_informer.Session.{Connection}
use stocker_informer.Dialer.{NetConn, AmqpConn}

-- A time is not after a limit, if there is one.
abbrev pub IsWithin : ℤ → Option ℤ → Type 0
IsWithin d none = Unit
IsWithin d (some limit) = ltb_ℤ limit d ≡ false

-- No TCP connection is dialed.
abbrev pub DialsNothing : List Event → Type 0
DialsNothing = All (λ e. elim e [ socket_opened ↦ ⊥ | _ ↦ Unit ])

module _ {W : Type 0} (contexts : Contexts W) where
  open contexts use {Ctx}

  -- What a call of DialConfig did with the function Dial that it was given: nothing, as for a URL
  -- that it rejects, or one call, whose error it returns.
  pub data Dials (dial : Text → Text → M W (Result (NetConn W))) (w : W)
      (out : Out W (Result (AmqpConn contexts))) : Type 0 where
    uncalled : (e : Error) → out.value ≡ err e → DialsNothing out.events → Dials dial w out
    rejected :
        (network addr : Text) (e : Error)
        → (dial network addr w).value ≡ err e
        → out.value ≡ err e
        → out.events ≡ (dial network addr w).events
        → Dials dial w out
    dialed :
        (network addr : Text) (conn : NetConn W)
        → (dial network addr w).value ≡ ok conn
        → (rest : List Event) → DialsNothing rest
        → out.events ≡ (dial network addr w).events ++ rest
        → Dials dial w out

  -- One attempt to connect, with the deadline `d` on its TCP connection.
  pub data Bounded (d : ℤ) (value : Result (Connection contexts)) (es : List Event) : Type 0 where
    undialed : (e : Error) → value ≡ err e → DialsNothing es → Bounded d value es
    abandoned :
        (e : Error)
        → value ≡ err e
        → es ≡ socket_opened ∷ deadline_set d ∷ socket_closed ∷ []
        → Bounded d value es
    bounded :
        (rest : List Event)
        → DialsNothing rest
        → es ≡ socket_opened ∷ deadline_set d ∷ rest
        → Bounded d value es

  data TcpDial (d : ℤ) (value : Result (NetConn W)) (es : List Event) : Type 0 where
    unopened : (e : Error) → value ≡ err e → es ≡ [] → TcpDial d value es
    unset :
        (e : Error)
        → value ≡ err e
        → es ≡ socket_opened ∷ deadline_set d ∷ socket_closed ∷ []
        → TcpDial d value es
    opened :
        (conn : NetConn W)
        → value ≡ ok conn
        → es ≡ socket_opened ∷ deadline_set d ∷ []
        → TcpDial d value es
