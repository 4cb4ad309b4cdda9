-- ===== src/Consumer/Connect/Laws.antt =====
-- connect of internal/rabbitmq/consumer.go leaks nothing.
use stocker_informer.Base.{ℕ, ◌≡◌, false, arith, All}
use stocker_informer.Errors.{ok, err}
use stocker_informer.Contexts.{Contexts}
use stocker_informer.Effects.{M}
use stocker_informer.Effects.Quiet.{IsOpen, IsBounded}
use stocker_informer.Consumer.{Consumer}
use stocker_informer.Consumer.Connect.{Connected, connect}

module _ {W : Type 0} (contexts : Contexts W) where
  open contexts use {Ctx}

  -- A session that connect returns is not marked closed.
  abbrev pub IsFresh : Connected contexts → Type 0
  IsFresh (err e) = Unit
  IsFresh (ok s) = s.closed ≡ false

  -- The connections, and channels, that a result holds.
  abbrev pub held : Connected contexts → ℕ
  held (err e) = 0
  held (ok s) = 1

  -- After a computation, what is open is what its result holds.
  abbrev pub Holds : M W (Connected contexts) → W → Type 0
  Holds m w =
      IsOpen (held (m w).value) (m w).events × IsFresh (m w).value × All IsBounded (m w).events

  -- connect opens one connection and one channel exactly if it succeeds, and then the session is
  -- open; where a step fails, what was opened before it is closed again.
  pub connect-Holds : (c : Consumer contexts) (ctx : Ctx) (w : W) → Holds (connect contexts c ctx) w
  unfolding connect
  connect-Holds c ctx w = ground arith
