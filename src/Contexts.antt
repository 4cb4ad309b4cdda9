-- ===== src/Contexts.antt =====
-- Go's package context, as the program uses it: a parameter, whose state is part of the world `W`.
use stocker_informer.Base.{Option}
use stocker_informer.Int.{ℤ}
use stocker_informer.Errors.{Error}

pub record Contexts (W : Type 0) : Type 1 where
  pub Ctx : Type 0
  pub ctx_err : Ctx → W → Option Error
  pub with_timeout : Ctx → ℤ → W → Ctx × W
  pub cancel : Ctx → W → W
