-- ===== src/Consumer/Supervisor/Retry.antt =====
-- How Run of internal/rabbitmq/consumer.go retries while its context lives.
use native.Mathlib.Numerals.{add-one}
use stocker_informer.Base.{
  ℕ, zero, suc, ◌+◌, ◌*◌, ◌^◌, ◌≡◌, refl, ◌∙◌, ap, inl, inr, Bool, true, false, List, [], ◌∷◌,
  Option, none, some, Bool-cases, min, ◌==◌, ◌%◌, ◌||◌,
}
use stocker_informer.Errors.{Error, ok, err, is_some}
use stocker_informer.Contexts.{Contexts}
use stocker_informer.Effects.{M}
use stocker_informer.Effects.Waits.{waits, waits-append}
use stocker_informer.Session
use stocker_informer.Backoff.{backoff_delay, backoff_initial, backoff_max, backoff_delay_doubling}
use stocker_informer.Consumer.{Consumer}
use stocker_informer.Consumer.Loop.{Consumed}
use stocker_informer.Consumer.Connect.{Connected, connect, after_dial}
use stocker_informer.Consumer.Supervisor.{
  Ran, log_connect_failed, after_sleep, back_off, after_consume, run_session, after_connect, rounds,
  run,
}

-- The delays of `n` retries after `k` earlier ones: each doubles from one second, up to thirty.
abbrev pub doubling : ℕ → ℕ → List ℕ
doubling k zero = []
doubling k (suc n) = min (backoff_initial * 2 ^ k) backoff_max ∷ doubling (suc k) n

module _ {W : Type 0} (contexts : Contexts W) (c : Consumer contexts) (ctx : contexts.Ctx) where
  open contexts use {ctx_err}

  -- The context does not end, and no wait is cut short.
  pub record Lives : Type 0 where
    pub running : (w : W) → is_some (ctx_err ctx w) ≡ false
    pub rested : (d : ℕ) (w : W) → (c.sleep ctx d w).0 ≡ none

  -- The broker cannot be reached.
  abbrev pub Unreachable : Type 0
  Unreachable = (w : W) → (e : Error) × ((c.dial ctx c.cfg.url c.cfg.connect_timeout w).0 ≡ err e)

  after_sleep-none :
      (rest : M W Ran) (r : Option Error) (w : W)
      → r ≡ none
      → after_sleep contexts rest r w ≡ rest w
  unfolding after_sleep
  after_sleep-none rest none w h = refl
  after_sleep-none rest (some e) w h = cc

  module _ (alive : Lives) where
    waits-back_off :
        (next : ℕ → M W Ran) (f : ℕ) (w : W)
        → waits (back_off contexts c ctx next f w).events
          ≡ backoff_delay f ∷ waits (next f (c.sleep ctx (backoff_delay f) w).1).events
    unfolding back_off
    waits-back_off next f w =
        let (failed, w1) = c.sleep ctx (backoff_delay f) w in
        ap (λ out. backoff_delay f ∷ waits out.events)
          (after_sleep-none (next f) failed w1 (alive.rested (backoff_delay f) w))

    back_off_value :
        (next : ℕ → M W Ran) (f : ℕ) (w : W)
        → ((w' : W) → (next f w').value ≡ none)
        → (back_off contexts c ctx next f w).value ≡ none
    unfolding back_off
    back_off_value next f w h =
        let (failed, w1) = c.sleep ctx (backoff_delay f) w in
        ap (λ out. out.value)
          (after_sleep-none (next f) failed w1 (alive.rested (backoff_delay f) w))
        ∙ h w1

    after_consume_value :
        (s : Session.Session contexts) (next : ℕ → M W Ran) (failures : ℕ) (consumed : Consumed)
        (w : W)
        → ((f : ℕ) (w' : W) → (next f w').value ≡ none)
        → (after_consume contexts c ctx s next failures consumed w).value ≡ none
    unfolding after_consume
    after_consume_value s next failures none w h = refl
    after_consume_value s next failures (some (any, e)) w h =
        rw (alive.running w) (back_off_value next _ _ (h _))

    after_connect_value :
        (fuel : ℕ) (next : Bool → ℕ → M W Ran) (failures : ℕ) (connected : Bool)
        (result : Connected contexts) (w : W)
        → ((b : Bool) (f : ℕ) (w' : W) → (next b f w').value ≡ none)
        → (after_connect contexts fuel c ctx next failures connected result w).value ≡ none
    unfolding after_connect run_session
    after_connect_value fuel next failures connected (err e) w h =
        rw (alive.running w) (back_off_value (next connected) _ _ (h connected _))
    after_connect_value fuel next failures connected (ok s) w h =
        rw (alive.running w) (after_consume_value s (next true) failures _ _ (h true))

    rounds_value :
        (n fuel : ℕ) (connected : Bool) (failures : ℕ) (w : W)
        → (rounds contexts n fuel c ctx connected failures w).value ≡ none
    unfolding rounds
    rounds_value zero fuel connected failures w = refl
    rounds_value (suc n) fuel connected failures w = rw (alive.running w) (
        after_connect_value fuel (rounds contexts n fuel c ctx) failures connected _ _
          (rounds_value n fuel))

    -- While its context lives, Run does not return, whatever the broker and the other parts do.
    pub run_keeps_going : (n fuel : ℕ) (w : W) → (run contexts n fuel c ctx w).value ≡ none
    unfolding run
    run_keeps_going n fuel w = rounds_value n fuel false 0 w

    waits-log_connect_failed : (n : ℕ) (w : W) → waits (log_connect_failed contexts n w).events ≡ []
    unfolding log_connect_failed
    waits-log_connect_failed n w = elim (Bool-cases (n == 1 || n % 10 == 0)) [
      | inl e ↦ rw e
      | inr e ↦ rw e
    ]

    module _ (down : Unreachable) where
      after_connect_down :
          (fuel : ℕ) (next : Bool → ℕ → M W Ran) (f : ℕ) (w w' : W) (result : Connected contexts)
          → ((e : Error) × (result ≡ err e))
          → (w1 : W) × (waits (after_connect contexts fuel c ctx next f false result w').events
              ≡ backoff_delay (f + 1) ∷ waits (next false (f + 1) w1).events)
      unfolding after_connect
      after_connect_down fuel next f w w' (ok s) (e, h) = cc
      after_connect_down fuel next f w w' (err x) h =
          let logging = log_connect_failed contexts (f + 1) w' in
          (
            (c.sleep ctx (backoff_delay (f + 1)) logging.world).1,
            rw (alive.running w') (
                waits-append logging.events _
                ∙ rw (waits-log_connect_failed (f + 1) w')
                    (waits-back_off (next false) (f + 1) logging.world)),
          )

      connect_down :
          (w : W)
          → ((e : Error) × ((connect contexts c ctx w).value ≡ err e))
            × ((connect contexts c ctx w).events ≡ [])
      unfolding connect after_dial
      connect_down w = let (e, h) = down w in ((e, rw (h, after_dial)), rw (h, after_dial))

      round_down :
          (n fuel f : ℕ) (w : W)
          → (w1 : W) × (waits (rounds contexts (suc n) fuel c ctx false f w).events
              ≡ backoff_delay (suc f)
                ∷ waits (rounds contexts n fuel c ctx false (suc f) w1).events)
      unfolding rounds
      round_down n fuel f w =
          let connecting = connect contexts c ctx w in
          let (failed, silent) = connect_down w in
          let (w1, h) =
            after_connect_down fuel (rounds contexts n fuel c ctx) f w connecting.world
              connecting.value failed in
          (w1, rw (alive.running w) (rw silent (rw add-one at h)))

      rounds_down :
          (n fuel k : ℕ) (w : W)
          → waits (rounds contexts n fuel c ctx false k w).events ≡ doubling k n
      rounds_down zero fuel k w = unfold rounds in refl
      rounds_down (suc n) fuel k w =
          let (w1, h) = round_down n fuel k w in
          h ∙ rw (backoff_delay_doubling k) (rw (rounds_down n fuel (suc k) w1))

      -- While the broker cannot be reached and the context lives, the waits of Run are those of the
      -- documented backoff: one second, doubling with each failure, and thirty seconds from the
      -- sixth on.
      pub run_backs_off :
          (n fuel : ℕ) (w : W) → waits (run contexts n fuel c ctx w).events ≡ doubling 0 n
      unfolding run
      run_backs_off n fuel w = rounds_down n fuel 0 w
