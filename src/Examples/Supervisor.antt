-- ===== src/Examples/Supervisor.antt =====
-- The supervised loop.
use stocker_informer.Base.{◌≡◌, refl, [], ◌∷◌, Option, none, some, All, ◌*◌}
use stocker_informer.Errors.{Error}
use stocker_informer.Errors.{opaque_error}
use stocker_informer.Int.{second}
use stocker_informer.Effects.Quiet.{IsBounded, IsOpen}
use stocker_informer.Effects.Waits.{waits}
use stocker_informer.Consumer.Supervisor.{run}
use stocker_informer.Consumer.Protocol.{down}
use stocker_informer.Consumer.Protocol.Followed.{Follows, run-Follows}
use stocker_informer.Consumer.Supervisor.Laws.{run_releases}
use stocker_informer.Consumer.Supervisor.Retry.{Lives, doubling, run_keeps_going, run_backs_off}
use stocker_informer.Examples.World.{contexts, background, consumer, stranded, start}

run_releases_example :
    let out = run contexts 3 10 (consumer contexts) tt start in
    All IsBounded out.events
    × ((r : Option Error) → out.value ≡ some r → (r ≡ none) × IsOpen 0 out.events)
run_releases_example = run_releases contexts 3 10 (consumer contexts) tt start

alive : Lives background (consumer background) tt
alive = record { running = λ w. refl; rested = λ d w. refl }

run_keeps_going_example : (run background 3 10 (consumer background) tt start).value ≡ none
run_keeps_going_example = run_keeps_going background (consumer background) tt alive 3 10 start

stranded_alive : Lives background (stranded background) tt
stranded_alive = record { running = λ w. refl; rested = λ d w. refl }

run_backs_off_example :
    waits (run background 7 10 (stranded background) tt start).events ≡ doubling 0 7
run_backs_off_example =
    run_backs_off background (stranded background) tt stranded_alive (λ w. (opaque_error 2, refl)) 7
      10 start

-- The first seven waits, in nanoseconds.
seven_waits :
    doubling 0 7
    ≡ second
      ∷ (2 * second)
      ∷ (4 * second)
      ∷ (8 * second)
      ∷ (16 * second)
      ∷ (30 * second)
      ∷ (30 * second)
      ∷ []
seven_waits = refl

run-Follows_example :
    let out = run contexts 3 10 (consumer contexts) tt start in Follows down out.value out.events
run-Follows_example = run-Follows contexts 3 10 (consumer contexts) tt start
