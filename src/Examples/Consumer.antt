-- ===== src/Examples/Consumer.antt =====
-- One delivery, and the consume loop.
use mathlib.Core.Option.{some-injective}
use stocker_informer.Base.{
  ◌≤◌, ◌<◌, ◌≡◌, refl, true, false, List, [], ◌∷◌, some, arith, subst, length, Text,
}
use stocker_informer.Errors.{Result}
use stocker_informer.Effects.{acked, nacked, channel_closed, connection_closed}
use stocker_informer.Effects.Laws.{effects, settlements}
use stocker_informer.Effects.Tags.{IsSettled, settled_tags}
use stocker_informer.Session
use stocker_informer.Session.{Delivery, delivery, ended, otherwise, Received}
use stocker_informer.Text.{trim_space, drop_while, drop_while_end, is_space}
use stocker_informer.Consumer.{handle_delivery, settle, decode_stock}
use stocker_informer.Consumer.Handling.{
  Pipeline, handle_delivery-Pipeline, handle_delivery_cancelled,
}
use stocker_informer.Consumer.Settlement.{handle_delivery_acks}
use stocker_informer.Consumer.Loop.{consume}
use stocker_informer.Consumer.Loop.Laws.{consume-IsSettled}
use stocker_informer.Consumer.Loop.Finite.{IsFinite}
use stocker_informer.Consumer.Loop.Total.{Returns, consume-Returns}
use stocker_informer.Consumer.Connect.{connect}
use stocker_informer.Consumer.Connect.Laws.{Holds, connect-Holds}
use stocker_informer.Session.Laws.{IsDead, close-IsDead}
use stocker_informer.Examples.World.{
  World, contexts, background, session, consumer, signal, poison, start, ending, next_delivery,
}

handle_delivery-Pipeline_example :
    Pipeline contexts
      (consumer contexts)
      tt
      (signal 1)
      start
      (handle_delivery contexts (consumer contexts) tt (session contexts) (signal 1) start).events
handle_delivery-Pipeline_example =
    handle_delivery-Pipeline contexts tt (session contexts) (signal 1) refl (consumer contexts)
      start

handle_delivery_cancelled_example :
    effects
      (handle_delivery contexts (consumer contexts) tt (session contexts) (signal 1) ending).events
    ≡ nacked 1 true ∷ []
handle_delivery_cancelled_example =
    handle_delivery_cancelled contexts tt (session contexts) (signal 1) refl (consumer contexts)
      ending refl

handle_delivery_acks_example :
    settlements
      (handle_delivery background (consumer background) tt (session background) poison start).events
    ≡ acked 9 ∷ []
handle_delivery_acks_example =
    handle_delivery_acks background tt poison (consumer background) (session background) start refl
      (λ w. refl)

consume-IsSettled_example :
    IsSettled (consume contexts 10 (consumer contexts) tt (session contexts) false start).events
consume-IsSettled_example =
    consume-IsSettled contexts (session contexts) refl (consumer contexts) tt 10 false start

-- The three deliveries of `start` are settled in their order.
three_settled :
    settled_tags (consume contexts 10 (consumer contexts) tt (session contexts) false start).events
    ≡ 1 ∷ 9 ∷ 2 ∷ []
unfolding consume handle_delivery settle decode_stock Session.ack trim_space drop_while
    drop_while_end is_space
three_settled = refl

next-falls :
    (ds : List Delivery) (w : World) (d : Delivery)
    → length ds ≡ length w.queue
    → (next_delivery ds w).0 ≡ delivery d
    → length (next_delivery ds w).1.queue < length w.queue
next-falls [] w d h e = cc
next-falls (x ∷ ds) w d h e = omega arith

next-keeps :
    (ds : List Delivery) (w : World)
    → length ds ≡ length w.queue
    → length (next_delivery ds w).1.queue ≤ length w.queue
next-keeps [] w h = omega arith
next-keeps (x ∷ ds) w h = omega arith

rewrite_keeps_all :
    (given rewrite : Unit {0} → Text → World → Result Text × World)
    → some given ≡ some rewrite
    → ((text : Text) (w : World) → (given tt text w).1 ≡ w)
    → (text : Text) (w : World) → length (rewrite tt text w).1.queue ≤ length w.queue
rewrite_keeps_all given rewrite h keeps text w =
    subst (λ r. length (r tt text w).1.queue ≤ length w.queue) (some-injective _ _ h)
      (rw (keeps text w) (omega arith))

abbrev finite : IsFinite contexts (consumer contexts) tt (session contexts)
finite = record {
  pending = λ w. length w.queue;
  select_falls = λ w d h. next-falls w.queue w d refl h;
  select_keeps = λ w. next-keeps w.queue w refl;
  poll_falls = λ w d h. next-falls w.queue w d refl h;
  ack_keeps = λ tag w. omega arith;
  nack_keeps = λ tag w. omega arith;
  cancel_keeps = λ w. omega arith;
  read_keeps = λ exchange symbol w. omega arith;
  rewrite_keeps = λ rewrite h text w. rewrite_keeps_all _ rewrite h (λ text w. refl) text w;
  publish_keeps = λ text w. omega arith;
}

consume-Returns_example :
    Returns contexts
      (consumer contexts)
      tt
      (session contexts)
      finite
      false
      start
      (consume contexts 5 (consumer contexts) tt (session contexts) false start).value
consume-Returns_example =
    consume-Returns contexts (consumer contexts) tt (session contexts) finite 5 false start
      (omega arith)

connect-Holds_example : Holds contexts (connect contexts (consumer contexts) tt) start
connect-Holds_example = connect-Holds contexts (consumer contexts) tt start

close-IsDead_example :
    ((Session.close contexts (session contexts) start).events
      ≡ channel_closed ∷ connection_closed ∷ [])
    × IsDead contexts (Session.close contexts (session contexts) start).value.0
close-IsDead_example = close-IsDead contexts (session contexts) start
