-- ===== src/Session/Laws.antt =====
-- A closed session of internal/rabbitmq/session.go.
use stocker_informer.Base.{
  ℕ, ◌≡◌, Bool, true, [], ◌∷◌, none, some, Bool-cases, inl, inr, if◌then◌else◌,
}
use stocker_informer.Errors.{session_closed}
use stocker_informer.Contexts.{Contexts}
use stocker_informer.Effects.{channel_closed, connection_closed, pure}
use stocker_informer.Session.{Session, ack, nack, cancel_consumer, close}

module _ {W : Type 0} (contexts : Contexts W) where
  -- What a closed session answers, with no call of its channel or its connection.
  pub record IsDead (s : Session contexts) : Type 0 where
    pub ack_refused : (tag : ℕ) (w : W) → ack contexts s tag w ≡ pure (some session_closed) w
    pub nack_refused :
        (tag : ℕ) (requeue : Bool) (w : W)
        → nack contexts s tag requeue w ≡ pure (some session_closed) w
    pub cancel_ignored : (w : W) → cancel_consumer contexts s w ≡ pure tt w
    pub close_ignored : (w : W) → close contexts s w ≡ pure (s, none) w

  IsDead-of_closed : (s : Session contexts) → s.closed ≡ true → IsDead s
  unfolding close ack nack cancel_consumer
  IsDead-of_closed s h = record {
    ack_refused = λ tag w. simp h;
    nack_refused = λ tag requeue w. simp h;
    cancel_ignored = λ w. simp h;
    close_ignored = λ w. simp h;
  }

  close-closed : (s : Session contexts) (w : W) → (close contexts s w).value.0.closed ≡ true
  unfolding close
  close-closed s w = elim (Bool-cases s.closed) [ inl e ↦ simp e | inr e ↦ simp e ]

  close_events :
      (s : Session contexts) (w : W)
      → (close contexts s w).events
        ≡ (if s.closed then [] else channel_closed ∷ connection_closed ∷ [])
  unfolding close
  close_events s w = elim (Bool-cases s.closed) [ inl e ↦ simp e | inr e ↦ simp e ]

  -- Closing a session of any state leaves a session that touches neither the channel nor the
  -- connection any more: an ack or a nack reports that the session is closed, and a second close
  -- does nothing and reports nothing. The first close releases the channel, then the connection.
  pub close-IsDead :
      (s : Session contexts) (w : W)
      → ((close contexts s w).events
          ≡ (if s.closed then [] else channel_closed ∷ connection_closed ∷ []))
        × IsDead (close contexts s w).value.0
  close-IsDead s w = (close_events s w, IsDead-of_closed _ (close-closed s w))
