-- ===== src/Server/Status.antt =====
-- The exit status of the process of cmd/server/main.go.
use stocker_informer.Base.{ℕ, ◌≡◌, ◌↔◌, refl, Option, none, some}
use stocker_informer.Errors.{Error}
use stocker_informer.Server.{Exit, load_failed, returned, running, exit_code}

-- `run` has returned an error.
abbrev pub IsFailed : Exit → Type 0
IsFailed (load_failed problems) = Unit
IsFailed (returned e) = (x : Error) × (e ≡ some x)
IsFailed running = ⊥

-- The status that a process has when `run` stands as it does: 1, 0, or none as it has not ended.
pub record HasStatus (exit : Exit) (status : Option ℕ) : Type 0 where
  pub one_iff : (status ≡ some 1) ↔ IsFailed exit
  pub zero_iff : (status ≡ some 0) ↔ (exit ≡ returned none)
  pub none_iff : (status ≡ none) ↔ (exit ≡ running)

pub exit_code-HasStatus : (exit : Exit) → HasStatus exit (exit_code exit)
exit_code-HasStatus (load_failed problems) = record {
  one_iff = (λ h. tt, λ h. refl);
  zero_iff = (λ h. absurd (cc), λ h. cc);
  none_iff = (λ h. cc, λ h. cc);
}
exit_code-HasStatus (returned (some e)) = record {
  one_iff = (λ h. (e, refl), λ h. refl);
  zero_iff = (λ h. absurd (cc), λ h. cc);
  none_iff = (λ h. cc, λ h. cc);
}
exit_code-HasStatus (returned none) = record {
  one_iff = (λ h. absurd (cc), λ (x, h). cc);
  zero_iff = (λ h. refl, λ h. refl);
  none_iff = (λ h. cc, λ h. cc);
}
exit_code-HasStatus running = record {
  one_iff = (λ h. cc, λ h. absurd h);
  zero_iff = (λ h. cc, λ h. cc);
  none_iff = (λ h. refl, λ h. refl);
}
