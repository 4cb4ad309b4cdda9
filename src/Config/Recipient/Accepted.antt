-- ===== src/Config/Recipient/Accepted.antt =====
-- The handles that normalizeRecipient of internal/config/config.go accepts.
use stocker_informer.Base.{
  ℕ, ◌≡◌, ◌≢◌, ◌⊎◌, inl, inr, refl, false, [], ◌∷◌, ◌++◌, some, Text, arith, ltb, ap, ◌∙◌,
}
use stocker_informer.Errors.{ok}
use stocker_informer.Text.{trim_space}
use stocker_informer.Text.Split.{Lacks}
use stocker_informer.Text.Cut.{count}
use stocker_informer.Text.Cut.Laws.{
  count-append, count_of-Lacks, cut-append, trim_prefix_absent, trim_prefix_present,
}
use stocker_informer.Config.Env.{Library}
use stocker_informer.Config.Recipient.{
  at, hostname_of, after_cut, check_handle, check_recipient, normalize_recipient,
}

test_few : (n : ℕ) → n ≡ 1 → ltb 1 n ≡ false
test_few n h = ground arith

after_cut_parts :
    (trimmed host : Text) (c d : ℕ) (local domain : Text)
    → after_cut trimmed ((c ∷ local) ++ at ∷ d ∷ domain) host (some (c ∷ local, d ∷ domain))
      ≡ ok ((c ∷ local) ++ at ∷ d ∷ domain)
unfolding after_cut
after_cut_parts trimmed host c d local domain = refl

module _ (host : Text) (c d : ℕ) (local domain : Text) (user_bare : Lacks at (c ∷ local))
    (domain_bare : Lacks at (d ∷ domain)) where
  abbrev handle : Text
  handle = (c ∷ local) ++ at ∷ d ∷ domain

  one_at : count handle at ≡ 1
  one_at = omega (
    arith,
    count-append (c ∷ local) (d ∷ domain) at,
    count_of-Lacks (c ∷ local) at user_bare,
    count_of-Lacks (d ∷ domain) at domain_bare,
  )

  check_handle_accepts : (trimmed : Text) → check_handle trimmed handle host ≡ ok handle
  unfolding check_handle
  check_handle_accepts trimmed = rw (test_few (count handle at) one_at) (
      ap (after_cut trimmed handle host) (cut-append (c ∷ local) (d ∷ domain) at user_bare)
      ∙ after_cut_parts trimmed host c d local domain)

  check_recipient_plain : check_recipient handle host ≡ ok handle
  unfolding check_recipient
  check_recipient_plain =
      ap (λ h. check_handle handle h host)
        (trim_prefix_absent c (local ++ at ∷ d ∷ domain) at user_bare.0)
      ∙ check_handle_accepts handle

  check_recipient_marked : check_recipient (at ∷ handle) host ≡ ok handle
  unfolding check_recipient
  check_recipient_marked =
      ap (λ h. check_handle (at ∷ handle) h host) (trim_prefix_present handle at)
      ∙ check_handle_accepts (at ∷ handle)

-- A handle user@domain of two filled parts without a further "@" is accepted and returned as it is,
-- with or without an "@" before it.
pub normalize_recipient_accepts :
    {F : Type 0} (l : Library F) (raw instance_url local domain : Text)
    → local ≢ []
    → domain ≢ []
    → Lacks at local
    → Lacks at domain
    → (trim_space raw ≡ local ++ at ∷ domain) ⊎ (trim_space raw ≡ at ∷ (local ++ at ∷ domain))
    → normalize_recipient l raw instance_url ≡ ok (local ++ at ∷ domain)
unfolding normalize_recipient
normalize_recipient_accepts l raw instance_url [] domain h k bare bare' e = absurd (h refl)
normalize_recipient_accepts l raw instance_url (c ∷ local) [] h k bare bare' e = absurd (k refl)
normalize_recipient_accepts l raw instance_url (c ∷ local) (d ∷ domain) h k bare bare' (inl e) =
    let host = hostname_of (l.parse_url instance_url) in
    ap (λ t. check_recipient t host) e ∙ check_recipient_plain host c d local domain bare bare'
normalize_recipient_accepts l raw instance_url (c ∷ local) (d ∷ domain) h k bare bare' (inr e) =
    let host = hostname_of (l.parse_url instance_url) in
    ap (λ t. check_recipient t host) e ∙ check_recipient_marked host c d local domain bare bare'
