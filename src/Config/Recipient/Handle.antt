-- ===== src/Config/Recipient/Handle.antt =====
-- The handles that normalizeRecipient of internal/config/config.go returns.
use stocker_informer.Base.{
  ℕ, ◌≤◌, ◌≡◌, ◌≢◌, ◌⊎◌, refl, inl, inr, false, [], ◌∷◌, ◌++◌, Option, none, some, Text, arith,
  Bool-cases, is_empty, ltb, subst,
}
use stocker_informer.Errors.{Result, ok, err}
use stocker_informer.Text.{trim_space}
use stocker_informer.Text.Split.{Lacks}
use stocker_informer.Text.Cut.{cut, count, trim_prefix}
use stocker_informer.Text.Cut.Laws.{IsCutOf, cut-IsCutOf, Lacks-of_count, count-append}
use stocker_informer.Config.Env.{Library}
use stocker_informer.Config.Recipient.{
  at, borrow_domain, hostname_of, after_cut, check_handle, check_recipient, normalize_recipient,
}

-- A handle of the form user@domain, whose domain holds no "@" or is the given host.
pub record IsHandle (host r : Text) : Type 0 where
  pub local : Text
  pub domain : Text
  pub parts : r ≡ local ++ at ∷ domain
  pub local_filled : local ≢ []
  pub domain_filled : domain ≢ []
  pub local_bare : Lacks at local
  pub domain_bare : Lacks at domain ⊎ (domain ≡ host)

-- A result is an error or such a handle.
abbrev pub IsHandleResult : Text → Result Text → Type 0
IsHandleResult host (err e) = Unit
IsHandleResult host (ok r) = IsHandle host r

not_empty : (s : Text) → is_empty s ≡ false → s ≢ []
not_empty [] h e = cc
not_empty (c ∷ s) h e = cc

borrow_domain-IsHandle :
    (trimmed handle host : Text)
    → handle ≢ []
    → Lacks at handle
    → IsHandleResult host (borrow_domain trimmed handle host)
unfolding borrow_domain
borrow_domain-IsHandle trimmed handle host h k = elim (Bool-cases (is_empty host)) [
  | inl e ↦ rw e tt
  | inr e ↦ rw e record {
    local = handle;
    domain = host;
    parts = refl;
    local_filled = h;
    domain_filled = not_empty host e;
    local_bare = k;
    domain_bare = inr refl;
  }
]

bare_domain :
    (handle local domain : Text)
    → handle ≡ local ++ at ∷ domain
    → count handle at ≤ 1
    → Lacks at domain
bare_domain handle local domain e h =
    let few = subst (λ s. count s at ≤ 1) e h in
    Lacks-of_count domain at (omega (arith, count-append local domain at, few))

after_cut-IsHandle :
    (trimmed handle host : Text) (r : Option (Text × Text))
    → handle ≢ []
    → count handle at ≤ 1
    → IsCutOf handle at r
    → IsHandleResult host (after_cut trimmed handle host r)
unfolding after_cut
after_cut-IsHandle trimmed handle host none h k c = borrow_domain-IsHandle trimmed handle host h c
after_cut-IsHandle trimmed handle host (some (local, domain)) h k (e, bare) =
    elim (Bool-cases (is_empty local)) [
      | inl p ↦ rw p tt
      | inr p ↦ elim (Bool-cases (is_empty domain)) [
        | inl q ↦ rw (p, q) tt
        | inr q ↦
            rw (p, q)
              record {
                local = local;
                domain = domain;
                parts = e;
                local_filled = not_empty local p;
                domain_filled = not_empty domain q;
                local_bare = bare;
                domain_bare = inl (bare_domain handle local domain e k);
              }
      ]
    ]

few_of_test : {n : ℕ} → ltb 1 n ≡ false → n ≤ 1
few_of_test h = ground arith

check_handle-IsHandle :
    (trimmed handle host : Text) → IsHandleResult host (check_handle trimmed handle host)
unfolding check_handle
check_handle-IsHandle trimmed handle host = elim (Bool-cases (is_empty handle)) [
  | inl p ↦ rw p tt
  | inr p ↦ elim (Bool-cases (ltb 1 (count handle at))) [
    | inl q ↦ rw (p, q) tt
    | inr q ↦
        rw (p, q)
          (after_cut-IsHandle trimmed handle host (cut handle at) (not_empty handle p)
            (few_of_test q) (cut-IsCutOf handle at))
  ]
]

check_recipient-IsHandle :
    (trimmed host : Text) → IsHandleResult host (check_recipient trimmed host)
unfolding check_recipient
check_recipient-IsHandle trimmed host = elim (Bool-cases (is_empty trimmed)) [
  | inl p ↦ rw p tt
  | inr p ↦ rw p (check_handle-IsHandle trimmed (trim_prefix trimmed at) host)
]

-- Whatever an operator supplies, normalizeRecipient returns an error or a handle user@domain with
-- both parts filled, no "@" in the user, and none in the domain unless it is borrowed from the
-- instance's URL.
pub normalize_recipient-IsHandle :
    {F : Type 0} (l : Library F) (raw instance_url : Text)
    → IsHandleResult
        (hostname_of (l.parse_url instance_url))
        (normalize_recipient l raw instance_url)
unfolding normalize_recipient
normalize_recipient-IsHandle l raw instance_url = check_recipient-IsHandle (trim_space raw) _
