-- ===== src/Store/Miss.antt =====
-- What isNotFound of internal/summarystore/store.go looks for in the chain of an error.
use Prim.Native.String.{String}
use stocker_informer.Base.{
  ℕ, ◌≡◌, ◌↔◌, refl, sym, ◌∙◌, ap, inl, inr, List, [], ◌∷◌, ◌++◌, Option, none, some, All,
  Option-cases,
}
use stocker_informer.Errors.{
  Error, no_such_key, object_not_found, api_error, http_status, wrapped, joined, summary_not_found,
  session_closed, canceled, deadline_exceeded, message, opaque_error, as_error, or_else,
}

-- An error and the errors that it wraps, in the order in which errors.As meets them.
abbrev pub chain : Error → List Error
chain (wrapped f xs e) = wrapped f xs e ∷ chain e
chain (joined d e) = joined d e ∷ (chain d ++ chain e)
chain (http_status n e) = http_status n e ∷ chain e
chain e = e ∷ []

-- The first of some errors that has something of the kind `R` has it as `a`.
pub record First {A : Type 0} (R : Error → A → Type 0) (xs : List Error) (a : A) : Type 0 where
  pub before : List Error
  pub found : Error
  pub after : List Error
  pub split : xs ≡ before ++ found ∷ after
  pub others : All (λ x. (b : A) → R x b → ⊥) before
  pub has : R found a

-- The code of an error of the S3 API; its two types of errors have one of their own.
pub data HasCode : Error → String → Type 0 where
  key_code : HasCode no_such_key "NoSuchKey"
  object_code : HasCode object_not_found "NotFound"
  other_code : {code : String} → HasCode (api_error code) code

abbrev pub HasStatus : Error → ℕ → Type 0
HasStatus x n = (cause : Error) × (x ≡ http_status n cause)

-- The object store says that there is no such object: an error of one of the two types is in the
-- chain, or the first code in it is one of these two, or the first HTTP status in it is 404.
pub data IsMissError (e : Error) : Type 0 where
  typed_key : First (λ x t. x ≡ no_such_key) (chain e) tt → IsMissError e
  typed_object : First (λ x t. x ≡ object_not_found) (chain e) tt → IsMissError e
  coded_key : First HasCode (chain e) "NoSuchKey" → IsMissError e
  coded_object : First HasCode (chain e) "NotFound" → IsMissError e
  not_found_status : First HasStatus (chain e) 404 → IsMissError e

abbrev first_of : {A : Type 0} → (Error → Option A) → List Error → Option A
first_of p [] = none
first_of p (x ∷ xs) = or_else (p x) (first_of p xs)

module _ {A : Type 0} (p : Error → Option A) where
  or_else-none : (o : Option A) → or_else o none ≡ o
  or_else-none none = refl
  or_else-none (some a) = refl

  or_else_assoc : (a b c : Option A) → or_else (or_else a b) c ≡ or_else a (or_else b c)
  or_else_assoc none b c = refl
  or_else_assoc (some a) b c = refl

  first_of-append :
      (xs ys : List Error) → first_of p (xs ++ ys) ≡ or_else (first_of p xs) (first_of p ys)
  first_of-append [] ys = refl
  first_of-append (x ∷ xs) ys =
      ap (or_else (p x)) (first_of-append xs ys) ∙ sym (or_else_assoc (p x) _ _)

  as_error-first : (e : Error) → as_error p e ≡ first_of p (chain e)
  unfolding as_error
  as_error-first (wrapped f xs e) = ap (or_else (p (wrapped f xs e))) (as_error-first e)
  as_error-first (http_status n e) = ap (or_else (p (http_status n e))) (as_error-first e)
  as_error-first (joined d e) =
      rw (as_error-first d, as_error-first e, first_of-append (chain d) (chain e)) refl
  as_error-first summary_not_found = sym (or_else-none _)
  as_error-first session_closed = sym (or_else-none _)
  as_error-first canceled = sym (or_else-none _)
  as_error-first deadline_exceeded = sym (or_else-none _)
  as_error-first (message f xs) = sym (or_else-none _)
  as_error-first no_such_key = sym (or_else-none _)
  as_error-first object_not_found = sym (or_else-none _)
  as_error-first (api_error code) = sym (or_else-none _)
  as_error-first (opaque_error n) = sym (or_else-none _)

  module _ (R : Error → A → Type 0) (agrees : (x : Error) (a : A) → (p x ≡ some a) ↔ R x a) where
    first_of-First : (xs : List Error) (a : A) → first_of p xs ≡ some a → First R xs a
    first_of-First [] a h = cc
    first_of-First (x ∷ xs) a h = elim (Option-cases (p x)) [
      | inl e ↦
          let f = first_of-First xs a (sym (ap (λ o. or_else o (first_of p xs)) e) ∙ h) in
          record {
            before = x ∷ f.before;
            found = f.found;
            after = f.after;
            split = ap (λ ys. x ∷ ys) f.split;
            others = (λ b r. cc (e, (agrees x b).1 r), f.others);
            has = f.has;
          }
      | inr (b, e) ↦ record {
        before = [];
        found = x;
        after = xs;
        split = refl;
        others = tt;
        has = (agrees x a).0 (e ∙ (sym (ap (λ o. or_else o (first_of p xs)) e) ∙ h));
      }
    ]

    First-at :
        (before : List Error) (x : Error) (after : List Error) (a : A)
        → All (λ y. (b : A) → R y b → ⊥) before
        → R x a
        → first_of p (before ++ x ∷ after) ≡ some a
    First-at [] x after a h r = rw ((agrees x a).1 r) refl
    First-at (y ∷ before) x after a h r = elim (Option-cases (p y)) [
      | inl e ↦ rw e (First-at before x after a h.1 r)
      | inr (b, e) ↦ absurd (h.0 b ((agrees y b).0 e))
    ]

    pub as_error_iff : (e : Error) (a : A) → (as_error p e ≡ some a) ↔ First R (chain e) a
    as_error_iff e a = (
      λ h. first_of-First (chain e) a (sym (as_error-first e) ∙ h),
      λ f.
          as_error-first e
          ∙ (ap (first_of p) f.split ∙ First-at f.before f.found f.after a f.others f.has),
    )
