-- ===== src/Store/Read.antt =====
-- How ReadSummary of internal/summarystore/store.go reports what the object store answered.
use stocker_informer.Base.{
  ◌≡◌, ◌↔◌, refl, inl, inr, true, false, Text, Bool-cases, Option-cases, some, arith, if◌then◌else◌,
}
use stocker_informer.Int.{pos, ltb_ℤ}
use stocker_informer.Errors.{Error, Result, ok, err, is_summary_not_found}
use stocker_informer.Text.{CaseTable}
use stocker_informer.Contexts.{Contexts}
use stocker_informer.Store.Miss.{IsMissError}
use stocker_informer.Store.Missed.{is_not_found_iff}
use stocker_informer.Store.{
  build_key, is_not_found, Client, get, wrap_read_error, read_result, read_at, read_key,
  read_summary,
}

-- An error that is not ErrNotFound in disguise.
abbrev pub IsForeign : Error → Type 0
IsForeign e = is_summary_not_found e ≡ false

-- The result of ReadSummary is ErrNotFound, or wraps it.
abbrev pub IsMissing : Result Text → Type 0
IsMissing (ok content) = ⊥
IsMissing (err e) = is_summary_not_found e ≡ true

-- The object store answered that there is no such object.
abbrev pub IsMiss : Result Text → Type 0
IsMiss (ok content) = ⊥
IsMiss (err e) = IsMissError e

abbrev IsForeignResult : Result Text → Type 0
IsForeignResult (ok content) = Unit
IsForeignResult (err e) = IsForeign e

build_key-IsForeign :
    (table : CaseTable) (prefix exchange symbol : Text) {e : Error}
    → build_key table prefix exchange symbol ≡ err e
    → IsForeign e
unfolding build_key is_summary_not_found
build_key-IsForeign table prefix exchange symbol h = ground arith

module _ {W : Type 0} (contexts : Contexts W) where
  open contexts use {Ctx, ctx_err, with_timeout, cancel}

  -- The context and the state in which the object is read.
  abbrev pub started : Client contexts → Ctx → W → Ctx × W
  started c ctx w = if ltb_ℤ (pos 0) c.timeout then with_timeout ctx c.timeout w else (ctx, w)

  abbrev pub answer : Client contexts → Ctx → Text → W → Result Text
  answer c ctx key w = let (ctx', w1) = started c ctx w in (get contexts c ctx' key w1).0

  -- Neither a context nor the object store makes up this package's ErrNotFound.
  pub record IsOutside (c : Client contexts) : Type 0 where
    pub ctx_foreign : (ctx : Ctx) (w : W) {e : Error} → ctx_err ctx w ≡ some e → IsForeign e
    pub get_foreign :
        (ctx : Ctx) (key : Text) (w : W) {e : Error}
        → (get contexts c ctx key w).0 ≡ err e
        → IsForeign e

  wrap_read_error-IsForeign :
      (c : Client contexts)
      → IsOutside c
      → (ctx : Ctx) (key : Text) (e : Error) (w : W) → IsForeign e
      → IsForeign (wrap_read_error contexts ctx key e w)
  unfolding wrap_read_error is_summary_not_found
  wrap_read_error-IsForeign c out ctx key e w h = elim (Option-cases (ctx_err ctx w)) [
    | inl p ↦ rw (p, wrap_read_error) h
    | inr (d, p) ↦ rw (p, wrap_read_error) (out.ctx_foreign ctx w p)
  ]

  -- A result is reported: as missing exactly when the store missed, and as read when it was read.
  abbrev pub Reports : Result Text → Result Text → Type 0
  Reports answered r =
      (IsMissing r ↔ IsMiss answered)
      × ((content : Text) → (r ≡ ok content) ↔ (answered ≡ ok content))

  read_result-Reports :
      (c : Client contexts)
      → IsOutside c
      → (ctx : Ctx) (key : Text) (r : Result Text) (w : W) → IsForeignResult r
      → Reports r (read_result contexts ctx key r w)
  unfolding read_result
  read_result-Reports c out ctx key (ok content) w h =
      ((λ x. x, λ x. x), λ content'. (λ x. x, λ x. x))
  read_result-Reports c out ctx key (err e) w h = elim (Bool-cases (is_not_found e)) [
    | inl p ↦ rw p (
      (λ _. (is_not_found_iff e).0 p, λ _. unfold is_summary_not_found in refl),
      λ content. (λ x. cc, λ x. cc),
    )
    | inr p ↦ rw p (
      (
        λ x. cc (wrap_read_error-IsForeign c out ctx key e w h),
        λ x. cc (p, (is_not_found_iff e).1 x),
      ),
      λ content. (λ x. cc, λ x. cc),
    )
  ]

  answer-IsForeign :
      (c : Client contexts) (out : IsOutside c) (ctx : Ctx) (key : Text) (w : W) (r : Result Text)
      → (get contexts c ctx key w).0 ≡ r
      → IsForeignResult r
  answer-IsForeign c out ctx key w (ok content) h = tt
  answer-IsForeign c out ctx key w (err e) h = out.get_foreign ctx key w h

  read_at-Reports :
      (c : Client contexts) (out : IsOutside c) (ctx : Ctx) (key : Text) (w : W)
      → Reports (get contexts c ctx key w).0 (read_at contexts c ctx key w).0
  unfolding read_at
  read_at-Reports c out ctx key w =
      read_result-Reports c out ctx key (get contexts c ctx key w).0 _
        (answer-IsForeign c out ctx key w _ refl)

  read_key-Reports :
      (c : Client contexts) (out : IsOutside c) (ctx : Ctx) (key : Text) (w : W)
      → Reports (answer c ctx key w) (read_key contexts c ctx key w).0
  unfolding read_key
  read_key-Reports c out ctx key w = elim (Bool-cases (ltb_ℤ (pos 0) c.timeout)) [
    | inl p ↦ rw (p, answer, started) (read_at-Reports c out _ key _)
    | inr p ↦ rw (p, answer, started) (read_at-Reports c out ctx key w)
  ]

  -- For an identity with a key, ReadSummary reports ErrNotFound exactly when the store answered
  -- that the object is not there, by an error of one of the two types of the S3 client, by one of
  -- two codes as the first code of the error or by 404 as its first HTTP status, and returns a content exactly when the store returned it; a
  -- rejected identity reads nothing and is never reported as ErrNotFound.
  pub read_summary-Reports :
      (table : CaseTable) (c : Client contexts)
      → IsOutside c
      → (ctx : Ctx) (exchange symbol : Text) (w : W)
      → ((key : Text)
          → build_key table c.prefix exchange symbol ≡ ok key
          → Reports (answer c ctx key w) (read_summary contexts table c ctx exchange symbol w).0)
        × ((e : Error)
            → build_key table c.prefix exchange symbol ≡ err e
            → (read_summary contexts table c ctx exchange symbol w ≡ (err e, w)) × IsForeign e)
  unfolding read_summary
  read_summary-Reports table c out ctx exchange symbol w = (
    λ key p. rw (p, read_summary) (read_key-Reports c out ctx key w),
    λ e p. (rw (p, read_summary), build_key-IsForeign table c.prefix exchange symbol p),
  )
