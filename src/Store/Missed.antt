-- ===== src/Store/Missed.antt =====
-- The tests of isNotFound of internal/summarystore/store.go, and the misses that they tell.
use Prim.Native.String.{String}
use text.Mathlib.Text.{◌==◌ as str_eq}
use text.Mathlib.TextEquality.{eq_iff}
use mathlib.Core.Option.{some-injective}
use stocker_informer.Base.{
  ℕ, ◌≡◌, ◌⊎◌, ◌↔◌, refl, ap, inl, inr, Bool, true, ◌||◌, Option, none, some, subst, arith,
  if◌then◌else◌,
}
use stocker_informer.Errors.{
  Error, no_such_key, object_not_found, api_error, http_status, wrapped, joined, summary_not_found,
  session_closed, canceled, deadline_exceeded, message, opaque_error, as_error, is_some,
}
use stocker_informer.Store.{
  no_such_key?, object_not_found?, api_code?, status?, is_miss_code, is_miss_status, is_not_found,
}
use stocker_informer.Store.Miss.{
  HasCode, key_code, object_code, other_code, HasStatus, IsMissError, typed_key, typed_object,
  coded_key, coded_object, not_found_status, as_error_iff,
}

no_such_key?_iff : (x : Error) (a : Unit {0}) → (no_such_key? x ≡ some a) ↔ (x ≡ no_such_key)
no_such_key?_iff x a = ground arith

object_not_found?_iff :
    (x : Error) (a : Unit {0}) → (object_not_found? x ≡ some a) ↔ (x ≡ object_not_found)
object_not_found?_iff x a = ground arith

status?_iff : (x : Error) (n : ℕ) → (status? x ≡ some n) ↔ HasStatus x n
status?_iff (http_status m e) n =
    (λ h. (e, ap (λ k. http_status k e) (some-injective m n h)), λ (c, h). cc)
status?_iff summary_not_found n = (λ h. cc, λ (c, h). cc)
status?_iff session_closed n = (λ h. cc, λ (c, h). cc)
status?_iff canceled n = (λ h. cc, λ (c, h). cc)
status?_iff deadline_exceeded n = (λ h. cc, λ (c, h). cc)
status?_iff no_such_key n = (λ h. cc, λ (c, h). cc)
status?_iff object_not_found n = (λ h. cc, λ (c, h). cc)
status?_iff (api_error code) n = (λ h. cc, λ (c, h). cc)
status?_iff (message f xs) n = (λ h. cc, λ (c, h). cc)
status?_iff (wrapped f xs e) n = (λ h. cc, λ (c, h). cc)
status?_iff (joined d e) n = (λ h. cc, λ (c, h). cc)
status?_iff (opaque_error k) n = (λ h. cc, λ (c, h). cc)

api_code?_has : (x : Error) (code : String) → api_code? x ≡ some code → HasCode x code
api_code?_has no_such_key code h =
    subst (HasCode no_such_key) (some-injective "NoSuchKey" code h) key_code
api_code?_has object_not_found code h =
    subst (HasCode object_not_found) (some-injective "NotFound" code h) object_code
api_code?_has (api_error code') code h =
    subst (HasCode (api_error code')) (some-injective code' code h) other_code
api_code?_has summary_not_found code h = cc
api_code?_has session_closed code h = cc
api_code?_has canceled code h = cc
api_code?_has deadline_exceeded code h = cc
api_code?_has (message f xs) code h = cc
api_code?_has (wrapped f xs e) code h = cc
api_code?_has (joined d e) code h = cc
api_code?_has (http_status n e) code h = cc
api_code?_has (opaque_error n) code h = cc

HasCode-api_code? : (x : Error) (code : String) → HasCode x code → api_code? x ≡ some code
HasCode-api_code? _ _ key_code = refl
HasCode-api_code? _ _ object_code = refl
HasCode-api_code? _ _ other_code = refl

is_some_iff : (o : Option (Unit {0})) → (is_some o ≡ true) ↔ (o ≡ some tt)
is_some_iff o = ground arith

or_true : (a b : Bool) → (a || b) ≡ true → (a ≡ true) ⊎ (b ≡ true)
or_true a b h = ground arith

true_or : (a : Bool) {b : Bool} → b ≡ true → (a || b) ≡ true
true_or a h = ground arith

is_miss_code_iff :
    (o : Option String) → (is_miss_code o ≡ true) ↔ ((o ≡ some "NoSuchKey") ⊎ (o ≡ some "NotFound"))
is_miss_code_iff none = (λ h. cc, λ h. elim h [ inl e ↦ cc | inr e ↦ cc ])
is_miss_code_iff (some code) =
    let (key_there, key_back) = eq_iff code "NoSuchKey" in
    let (object_there, object_back) = eq_iff code "NotFound" in
    (
      λ h. elim (or_true (str_eq code "NoSuchKey") (str_eq code "NotFound") h) [
        | inl e ↦ inl (ap some (key_there e))
        | inr e ↦ inr (ap some (object_there e))
      ],
      λ h. elim h [
        | inl e ↦ rw (key_back (some-injective code "NoSuchKey" e)) refl
        | inr e ↦ true_or (str_eq code "NoSuchKey") (object_back (some-injective code "NotFound" e))
      ],
    )

is_miss_status_iff : (o : Option ℕ) → (is_miss_status o ≡ true) ↔ (o ≡ some 404)
is_miss_status_iff o = ground arith

api_code?_iff : (x : Error) (code : String) → (api_code? x ≡ some code) ↔ HasCode x code
api_code?_iff x code = (api_code?_has x code, HasCode-api_code? x code)

-- The four tests of isNotFound, one after the other.
tests :
    (a b c d : Bool)
    → ((if a then true else if b then true else if c then true else d) ≡ true)
      ↔ ((a ≡ true) ⊎ (b ≡ true) ⊎ (c ≡ true) ⊎ (d ≡ true))
tests a b c d = ground arith

-- isNotFound holds of an error exactly if it is a definitive miss.
pub is_not_found_iff : (e : Error) → (is_not_found e ≡ true) ↔ IsMissError e
unfolding is_not_found
is_not_found_iff e =
    let (there, back) =
      tests (is_some (as_error no_such_key? e)) (is_some (as_error object_not_found? e))
        (is_miss_code (as_error api_code? e)) (is_miss_status (as_error status? e)) in
    let key = as_error_iff no_such_key? _ no_such_key?_iff e tt in
    let object = as_error_iff object_not_found? _ object_not_found?_iff e tt in
    let code = as_error_iff api_code? HasCode api_code?_iff e in
    let status = as_error_iff status? HasStatus status?_iff e 404 in
    (
      λ h. elim (there h) [
        | inl a ↦ typed_key (key.0 ((is_some_iff _).0 a))
        | inr (inl b) ↦ typed_object (object.0 ((is_some_iff _).0 b))
        | inr (inr (inl c)) ↦ elim ((is_miss_code_iff _).0 c) [
          | inl x ↦ coded_key ((code "NoSuchKey").0 x)
          | inr x ↦ coded_object ((code "NotFound").0 x)
        ]
        | inr (inr (inr d)) ↦ not_found_status (status.0 ((is_miss_status_iff _).0 d))
      ],
      λ m. back (elim m [
        | typed_key f ↦ inl ((is_some_iff _).1 (key.1 f))
        | typed_object f ↦ inr (inl ((is_some_iff _).1 (object.1 f)))
        | coded_key f ↦ inr (inr (inl ((is_miss_code_iff _).1 (inl ((code "NoSuchKey").1 f)))))
        | coded_object f ↦ inr (inr (inl ((is_miss_code_iff _).1 (inr ((code "NotFound").1 f)))))
        | not_found_status f ↦ inr (inr (inr ((is_miss_status_iff _).1 (status.1 f))))
      ]),
    )
