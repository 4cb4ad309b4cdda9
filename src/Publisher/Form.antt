-- ===== src/Publisher/Form.antt =====
-- What the form of internal/messenger/gotosocial_publisher.go says of the audience.
use stocker_informer.Base.{
  ◌≡◌, refl, inl, inr, true, false, ◌++◌, some, Text, codes, text_eq, text_eq_iff, Bool-cases,
  if◌then◌else◌,
}
use stocker_informer.Config.{audience_local, audience_direct}
use stocker_informer.Contexts.{Contexts}
use stocker_informer.Publisher.{Values, set, lookup, Publisher, form}

local-ne-direct : (a : Text) → text_eq a audience_local ≡ true → text_eq a audience_direct ≡ false
local-ne-direct a h = rw ((text_eq_iff a audience_local).0 h)

-- The text of a direct status: it mentions its recipient.
abbrev pub mention : Text → Text → Text
mention recipient text = codes "@" ++ (recipient ++ (codes " " ++ text))

-- The fields of a form that decide who sees a status, and its text.
pub record Shows (f : Values) (text visibility local_only : Text) : Type 0 where
  pub markdown : lookup "content_type" f ≡ some (codes "text/markdown")
  pub shown : lookup "status" f ≡ some text
  pub seen_by : lookup "visibility" f ≡ some visibility
  pub kept_local : lookup "local_only" f ≡ some local_only

module _ {W : Type 0} (contexts : Contexts W) where
  -- A status is Markdown. It is direct, and mentions its recipient, exactly for the audience
  -- "direct"; for every other it is public, and shows the text as it is; and it is local exactly
  -- for the audience "local".
  pub form-Shows :
      (p : Publisher contexts) (text : Text)
      → let direct = text_eq p.audience audience_direct in
        Shows
          (form contexts p text)
          (if direct then mention p.recipient text else text)
          (if direct then codes "direct" else codes "public")
          (if text_eq p.audience audience_local then codes "true" else codes "false")
  unfolding form set lookup
  form-Shows p text = elim (Bool-cases (text_eq p.audience audience_local)) [
    | inl local ↦
        rw (local, local-ne-direct p.audience local)
          (record { markdown = refl; shown = refl; seen_by = refl; kept_local = refl })
    | inr wide ↦ elim (Bool-cases (text_eq p.audience audience_direct)) [
      | inl direct ↦
          rw (wide, direct)
            (record { markdown = refl; shown = refl; seen_by = refl; kept_local = refl })
      | inr global ↦
          rw (wide, global)
            (record { markdown = refl; shown = refl; seen_by = refl; kept_local = refl })
    ]
  ]
