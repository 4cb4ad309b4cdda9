-- ===== src/Config/Broker/Authority.antt =====
-- The authority that amqpAuthority of internal/config/config.go extracts.
use stocker_informer.Base.{ℕ, ◌≡◌, false, Option, none, some, Text, codes, All}
use stocker_informer.Text.Split.{Lacks}
use stocker_informer.Text.Cut.{until_any, is_one_of, after_first, after_last}
use stocker_informer.Text.Cut.Laws.{
  until_any-All, IsLastOf, after_last-IsLastOf, AllOption, after_last-All,
}
use stocker_informer.Config.Broker.{drop_user, authority_of, amqp_authority}

abbrev pub IsInside : ℕ → Type 0
IsInside c = is_one_of (codes "/?#") c ≡ false

-- An authority holds no user, and nothing of a path, a query or a fragment.
abbrev pub IsAuthority : Option Text → Type 0
IsAuthority none = Unit
IsAuthority (some a) = Lacks b'@' a × All IsInside a

drop_user-IsAuthority :
    (rest : Text) (host : Option Text)
    → IsLastOf rest b'@' host
    → All IsInside rest
    → AllOption IsInside host
    → IsAuthority (some (drop_user rest host))
drop_user-IsAuthority rest none h k m = (h, k)
drop_user-IsAuthority rest (some host) h k m = (h, m)

authority_of-IsAuthority : (rest : Option Text) → IsAuthority (authority_of rest)
authority_of-IsAuthority none = tt
authority_of-IsAuthority (some rest) =
    let s = until_any rest (codes "/?#") in
    drop_user-IsAuthority s (after_last s b'@') (after_last-IsLastOf s b'@')
      (until_any-All rest (codes "/?#"))
      (after_last-All IsInside s b'@' (until_any-All rest (codes "/?#")))

-- Of whatever text, amqpAuthority keeps neither user information nor a path, a query or a fragment:
-- what it extracts holds none of the runes "@", "/", "?" and "#".
pub amqp_authority-IsAuthority : (raw : Text) → IsAuthority (amqp_authority raw)
unfolding amqp_authority
amqp_authority-IsAuthority raw = authority_of-IsAuthority (after_first raw (codes "://"))
