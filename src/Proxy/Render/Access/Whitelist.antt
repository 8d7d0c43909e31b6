-- ===== src/Proxy/Render/Access/Whitelist.antt =====
-- internal/proxy/manager.go: what the access list of a host means for a client. The access module of
-- nginx takes the first rule whose address matches the client, and lets a client in that none
-- matches. Its word for everyone is "all", in lower case.
use zent_proxy.Base.{◌≡◌, Bool, true, Option, none, some, List, [], ◌∷◌, if◌then◌else◌, Text, lit}
use zent_proxy.Net.{Net}
use zent_proxy.Strings.Search.{equal_fold}
use zent_proxy.Proxy.Render.Access.{Rule}

-- An address that is "all" up to case is written in lower case.
abbrev pub IsPlainAll : Rule → Type 0
IsPlainAll r = equal_fold r.address (lit "all") ≡ true → r.address ≡ lit "all"

module _ (matches : Text → Bool) where
  -- what the first rule says that matches the client
  unfoldable pub first_match : List Rule → Option Bool
  first_match [] = none
  first_match (r ∷ rs) =
      let rest = first_match rs in if matches r.address then some r.allows else rest

  -- is the client let in?
  abbrev pub or_default : Option Bool → Bool → Bool
  or_default none b = b
  or_default (some a) b = a

  unfoldable pub lets_in : List Rule → Bool
  lets_in rs = or_default (first_match rs) true
