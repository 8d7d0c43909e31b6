-- ===== src/Proxy/Render/Access.antt =====
-- internal/proxy/manager.go: who may reach a host: the lines of its access list.
pub mod Whitelist
use zent_proxy.Base.{
  ℕ, ◌+◌, ◌-◌, ◌/◌, Bool, true, false, not, ◌&&◌, ◌||◌, Option, none, some, List, [], ◌∷◌, ◌++◌,
  map, ◌==◌, if◌then◌else◌, Text, lit,
}
use zent_proxy.Model.{AccessRule, AccessList, Host}
use zent_proxy.Net.{Net}
use zent_proxy.Strings.Equality.{text_eq}
use zent_proxy.Strings.Trim.{is_nil, trim_space, to_lower}
use zent_proxy.Strings.Search.{contains_any, equal_fold}
use zent_proxy.Regex.{full_match}
use zent_proxy.Proxy.Names.{hostname_re, is_some}
use zent_proxy.Proxy.Render.Pieces.{cat, when, nginx_file_path}

-- a line `allow address;` or `deny address;`
pub record Rule : Type 0 where
  pub allows : Bool
  pub address : Text

abbrev pub find_list : ℕ → List AccessList → Option AccessList
find_list id [] = none
find_list id (a ∷ lists) = if a.id == id then some a else find_list id lists

abbrev pub list_of : Option ℕ → List AccessList → Option AccessList
list_of none lists = none
list_of (some id) lists = find_list id lists

abbrev pub no_rules : List AccessRule → Bool
no_rules [] = true
no_rules (r ∷ rs) = false

unfoldable pub is_directive : Text → Bool
is_directive d = text_eq d (lit "allow") || text_eq d (lit "deny")

unfoldable pub rule_of : AccessRule → Rule
rule_of r = record {
  allows = text_eq (to_lower (trim_space r.directive)) (lit "allow");
  address = trim_space r.address;
}

unfoldable pub has_allow : List Rule → Bool
has_allow [] = false
has_allow (r ∷ rs) = r.allows || has_allow rs

unfoldable pub has_deny_all : List Rule → Bool
has_deny_all [] = false
has_deny_all (r ∷ rs) = (not r.allows && equal_fold r.address (lit "all")) || has_deny_all rs

abbrev pub deny_all : Rule
deny_all = record { allows = false; address = lit "all" }

unfoldable pub rule_line : Rule → Text
rule_line r = cat (
    lit "        "
    ∷ (if r.allows then lit "allow" else lit "deny")
    ∷ lit " "
    ∷ r.address
    ∷ lit ";\n"
    ∷ [])

unfoldable pub satisfy_line : AccessList → Text
satisfy_line a =
    let satisfy =
      if a.satisfy_any then lit "        satisfy any;\n" else lit "        satisfy all;\n" in
    when (not (no_rules a.rules) || (a.auth_enabled && not (is_nil a.auth_file))) satisfy

unfoldable pub auth_lines : AccessList → Text
auth_lines a = when (a.auth_enabled && not (is_nil (trim_space a.auth_file))) (
    cat (
      lit "        auth_basic \"Authorization required\";\n        auth_basic_user_file "
      ∷ nginx_file_path a.auth_file (lit "/data/access-lists/invalid")
      ∷ lit ";\n"
      ∷ []))

module _ (net : Net) where
  unfoldable pub valid_access_address : Text → Bool
  valid_access_address raw =
      let v = trim_space raw in
      if text_eq v (lit "all")
      then true
      else if contains_any v (lit " \t\r\n;{}")
      then false
      else is_some (net.parse_ip v) || net.is_cidr v || full_match hostname_re v

  unfoldable pub is_rendered : AccessRule → Bool
  is_rendered r =
      is_directive (to_lower (trim_space r.directive))
      && valid_access_address (trim_space r.address)

  -- the rules that are written, in their order
  unfoldable pub written_rules : List AccessRule → List Rule
  written_rules [] = []
  written_rules (r ∷ rs) =
      let rest = written_rules rs in if is_rendered r then rule_of r ∷ rest else rest

  -- An allow list is a whitelist: it ends with a denial of all, unless one is there.
  unfoldable pub access_rules : List AccessRule → List Rule
  access_rules rules =
      let rs = written_rules rules in
      if has_allow rs && not (has_deny_all rs) then rs ++ (deny_all ∷ []) else rs

  abbrev pub access_lines : Option AccessList → Text
  access_lines none = []
  access_lines (some a) =
      cat (satisfy_line a ∷ cat (map rule_line (access_rules a.rules)) ∷ auth_lines a ∷ [])

abbrev pub authorization_of : Option AccessList → Text
authorization_of none = lit "$http_authorization"
authorization_of (some a) = if a.pass_auth then lit "$http_authorization" else lit "\"\""

-- what the backend gets to see of the client's Authorization header
unfoldable pub proxy_authorization_header : Host → List AccessList → Text
proxy_authorization_header h lists = authorization_of (list_of h.access_list_id lists)

-- Opens the module for a test.
unfoldable pub access : Unit {0}
unfolding valid_access_address is_directive is_rendered rule_of written_rules has_allow has_deny_all
    access_rules rule_line satisfy_line auth_lines proxy_authorization_header
access = tt
