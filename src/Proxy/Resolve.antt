-- ===== src/Proxy/Resolve.antt =====
-- internal/proxy/manager.go: how the proxy finds its backends: the resolvers of the system, and the
-- names that the system pins to an address. The content of a file is a parameter, none where it cannot
-- be opened.
use zent_proxy.Base.{
  ◌≢◌, inl, inr, Bool, false, not, ◌||◌, Option, none, some, List, [], ◌∷◌, ◌++◌, ◌==◌,
  if◌then◌else◌, Bool-cases, Text, lit,
}
use zent_proxy.Net.{Net}
use zent_proxy.Strings.Equality.{text_eq, Distinct}
use zent_proxy.Strings.Trim.{is_nil, trim_space, to_lower}
use zent_proxy.Strings.Search.{has_prefix, has_suffix, trim_suffix, equal_fold, member}
use zent_proxy.Strings.Split.{split, fields}
use zent_proxy.Proxy.Names.{is_some, bracketed_ip}
use zent_proxy.Proxy.Rules.{add_once}
use zent_proxy.Proxy.Rules.Added.{add_once-Distinct}

-- an address as nginx wants it
unfoldable pub bracket_ipv6 : Text → Text
bracket_ipv6 ip = if member b':' ip then lit "[" ++ (ip ++ lit "]") else ip

abbrev pub ip_or : Text → Option Text → Text
ip_or s none = s
ip_or s (some ip) = bracket_ipv6 ip

-- the text before the first "#"
unfoldable pub before_comment : Text → Text
before_comment [] = []
before_comment (c ∷ s) = let rest = before_comment s in if c == b'#' then [] else c ∷ rest

module _ (net : Net) where
  unfoldable pub normalize_resolver_ip : Text → Text
  normalize_resolver_ip raw = ip_or [] (net.parse_ip (trim_space raw))

  unfoldable pub nginx_server_host : Text → Text
  nginx_server_host raw = let host = trim_space raw in ip_or host (bracketed_ip net host)

  abbrev pub add_nameserver : List Text → List Text → List Text
  add_nameserver [] out = out
  add_nameserver (f ∷ []) out = out
  add_nameserver (f ∷ value ∷ more) out =
      if not (text_eq f (lit "nameserver")) || is_nil (normalize_resolver_ip value)
      then out
      else add_once out (normalize_resolver_ip value)

  unfoldable pub add_resolvers : List Text → List Text → List Text
  add_resolvers [] out = out
  add_resolvers (l ∷ ls) out =
      let line = trim_space l in
      add_resolvers ls
        (if is_nil line || has_prefix (lit "#") line then out else add_nameserver (fields line) out)

  abbrev pub resolvers_in : Option Text → List Text
  resolvers_in none = []
  resolvers_in (some content) = add_resolvers (split b'\n' content) []

  -- the name servers of resolv.conf, each once
  unfoldable pub nginx_resolver_addresses : Option Text → List Text
  nginx_resolver_addresses file = resolvers_in file

  abbrev pub or_docker : List Text → List Text
  or_docker [] = lit "127.0.0.11" ∷ []
  or_docker (a ∷ r) = a ∷ r

  unfoldable pub runtime_resolvers : Option Text → List Text
  runtime_resolvers file = or_docker (nginx_resolver_addresses file)

  -- is one of the aliases the name?
  unfoldable pub has_alias : Text → List Text → Bool
  has_alias hostname [] = false
  has_alias hostname (a ∷ more) =
      equal_fold (trim_suffix (lit ".") a) hostname || has_alias hostname more

  abbrev pub line_address : Text → List Text → Option Text
  line_address hostname [] = none
  line_address hostname (address ∷ aliases) =
      if has_alias hostname aliases then net.parse_ip address else none

  abbrev pub or_address : Option Text → Option Text → Option Text
  or_address none o = o
  or_address (some ip) o = some ip

  -- the first line whose address is one and whose aliases have the name
  unfoldable pub find_address : Text → List Text → Option Text
  find_address hostname [] = none
  find_address hostname (l ∷ ls) =
      or_address (line_address hostname (fields (before_comment l))) (find_address hostname ls)

  abbrev pub address_in : Text → Option Text → Option Text
  address_in hostname none = none
  address_in hostname (some content) =
      if is_nil hostname then none else find_address hostname (split b'\n' content)

  unfoldable pub hosts_file_address : Option Text → Text → Option Text
  hosts_file_address file hostname =
      address_in (to_lower (trim_suffix (lit ".") (trim_space hostname))) file

  -- Of the addresses that the resolver gave: the first of version 4, or the first. An address comes
  -- with whether it is of version 4.
  unfoldable pub first_v4 : List (Text × Bool) → Option Text
  first_v4 [] = none
  first_v4 ((ip, v4) ∷ ips) = let rest = first_v4 ips in if v4 then some ip else rest

  abbrev pub first_of : List (Text × Bool) → Option Text
  first_of [] = none
  first_of ((ip, v4) ∷ ips) = some ip

  unfoldable pub is_docker_name : Text → Bool
  is_docker_name lower =
      text_eq lower (lit "host.docker.internal")
      || text_eq lower (lit "gateway.docker.internal")
      || has_suffix (lit ".docker.internal") lower

  -- `file` is /etc/hosts, and `lookup` what the system's resolver gives, nothing where it fails
  unfoldable pub system_pinned_upstream_address :
      Option Text → (Text → List (Text × Bool)) → Text → Option Text
  system_pinned_upstream_address file lookup raw =
      let host = trim_suffix (lit ".") (trim_space raw) in
      if is_nil host || is_some (bracketed_ip net host)
      then none
      else or_address (hosts_file_address file host) (
          if is_docker_name (to_lower host)
          then or_address (first_v4 (lookup host)) (first_of (lookup host))
          else none)

  add_nameserver-Distinct : (fs out : List Text) → Distinct out → Distinct (add_nameserver fs out)
  add_nameserver-Distinct [] out d = d
  add_nameserver-Distinct (f ∷ []) out d = d
  add_nameserver-Distinct (f ∷ value ∷ more) out d =
      elim (Bool-cases
        (not (text_eq f (lit "nameserver")) || is_nil (normalize_resolver_ip value))) [
          | inl e ↦ rw e d
          | inr e ↦ rw e (add_once-Distinct (normalize_resolver_ip value) out d)
        ]

  add_resolvers-Distinct : (ls out : List Text) → Distinct out → Distinct (add_resolvers ls out)
  unfolding add_resolvers
  add_resolvers-Distinct [] out d = d
  add_resolvers-Distinct (l ∷ ls) out d =
      elim (Bool-cases (is_nil (trim_space l) || has_prefix (lit "#") (trim_space l))) [
        | inl e ↦ rw e (add_resolvers-Distinct ls out d)
        | inr e ↦ rw e (
            add_resolvers-Distinct ls (add_nameserver (fields (trim_space l)) out)
              (add_nameserver-Distinct (fields (trim_space l)) out d))
      ]

  in_file-Distinct : (file : Option Text) → Distinct (resolvers_in file)
  in_file-Distinct none = tt
  in_file-Distinct (some content) = add_resolvers-Distinct (split b'\n' content) [] tt

  or_docker-Distinct :
      (rs : List Text) → Distinct rs → Distinct (or_docker rs) × (or_docker rs ≢ [])
  or_docker-Distinct [] d = ((λ i. i, tt), cc)
  or_docker-Distinct (r ∷ rs) d = (d, cc)

  -- Whatever the file holds, there is a resolver, and no resolver is named twice.
  pub runtime_resolvers_lem :
      (file : Option Text) → Distinct (runtime_resolvers file) × (runtime_resolvers file ≢ [])
  unfolding runtime_resolvers nginx_resolver_addresses
  runtime_resolvers_lem file = or_docker-Distinct (resolvers_in file) (in_file-Distinct file)

-- Opens the module for a test.
unfoldable pub resolve : Unit {0}
unfolding bracket_ipv6 before_comment normalize_resolver_ip nginx_server_host add_resolvers
    nginx_resolver_addresses runtime_resolvers has_alias find_address hosts_file_address first_v4
    is_docker_name system_pinned_upstream_address
resolve = tt
