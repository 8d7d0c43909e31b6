-- ===== src/Tests/Names.antt =====
-- Names and hosts of backends, and the validation of a host.
use zent_proxy.Base.{
  ◌≡◌, refl, ◌≢◌, ◌↔◌, true, false, none, some, List, [], ◌∷◌, map, All, Text, lit,
}
use zent_proxy.Strings.Trim.{trim_space}
use zent_proxy.Proxy.Names.{
  valid_forward_host, normalize_forward_host, normalize_server_name, valid_server_name,
}
use zent_proxy.Proxy.Names.Normal.{normalize_forward_host_twice, normalize_server_name_idem}
use zent_proxy.Proxy.Names.Safe.{IsName, valid_server_name-IsName}
use zent_proxy.Proxy.Hosts.{
  normalize_host_input, validate_host, check_domain_conflicts, conflict_key,
}
use zent_proxy.Proxy.Hosts.Valid.{IsValidHost, validate_host_iff}
use zent_proxy.Proxy.Hosts.Accepted.{IsAccepted, normalize_and_validate-IsAccepted}
use zent_proxy.Proxy.Hosts.Conflicts.{
  NoneWanted, Blames, check_domain_conflicts_iff, check_domain_conflicts-inv,
}
use zent_proxy.Model.{Host}
use zent_proxy.Tests.{net, proxy, blog, blog-valid, blog_host}
use zent_proxy.Api.Hosts.{api_hosts}

forward_hosts :
    (valid_forward_host net (lit " nas.local ") ≡ true)
    × (valid_forward_host net (lit "10.0.0.7") ≡ true)
    × (valid_forward_host net (lit "a b") ≡ false)
    × (normalize_forward_host net (lit "10.0.0.7/") ≡ lit "10.0.0.7")
    × (normalize_forward_host net (lit "nas /") ≡ lit "nas ")
unfolding proxy
forward_hosts = (refl, refl, refl, refl, refl)

server_names :
    (normalize_server_name net (lit " Example.COM ") ≡ lit "example.com")
    × (valid_server_name net (lit "*.example.com") ≡ true)
    × (valid_server_name net (lit "*.com") ≡ false)
    × (valid_server_name net (lit "example.com;") ≡ false)
unfolding proxy
server_names = (refl, refl, refl, refl)

normalize_forward_host_twice_example :
    normalize_forward_host net (normalize_forward_host net (lit "nas /"))
    ≡ trim_space (normalize_forward_host net (lit "nas /"))
normalize_forward_host_twice_example = normalize_forward_host_twice net (lit "nas /")

normalize_server_name_idem_example :
    normalize_server_name net (normalize_server_name net (lit " Example.COM "))
    ≡ normalize_server_name net (lit " Example.COM ")
normalize_server_name_idem_example = normalize_server_name_idem net (lit " Example.COM ")

valid_server_name-IsName_example : All IsName (lit "*.example.com")
valid_server_name-IsName_example = valid_server_name-IsName net (lit "*.example.com") server_names.1

validate_host_iff_example :
    (validate_host net (normalize_host_input net blog) ≡ none)
    ↔ IsValidHost net (normalize_host_input net blog)
validate_host_iff_example = validate_host_iff net (normalize_host_input net blog)

normalize_and_validate-IsAccepted_example : IsAccepted net (normalize_host_input net blog)
normalize_and_validate-IsAccepted_example =
    normalize_and_validate-IsAccepted net blog (normalize_host_input net blog) blog-valid

abbrev wanted : List Text
wanted = lit "new.example.com" ∷ lit " EXAMPLE.com" ∷ []

wanted-taken :
    check_domain_conflicts (blog_host ∷ []) wanted 0 ≡ some (lit "example.com", lit "blog")
unfolding proxy api_hosts
wanted-taken = refl

check_domain_conflicts-inv_example :
    Blames (map conflict_key wanted) 0 (blog_host ∷ []) (lit "example.com") (lit "blog")
check_domain_conflicts-inv_example =
    check_domain_conflicts-inv (blog_host ∷ []) wanted 0 (lit "example.com") (lit "blog")
      wanted-taken

check_domain_conflicts_iff_example :
    (check_domain_conflicts (blog_host ∷ []) wanted 1 ≡ none)
    ↔ All (λ (h : Host). h.id ≢ 1 → NoneWanted (map conflict_key wanted) h.domains) (blog_host ∷ [])
check_domain_conflicts_iff_example = check_domain_conflicts_iff (blog_host ∷ []) wanted 1
