-- ===== src/Tests/Proxy.antt =====
-- Pools, rules, capacity and the start of the proxy.
use zent_proxy.Base.{
  ℕ, ◌*◌, ◌/◌, ◌≤◌, ◌<◌, ◌≡◌, refl, ◌≢◌, ◌↔◌, ◌⊎◌, inl, inr, true, false, Option, none, some, List,
  [], ◌∷◌, arith, ◌==◌, if◌then◌else◌, In, All, Text, lit,
}
use zent_proxy.Base.Int.{pos}
use zent_proxy.Model.{Host, ZentLoopConfig}
use zent_proxy.Tests.{net, proxy, blog_host, loopback}
use zent_proxy.Api.Hosts.{api_hosts}
use zent_proxy.Proxy.Capacity.{
  RuntimeCapacity, compute_runtime_capacity, effective_nofile, capacity_bounds,
  worker_connections-lt_iff, keepalive_budget,
}
use zent_proxy.Proxy.Upstreams.{
  upstreams, Target, ProxyUpstream, effective_location_target, locations_of, is_target,
  collect_proxy_upstreams, upstream_name, upstream_pool_identity, default_location, is_dynamic_sni,
}
use zent_proxy.Proxy.Upstreams.Declared.{collect_proxy_upstreams-has, IsPoolOf}
use zent_proxy.Proxy.Upstreams.Identity.{upstream_pool_identity_inj, HasNoBar, SameBackend}
use zent_proxy.Proxy.Rules.{zent_loop_rules_for_host, chosen, Kind, Action, rules}
use zent_proxy.Proxy.Rules.Applied.{zent_loop_rules_for_host_lem, Asked}
use zent_proxy.Strings.Sorting.{IsSorted}
use zent_proxy.Strings.Equality.{Distinct}
use zent_proxy.Proxy.Roots.{
  roots, zent_loop_root_domains, IsRootOfHosts, zent_loop_root_domains_lem,
}
use zent_proxy.Proxy.Resolve.{resolve, runtime_resolvers, hosts_file_address, runtime_resolvers_lem}
use zent_proxy.Proxy.Startup.{startup, apply_startup, isolate_host, degraded}
use zent_proxy.Proxy.Startup.Ends.{apply_startup-ends}
use zent_proxy.Proxy.Startup.Closed.{isolate_host-closed, closed_port}

abbrev named_host : Host
named_host = record blog_host { forward_host = lit "app"; name = lit "shop" }

-- Only the first activation without the host that is not found succeeds.
abbrev attempt : ℕ → List Host → Option Text
attempt n hosts = if n == 1 then none else some []

abbrev not_found : Text
not_found = lit "host not found in upstream \"app:8080\" in nginx.conf"

isolates :
    apply_startup net attempt (λ s. none) true true true (some (named_host ∷ [])) (some not_found)
    ≡ some (degraded (lit "shop" ∷ []))
unfolding proxy api_hosts startup zent_proxy.Proxy.Rules.add_once
isolates = refl

apply_startup-ends_example :
    apply_startup net attempt (λ s. none) true true true (some (named_host ∷ [])) (some not_found)
    ≢ none
apply_startup-ends_example =
    apply_startup-ends net attempt (λ s. none) loopback true true true (some (named_host ∷ []))
      (some not_found)

isolate_host-closed_example :
    All
      (λ loc. effective_location_target (isolate_host named_host) loc ≡ closed_port)
      (locations_of (isolate_host named_host))
isolate_host-closed_example = isolate_host-closed named_host

is_target-default :
    is_target net (effective_location_target blog_host (default_location blog_host)) ≡ true
unfolding proxy api_hosts upstreams
is_target-default = refl

enabled : blog_host.enabled ≡ true
unfolding proxy api_hosts
enabled = refl

In-default : In (default_location blog_host) (locations_of blog_host)
unfolding proxy api_hosts upstreams
In-default = inr (inl refl)

collect_proxy_upstreams-has_example :
    (u : ProxyUpstream) × In u (collect_proxy_upstreams net (blog_host ∷ []))
    × (u.name
        ≡ upstream_name net blog_host
            (effective_location_target blog_host (default_location blog_host)))
    × IsPoolOf net
        (upstream_pool_identity net blog_host
          (effective_location_target blog_host (default_location blog_host))).0
        u
collect_proxy_upstreams-has_example =
    collect_proxy_upstreams-has net (blog_host ∷ []) blog_host (default_location blog_host)
      (inl refl) enabled In-default is_target-default

abbrev app : Target
app = record { scheme = lit "http"; host = lit "app"; port = pos 80 }

abbrev shouted : Target
shouted = record { scheme = lit "HTTP"; host = lit " APP"; port = pos 80 }

app-HasNoBar : HasNoBar app
unfolding lit
app-HasNoBar = record {
  scheme = (λ q. omega arith, (λ q. omega arith, (λ q. omega arith, (λ q. omega arith, tt))));
  host = (λ q. omega arith, (λ q. omega arith, (λ q. omega arith, tt)));
}

shouted-HasNoBar : HasNoBar shouted
unfolding lit
shouted-HasNoBar = record {
  scheme = (λ q. omega arith, (λ q. omega arith, (λ q. omega arith, (λ q. omega arith, tt))));
  host = (λ q. omega arith, (λ q. omega arith, (λ q. omega arith, (λ q. omega arith, tt))));
}

same-identity :
    (upstream_pool_identity net blog_host app).0 ≡ (upstream_pool_identity net named_host shouted).0
unfolding proxy api_hosts upstreams
same-identity = refl

upstream_pool_identity_inj_example :
    SameBackend app shouted
    × (is_dynamic_sni net blog_host app ≡ is_dynamic_sni net named_host shouted)
    × (is_dynamic_sni net blog_host app ≡ true → blog_host.id ≡ named_host.id)
upstream_pool_identity_inj_example =
    upstream_pool_identity_inj net blog_host named_host app shouted app-HasNoBar shouted-HasNoBar
      same-identity

abbrev loop_config : ZentLoopConfig
loop_config = record {
  enabled = true;
  forward_unknown_hosts = false;
  upstream = lit "";
  secret = lit "";
  fallback = lit "404";
  ip_lists = (record { name = lit "Bots"; entries = lit "10.0.0.0/8" ∷ [] }) ∷ [];
  rules =
      (record {
        name = lit "bots";
        enabled = true;
        match = lit "source_ip_list";
        value = lit "bots ";
        action = lit "Block";
        host_ids = [];
      })
      ∷ [];
}

blocked : (zent_loop_rules_for_host loop_config 1).block_cidrs ≡ lit "10.0.0.0/8" ∷ []
unfolding proxy rules
blocked = refl

zent_loop_rules_for_host_lem_example :
    IsSorted (chosen Kind.source_ip_list Action.block (zent_loop_rules_for_host loop_config 1))
    × Distinct (chosen Kind.source_ip_list Action.block (zent_loop_rules_for_host loop_config 1))
    × ((v : Text)
        → In v (chosen Kind.source_ip_list Action.block (zent_loop_rules_for_host loop_config 1))
          ↔ Asked loop_config.ip_lists 1 Kind.source_ip_list Action.block v loop_config.rules)
zent_loop_rules_for_host_lem_example =
    zent_loop_rules_for_host_lem loop_config 1 Kind.source_ip_list Action.block

-- the capacity of three pools
abbrev three : RuntimeCapacity
three = compute_runtime_capacity 1024 3

capacity_bounds_example :
    (1 ≤ three.worker_connections)
    × (three.worker_connections ≤ 16384)
    × (three.worker_connections ≤ effective_nofile 1024)
    × (1 ≤ three.keepalive_per_upstream)
    × (three.keepalive_per_upstream ≤ 64)
    × (1 ≤ three.zent_loop_keepalive)
    × (three.zent_loop_keepalive ≤ 16)
    × (three.zent_loop_keepalive ≤ three.keepalive_per_upstream)
capacity_bounds_example = capacity_bounds 1024 3

worker_connections-lt_iff_example :
    (three.worker_connections < effective_nofile 1024) ↔ (128 ≤ effective_nofile 1024)
worker_connections-lt_iff_example = worker_connections-lt_iff 1024 3

keepalive_budget_example :
    (three.keepalive_per_upstream ≡ 1)
    ⊎ (3 * three.keepalive_per_upstream ≤ three.worker_connections / 4)
keepalive_budget_example = keepalive_budget 1024 3

blog-root : zent_loop_root_domains net (blog_host ∷ []) ≡ lit "example.com" ∷ []
unfolding proxy api_hosts roots zent_proxy.Proxy.Rules.add_once
blog-root = refl

zent_loop_root_domains_lem_example :
    IsSorted (zent_loop_root_domains net (blog_host ∷ []))
    × Distinct (zent_loop_root_domains net (blog_host ∷ []))
    × ((v : Text)
        → In v (zent_loop_root_domains net (blog_host ∷ [])) ↔ IsRootOfHosts net v (blog_host ∷ []))
zent_loop_root_domains_lem_example = zent_loop_root_domains_lem net (blog_host ∷ [])

abbrev resolv_conf : Text
resolv_conf = lit "# local\nnameserver 10.0.0.1\nnameserver 10.0.0.1\n"

one_resolver : runtime_resolvers net (some resolv_conf) ≡ lit "10.0.0.1" ∷ []
unfolding proxy resolve zent_proxy.Proxy.Rules.add_once
one_resolver = refl

pinned_by_hosts_file :
    hosts_file_address net
      (some (lit "127.0.0.1 localhost\n10.0.0.9 nas nas.lan # box"))
      (lit "NAS.lan.")
    ≡ some (lit "10.0.0.9")
unfolding proxy resolve
pinned_by_hosts_file = refl

runtime_resolvers_lem_example :
    Distinct (runtime_resolvers net (some resolv_conf))
    × (runtime_resolvers net (some resolv_conf) ≢ [])
runtime_resolvers_lem_example = runtime_resolvers_lem net (some resolv_conf)
