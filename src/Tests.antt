-- ===== src/Tests.antt =====
-- Sample data, on which the definitions are run in the modules below and the theorems instantiated.
mod Names
mod Proxy
mod Render
mod Api
mod Auth
mod Providers
mod Update
mod ZentLoop
mod Passwords
mod Items
mod Analytics
use zent_proxy.Base.{◌-◌, ◌/◌, ◌≡◌, refl, true, false, none, [], ◌∷◌, lit}
use zent_proxy.Base.Int.{pos, between, is_zero, is_positive}
use zent_proxy.Model.{CustomLocation, HostInput, Host}
use zent_proxy.Net.{Net}
use zent_proxy.Net.Ipv4.{dotted_quads}
use zent_proxy.Regex.{regex}
use zent_proxy.Strings.{strings}
use zent_proxy.Proxy.Names.{names, is_some}
use zent_proxy.Proxy.Hosts.{hosts, normalize_and_validate, normalize_host_input, input_of_host}
use zent_proxy.Proxy.Hosts.Accepted.{IsAccepted, normalize_and_validate-IsAccepted}
use zent_proxy.Api.Hosts.{run}
use zent_proxy.Api.State.{host_of_input}

abbrev pub net : Net
net = dotted_quads

-- Opens the proxy's names and hosts.
unfoldable pub proxy : Unit {0}
unfolding strings regex names hosts between dotted_quads lit is_zero is_positive
proxy = tt

abbrev pub api : CustomLocation
api = record {
  path = lit "/api ";
  scheme = lit "HTTPS";
  forward_host = lit "";
  forward_port = pos 0;
  forward_path = lit "v1";
  advanced_config = lit "";
}

abbrev pub blog : HostInput
blog = record {
  name = lit " blog ";
  domains = lit "www.example.com" ∷ lit "Example.com" ∷ [];
  scheme = lit "HTTP";
  forward_host = lit "10.0.0.7";
  forward_port = pos 8080;
  enabled = true;
  web_sockets = false;
  preserve_host = true;
  statistics_enabled = true;
  store_query_string = false;
  trusted_proxy_provider_id = none;
  access_list_id = none;
  block_common_exploits = false;
  certificate_id = none;
  ssl_forced = false;
  http2_support = true;
  hsts_enabled = false;
  hsts_subdomains = false;
  caching_enabled = false;
  trust_forwarded_proto = false;
  advanced_config = lit "";
  custom_locations = api ∷ [];
}

pub blog-valid : normalize_and_validate net blog ≡ (normalize_host_input net blog, none)
unfolding proxy
blog-valid = refl

abbrev pub blog_host : Host
blog_host = host_of_input 1 5 5 (normalize_host_input net blog)

pub blog_host-IsAccepted : IsAccepted net (input_of_host blog_host)
unfolding input_of_host host_of_input
blog_host-IsAccepted =
    normalize_and_validate-IsAccepted net blog (normalize_host_input net blog) blog-valid

pub loopback : is_some (net.parse_ip (lit "127.0.0.1")) ≡ true
unfolding proxy
loopback = refl
