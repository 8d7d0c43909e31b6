-- ===== src/Proxy/Render/Server.antt =====
-- internal/proxy/manager.go: the server blocks of a proxy host, without and with TLS.
pub mod Names
use zent_proxy.Base.{
  ℕ, ◌+◌, ◌-◌, ◌*◌, ◌/◌, ◌^◌, Bool, true, false, not, ◌&&◌, ◌||◌, Option, none, some, List, [], ◌∷◌,
  ◌++◌, map, ◌==◌, if◌then◌else◌, Text, lit,
}
use zent_proxy.Model.{
  CustomLocation, Host, AccessList, TrustedProxyProvider, Certificate, ZentLoopConfig,
}
use zent_proxy.Net.{Net}
use zent_proxy.Strings.Trim.{is_nil, trim_space}
use zent_proxy.Strings.Search.{has_suffix}
use zent_proxy.Strings.Split.{join}
use zent_proxy.Strings.Decimal.{itoa}
use zent_proxy.Proxy.Names.{is_some}
use zent_proxy.Proxy.Rules.{zent_loop_rules_for_host}
use zent_proxy.Proxy.Render.Pieces.{
  cat, when, nginx_path, nginx_quote, safe_comment, indent_config, strip_managed_real_ip_directives,
  advanced_has_default_location,
}
use zent_proxy.Proxy.Render.Access.{access_lines, list_of, proxy_authorization_header}
use zent_proxy.Proxy.Render.Location.{render_location, render_default_location}

-- the indentation of the lines of a server block
unfoldable pub tab : Text
tab = lit "        "

unfoldable pub acme_location : Text → Text
acme_location data_dir = cat (
    lit "        location ^~ /.well-known/acme-challenge/ { root "
    ∷ nginx_quote data_dir
    ∷ lit "/acme-webroot; try_files $uri =404; access_log off; }\n"
    ∷ [])

unfoldable pub https_redirect : Text
https_redirect = lit "        location / { return 301 https://$host$request_uri; }\n    }\n\n"

-- what the servers with TLS say of it: the certificate, and that browsers are to stay with TLS
unfoldable pub tls_listen : Bool → Bool → Bool → Certificate → Text
tls_listen http2 hsts subdomains cert = cat (
    lit "        listen 443 ssl;\n"
    ∷ when http2 (lit "        http2 on;\n")
    ∷ lit "        ssl_certificate "
    ∷ nginx_path cert.cert_path
    ∷ lit ";\n        ssl_certificate_key "
    ∷ nginx_path cert.key_path
    ∷ lit ";\n        ssl_protocols TLSv1.2 TLSv1.3;\n"
    ∷ when hsts (
        cat (
          lit "        add_header Strict-Transport-Security \"max-age=31536000"
          ∷ when subdomains (lit "; includeSubDomains")
          ∷ lit "\" always;\n"
          ∷ []))
    ∷ [])

unfoldable pub server_name_line : List Text → Text
server_name_line domains = cat (lit "        server_name " ∷ join b' ' domains ∷ lit ";\n" ∷ [])

abbrev pub find_provider : ℕ → List TrustedProxyProvider → Option TrustedProxyProvider
find_provider id [] = none
find_provider id (p ∷ ps) = if p.id == id then some p else find_provider id ps

abbrev pub find_certificate : ℕ → List Certificate → Option Certificate
find_certificate id [] = none
find_certificate id (c ∷ cs) = if c.id == id then some c else find_certificate id cs

abbrev pub provider_of : Option ℕ → List TrustedProxyProvider → Option TrustedProxyProvider
provider_of none ps = none
provider_of (some id) ps = find_provider id ps

abbrev pub certificate_of : Option ℕ → List Certificate → Option Certificate
certificate_of none cs = none
certificate_of (some id) cs = find_certificate id cs

unfoldable pub real_ip_line : Text → Text → Text
real_ip_line indent cidr = cat (indent ∷ lit "set_real_ip_from " ∷ cidr ∷ lit ";\n" ∷ [])

abbrev pub provider_lines : Option TrustedProxyProvider → List Text → Text → Text
provider_lines none hops indent = []
provider_lines (some p) hops indent = cat (
    cat (map (real_ip_line indent) p.cidrs)
    ∷ cat (map (real_ip_line indent) hops)
    ∷ when (not (is_nil p.header)) (
        cat (
          indent
          ∷ lit "real_ip_header "
          ∷ p.header
          ∷ lit ";\n"
          ∷ indent
          ∷ lit "real_ip_recursive on;\n"
          ∷ []))
    ∷ [])

unfoldable pub render_trusted_proxy_directives :
    Option ℕ → List TrustedProxyProvider → List Text → Text → Text
render_trusted_proxy_directives id providers hops indent =
    provider_lines (provider_of id providers) hops indent

-- the lines that an administrator added, without those of a chosen provider
unfoldable pub advanced_of : Option ℕ → Text → Text
advanced_of provider v = if is_some provider then strip_managed_real_ip_directives v else v

unfoldable pub log_line : Host → Text → Text
log_line h log_path =
    if h.statistics_enabled
    then cat (
        lit "        access_log "
        ∷ nginx_quote log_path
        ∷ lit " "
        ∷ (if h.store_query_string then lit "zentproxy_json_query" else lit "zentproxy_json")
        ∷ lit " buffer=256k flush=1s;\n"
        ∷ [])
    else lit "        access_log off;\n"

unfoldable pub exact_line : Text → Text → Text
exact_line code path =
    cat (lit "        location = " ∷ path ∷ lit " { return " ∷ code ∷ lit "; }\n" ∷ [])

unfoldable pub prefix_line : Text → Text → Text
prefix_line code path =
    cat (lit "        location ^~ " ∷ path ∷ lit " { return " ∷ code ∷ lit "; }\n" ∷ [])

abbrev pub any : List Text → Bool
any [] = false
any (s ∷ r) = true

unfoldable pub zent_loop_location : Text
zent_loop_location = cat (
    lit
      "        location @zentproxy_zentloop {\n            proxy_pass http://zp_zentloop_bridge;\n"
    ∷ lit "            proxy_http_version 1.1;\n            proxy_set_header Host $host;\n"
    ∷ lit "            proxy_set_header X-Real-IP $remote_addr;\n"
    ∷ lit "            proxy_set_header X-Forwarded-For $remote_addr;\n"
    ∷ lit "            proxy_set_header X-Forwarded-Proto $scheme;\n"
    ∷ lit "            proxy_set_header X-Forwarded-Host $host;\n"
    ∷ lit "            proxy_set_header X-ZentLoop-Catch-All 0;\n        }\n"
    ∷ [])

unfoldable pub zent_loop_lines : ZentLoopConfig → Host → Text
zent_loop_lines cfg h =
    let r = zent_loop_rules_for_host cfg h.id in
    let routes = any r.route_cidrs || any r.route_exact || any r.route_prefix in
    when cfg.enabled (
      cat (
        when routes (lit "        error_page 418 = @zentproxy_zentloop;\n")
        ∷ when (any r.block_cidrs) (
            cat (
              lit "        if ($zp_zentloop_block_"
              ∷ itoa h.id
              ∷ lit " = 1) { return 403; }\n"
              ∷ []))
        ∷ when (any r.route_cidrs) (
            cat (
              lit "        if ($zp_zentloop_route_"
              ∷ itoa h.id
              ∷ lit " = 1) { return 418; }\n"
              ∷ []))
        ∷ cat (map (exact_line (lit "403")) r.block_exact)
        ∷ cat (map (prefix_line (lit "403")) r.block_prefix)
        ∷ cat (map (exact_line (lit "418")) r.route_exact)
        ∷ cat (map (prefix_line (lit "418")) r.route_prefix)
        ∷ when routes zent_loop_location
        ∷ []))

unfoldable pub exploit_lines : Text
exploit_lines = cat (
    lit "        location ~* ^/(?:\\.git|\\.svn|\\.hg)(?:/|$) { return 404; }\n"
    ∷ lit "        location ~* \\.(?:bak|old|orig|swp|sql)$ { return 404; }\n"
    ∷ [])

unfoldable pub advanced_lines : Text → Text
advanced_lines v =
    when (not (is_nil (trim_space v)))
      (indent_config v tab ++ when (not (has_suffix (lit "\n") v)) (lit "\n"))

-- What a server is rendered from, besides the host.
pub record Site : Type 0 where
  pub access_lists : List AccessList
  pub providers : List TrustedProxyProvider
  pub certificates : List Certificate
  pub zent_loop : ZentLoopConfig
  pub data_dir : Text
  pub log_path : Text
  pub trusted_transport_hops : List Text

-- The server listens with TLS, or without.
pub data Listener : Type 0 where
  tls : Certificate → Listener
  plain : Option Certificate → Listener

abbrev pub listen_lines : Host → Listener → Text
listen_lines h (tls cert) = tls_listen h.http2_support h.hsts_enabled h.hsts_subdomains cert
listen_lines h (plain cert) = lit "        listen 80;\n"

abbrev pub only_redirects : Host → Listener → Bool
only_redirects h (tls cert) = false
only_redirects h (plain cert) = h.ssl_forced && is_some cert

module _ (net : Net) (site : Site) where
  unfoldable pub custom_locations : Host → Text → List CustomLocation → List Text
  custom_locations h authorization [] = []
  custom_locations h authorization (loc ∷ locs) =
      render_location net h loc tab authorization ∷ custom_locations h authorization locs

  -- all that the server does with a request but sending it to HTTPS
  unfoldable pub serving_lines : Host → Text
  serving_lines h =
      let authorization = proxy_authorization_header h site.access_lists in
      let advanced = advanced_of h.trusted_proxy_provider_id h.advanced_config in
      cat (
        render_trusted_proxy_directives h.trusted_proxy_provider_id site.providers
          site.trusted_transport_hops tab
        ∷ zent_loop_lines site.zent_loop h
        ∷ access_lines net (list_of h.access_list_id site.access_lists)
        ∷ when h.block_common_exploits exploit_lines
        ∷ cat (custom_locations h authorization h.custom_locations)
        ∷ advanced_lines advanced
        ∷ when (not (advanced_has_default_location h.advanced_config))
            (render_default_location net h tab authorization)
        ∷ lit "    }\n\n"
        ∷ [])

  unfoldable pub render_host_server : Host → Listener → Text
  render_host_server h l = cat (
      lit "    # host:"
      ∷ itoa h.id
      ∷ lit " "
      ∷ safe_comment h.name
      ∷ lit "\n    server {\n"
      ∷ listen_lines h l
      ∷ server_name_line h.domains
      ∷ log_line h site.log_path
      ∷ acme_location site.data_dir
      ∷ (if only_redirects h l then https_redirect else serving_lines h)
      ∷ [])

  abbrev pub tls_server : Host → Option Certificate → Text
  tls_server h none = []
  tls_server h (some cert) =
      when (not (is_nil cert.cert_path) && not (is_nil cert.key_path))
        (render_host_server h (tls cert))

  unfoldable pub render_host : Host → Text
  render_host h =
      let cert = certificate_of h.certificate_id site.certificates in
      render_host_server h (plain cert) ++ tls_server h cert

-- Opens the module for a test.
unfoldable pub server : Unit {0}
unfolding tab acme_location https_redirect tls_listen server_name_line real_ip_line
    render_trusted_proxy_directives advanced_of log_line exact_line prefix_line zent_loop_location
    zent_loop_lines exploit_lines advanced_lines custom_locations serving_lines render_host_server
    render_host
server = tt
