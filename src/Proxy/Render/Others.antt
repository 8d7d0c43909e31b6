-- ===== src/Proxy/Render/Others.antt =====
-- internal/proxy/manager.go: the blocks of redirect hosts, of 404 hosts, and of streams.
use zent_proxy.Base.{
  Bool, false, not, ◌&&◌, ◌||◌, Option, none, some, List, [], ◌∷◌, ◌++◌, if◌then◌else◌, Text, lit,
}
use zent_proxy.Model.{RedirectHost, DeadHost, Stream, Certificate}
use zent_proxy.Net.{Net}
use zent_proxy.Strings.Equality.{text_eq}
use zent_proxy.Strings.Trim.{is_nil, trim_space, to_lower}
use zent_proxy.Strings.Search.{member}
use zent_proxy.Strings.Decimal.{itoa}
use zent_proxy.Proxy.Names.{is_some, bracketed_ip}
use zent_proxy.Proxy.Upstreams.{itoa_int}
use zent_proxy.Proxy.Render.Pieces.{cat, when, nginx_path, indent_config}
use zent_proxy.Proxy.Render.Server.{
  Site, Listener, tls, plain, tab, acme_location, https_redirect, tls_listen, server_name_line,
  render_trusted_proxy_directives, advanced_of, certificate_of,
}

unfoldable pub added_lines : Text → Text
added_lines v = when (not (is_nil (trim_space v))) (indent_config v tab)

unfoldable pub target_scheme : Text → Text
target_scheme raw =
    let scheme = to_lower (trim_space raw) in
    if text_eq scheme (lit "http") || text_eq scheme (lit "https") then scheme else lit "$scheme"

unfoldable pub redirect_target : RedirectHost → Text
redirect_target h = cat (
    target_scheme h.forward_scheme
    ∷ lit "://"
    ∷ trim_space h.forward_domain_name
    ∷ when h.preserve_path (lit "$request_uri")
    ∷ [])

abbrev pub redirect_listen : RedirectHost → Listener → Text
redirect_listen h (tls cert) = tls_listen h.http2_support h.hsts_enabled h.hsts_subdomains cert
redirect_listen h (plain cert) = lit "        listen 80;\n"

abbrev pub dead_listen : DeadHost → Listener → Text
dead_listen h (tls cert) = tls_listen h.http2_support h.hsts_enabled h.hsts_subdomains cert
dead_listen h (plain cert) = lit "        listen 80;\n"

-- a server without TLS of a host that is to be reached with TLS only
abbrev pub forces_tls : Bool → Listener → Bool
forces_tls forced (tls cert) = false
forces_tls forced (plain cert) = forced && is_some cert

module _ (site : Site) where
  unfoldable pub redirecting_lines : RedirectHost → Text
  redirecting_lines h = cat (
      when h.block_exploits
        (lit "        location ~* ^/(?:\\.git|\\.svn|\\.hg)(?:/|$) { return 404; }\n")
      ∷ added_lines (advanced_of h.trusted_proxy_provider_id h.advanced_config)
      ∷ lit "        location / { return "
      ∷ itoa_int h.forward_http_code
      ∷ lit " "
      ∷ redirect_target h
      ∷ lit "; }\n    }\n\n"
      ∷ [])

  unfoldable pub render_redirect_server : RedirectHost → Listener → Text
  render_redirect_server h l = cat (
      lit "    # redirect:"
      ∷ itoa h.id
      ∷ lit "\n    server {\n"
      ∷ redirect_listen h l
      ∷ server_name_line h.domains
      ∷ acme_location site.data_dir
      ∷ render_trusted_proxy_directives h.trusted_proxy_provider_id site.providers
          site.trusted_transport_hops tab
      ∷ (if forces_tls h.ssl_forced l then https_redirect else redirecting_lines h)
      ∷ [])

  abbrev pub redirect_tls_server : RedirectHost → Option Certificate → Text
  redirect_tls_server h none = []
  redirect_tls_server h (some cert) =
      when (not (is_nil cert.cert_path) && not (is_nil cert.key_path))
        (render_redirect_server h (tls cert))

  unfoldable pub render_redirect_host : RedirectHost → Text
  render_redirect_host h =
      let cert = certificate_of h.certificate_id site.certificates in
      render_redirect_server h (plain cert) ++ redirect_tls_server h cert

  unfoldable pub dead_server : DeadHost → Listener → Text
  dead_server h l = cat (
      lit "    # dead:"
      ∷ itoa h.id
      ∷ lit "\n    server {\n"
      ∷ dead_listen h l
      ∷ server_name_line h.domains
      ∷ acme_location site.data_dir
      ∷ render_trusted_proxy_directives h.trusted_proxy_provider_id site.providers
          site.trusted_transport_hops tab
      ∷ (if forces_tls h.ssl_forced l
          then https_redirect
          else added_lines (advanced_of h.trusted_proxy_provider_id h.advanced_config)
            ++ lit "        location / { return 404; }\n    }\n\n")
      ∷ [])

  abbrev pub dead_tls_server : DeadHost → Option Certificate → Text
  dead_tls_server h none = []
  dead_tls_server h (some cert) = dead_server h (tls cert)

  -- with a certificate there is a server with TLS, even if the certificate has no files
  unfoldable pub render_dead_host : DeadHost → Text
  render_dead_host h =
      let cert = certificate_of h.certificate_id site.certificates in
      dead_server h (plain cert) ++ dead_tls_server h cert

abbrev pub stream_host : Option Text → Text → Text
stream_host none host = host
stream_host (some ip) host = if member b':' ip then cat (lit "[" ∷ ip ∷ lit "]" ∷ []) else host

abbrev pub stream_tls : Option Certificate → Text
stream_tls none = []
stream_tls (some c) = cat (
    lit " ssl;\n        ssl_certificate "
    ∷ nginx_path c.cert_path
    ∷ lit ";\n        ssl_certificate_key "
    ∷ nginx_path c.key_path
    ∷ [])

module _ (net : Net) (certificates : List Certificate) where
  unfoldable pub stream_upstream : Stream → Text
  stream_upstream s =
      let host = trim_space s.forward_host in
      cat (stream_host (bracketed_ip net host) host ∷ lit ":" ∷ itoa_int s.forward_port ∷ [])

  unfoldable pub tcp_server : Stream → Text
  tcp_server s = cat (
      lit "    # stream:"
      ∷ itoa s.id
      ∷ lit " tcp\n    server {\n        listen "
      ∷ itoa_int s.incoming_port
      ∷ stream_tls (certificate_of s.certificate_id certificates)
      ∷ lit ";\n        proxy_pass "
      ∷ stream_upstream s
      ∷ lit ";\n    }\n"
      ∷ [])

  unfoldable pub udp_server : Stream → Text
  udp_server s = cat (
      lit "    # stream:"
      ∷ itoa s.id
      ∷ lit " udp\n    server {\n        listen "
      ∷ itoa_int s.incoming_port
      ∷ lit " udp;\n        proxy_pass "
      ∷ stream_upstream s
      ∷ lit ";\n    }\n"
      ∷ [])

  unfoldable pub stream_servers : List Stream → Text
  stream_servers [] = []
  stream_servers (s ∷ ss) =
      when s.enabled (when s.tcp_forwarding (tcp_server s) ++ when s.udp_forwarding (udp_server s))
      ++ stream_servers ss

  unfoldable pub render_streams : List Stream → Text
  render_streams streams = cat (lit "\nstream {\n" ∷ stream_servers streams ∷ lit "}\n" ∷ [])

-- Opens the module for a test.
unfoldable pub others : Unit {0}
unfolding added_lines target_scheme redirect_target redirecting_lines render_redirect_server
    render_redirect_host dead_server render_dead_host stream_upstream tcp_server udp_server
    stream_servers render_streams
others = tt
