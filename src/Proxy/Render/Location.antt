-- ===== src/Proxy/Render/Location.antt =====
-- internal/proxy/manager.go: the block of one location.
use zent_proxy.Base.{not, ◌&&◌, Option, none, some, List, [], ◌∷◌, ◌++◌, if◌then◌else◌, Text, lit}
use zent_proxy.Model.{CustomLocation, Host}
use zent_proxy.Net.{Net}
use zent_proxy.Strings.Equality.{text_eq}
use zent_proxy.Strings.Trim.{is_nil, trim_space}
use zent_proxy.Strings.Search.{contains_any, has_prefix, member}
use zent_proxy.Proxy.Names.{is_some, bracketed_ip}
use zent_proxy.Proxy.Upstreams.{
  Target, effective_location_target, upstream_name, default_location, itoa_int,
}
use zent_proxy.Proxy.Render.Pieces.{cat, when, indent_config}

abbrev pub in_brackets : Option Text → Text → Text
in_brackets none host = host
in_brackets (some ip) host = if member b':' ip then cat (lit "[" ∷ ip ∷ lit "]" ∷ []) else ip

-- one line of a block
unfoldable pub line : Text → List Text → Text
line indent parts = indent ++ (lit "    " ++ (cat parts ++ lit ";\n"))

unfoldable pub location_path : CustomLocation → Text
location_path loc = let path = trim_space loc.path in if is_nil path then lit "/" else path

unfoldable pub location_forward : CustomLocation → Text
location_forward loc =
    let path = trim_space loc.forward_path in
    if not (is_nil path) && not (has_prefix (lit "/") path) then b'/' ∷ path else path

module _ (net : Net) where
  unfoldable pub proxy_upstream_host_header : Target → Text
  proxy_upstream_host_header t =
      let host = trim_space t.host in
      cat (in_brackets (bracketed_ip net host) host ∷ lit ":" ∷ itoa_int t.port ∷ [])

  -- TLS to the backend: with the name of the backend, of the request, or without a name
  unfoldable pub tls_lines : Host → Target → Text → Text
  tls_lines h t indent =
      if not (is_some (bracketed_ip net t.host))
      then cat (
          line indent (lit "proxy_ssl_server_name on" ∷ [])
          ∷ line indent (lit "proxy_ssl_name " ∷ t.host ∷ [])
          ∷ line indent (lit "proxy_ssl_session_reuse on" ∷ [])
          ∷ [])
      else if h.preserve_host
      then cat (
          line indent (lit "proxy_ssl_server_name on" ∷ [])
          ∷ line indent (lit "proxy_ssl_name $host" ∷ [])
          ∷ line indent (lit "proxy_ssl_session_reuse off" ∷ [])
          ∷ [])
      else cat (
          line indent (lit "proxy_ssl_server_name off" ∷ [])
          ∷ line indent (lit "proxy_ssl_session_reuse on" ∷ [])
          ∷ [])

  unfoldable pub web_socket_lines : Host → Text → Text
  web_socket_lines h indent =
      if h.web_sockets
      then cat (
          line indent (lit "proxy_set_header Upgrade $http_upgrade" ∷ [])
          ∷ line indent (lit "proxy_set_header Connection $connection_upgrade" ∷ [])
          ∷ line indent (lit "proxy_read_timeout 3600s" ∷ [])
          ∷ line indent (lit "proxy_send_timeout 3600s" ∷ [])
          ∷ [])
      else line indent (lit "proxy_set_header Connection \"\"" ∷ [])

  unfoldable pub header_lines : Host → Target → Text → Text → Text
  header_lines h t indent authorization = cat (
      line indent (lit "proxy_http_version 1.1" ∷ [])
      ∷ line indent (
          lit "proxy_set_header Host "
          ∷ (if h.preserve_host then lit "$host" else proxy_upstream_host_header t)
          ∷ [])
      ∷ line indent (lit "proxy_set_header X-Real-IP $remote_addr" ∷ [])
      ∷ line indent (lit "proxy_set_header X-Forwarded-For $remote_addr" ∷ [])
      ∷ line indent (
          lit "proxy_set_header X-Forwarded-Proto "
          ∷ (if h.trust_forwarded_proto then lit "$zp_forwarded_proto" else lit "$scheme")
          ∷ [])
      ∷ line indent (lit "proxy_set_header X-Forwarded-Host $host" ∷ [])
      ∷ line indent (lit "proxy_set_header Authorization " ∷ authorization ∷ [])
      ∷ [])

  unfoldable pub location_block : Host → CustomLocation → Text → Text → Text
  location_block h loc indent authorization =
      let t = effective_location_target h loc in
      cat (
        indent
        ∷ lit "location "
        ∷ location_path loc
        ∷ lit " {\n"
        ∷ line indent (
            lit "proxy_pass "
            ∷ t.scheme
            ∷ lit "://"
            ∷ upstream_name net h t
            ∷ location_forward loc
            ∷ [])
        ∷ header_lines h t indent authorization
        ∷ web_socket_lines h indent
        ∷ when (text_eq t.scheme (lit "https")) (tls_lines h t indent)
        ∷ when h.caching_enabled (
            line indent (lit "proxy_cache zentproxy_cache" ∷ [])
            ++ line indent (lit "proxy_cache_valid 200 10m" ∷ []))
        ∷ when (not (is_nil (trim_space loc.advanced_config)))
            (indent_config loc.advanced_config (indent ++ lit "    "))
        ∷ indent
        ∷ lit "}\n"
        ∷ [])

  unfoldable pub render_location : Host → CustomLocation → Text → Text → Text
  render_location h loc indent authorization =
      if contains_any (location_path loc) (lit "\r\n{};")
      then []
      else location_block h loc indent authorization

  unfoldable pub render_default_location : Host → Text → Text → Text
  render_default_location h indent authorization =
      render_location h (default_location h) indent authorization

-- Opens the module for a test.
unfoldable pub location : Unit {0}
unfolding line location_path location_forward proxy_upstream_host_header tls_lines web_socket_lines
    header_lines location_block render_location render_default_location
location = tt
