-- ===== src/Proxy/Render/Pools.antt =====
-- internal/proxy/manager.go: the blocks of the pools of backend connections.
use zent_proxy.Base.{
  ℕ, Bool, true, false, ◌&&◌, Option, none, some, List, [], ◌∷◌, map, ltb, Text, lit,
}
use zent_proxy.Net.{Net}
use zent_proxy.Strings.Trim.{trim_space}
use zent_proxy.Strings.Decimal.{itoa}
use zent_proxy.Proxy.Names.{is_some, bracketed_ip}
use zent_proxy.Proxy.Upstreams.{ProxyUpstream, itoa_int}
use zent_proxy.Proxy.Resolve.{nginx_server_host}
use zent_proxy.Proxy.Render.Pieces.{cat, when}

-- `pinned` is the address that the system pins a name to
module _ (net : Net) (pinned : Text → Option Text) where
  -- the server's host, and whether nginx is to resolve it again
  abbrev pub server_of : Text → Bool → Option Text → Text × Bool
  server_of host true o = (nginx_server_host net host, false)
  server_of host false (some address) = (nginx_server_host net address, false)
  server_of host false none = (nginx_server_host net host, true)

  unfoldable pub pool_block : ℕ → ProxyUpstream → Text
  pool_block keepalive u =
      let host = trim_space u.host in
      let s = server_of host (is_some (bracketed_ip net host)) (pinned host) in
      cat (
        lit "    upstream "
        ∷ u.name
        ∷ lit " {\n        zone "
        ∷ u.name
        ∷ lit " 64k;\n"
        ∷ lit "        server "
        ∷ s.0
        ∷ lit ":"
        ∷ itoa_int u.port
        ∷ when s.1 (lit " resolve")
        ∷ lit ";\n"
        ∷ when (u.keepalive_safe && ltb 0 keepalive) (
            cat (
              lit "        keepalive "
              ∷ itoa keepalive
              ∷ lit ";\n        keepalive_requests 1000;\n        keepalive_timeout 60s;\n"
              ∷ []))
        ∷ lit "    }\n\n"
        ∷ [])

  unfoldable pub render_proxy_upstreams : ℕ → List ProxyUpstream → Text
  render_proxy_upstreams keepalive us = cat (map (pool_block keepalive) us)
