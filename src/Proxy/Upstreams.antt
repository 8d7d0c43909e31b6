-- ===== src/Proxy/Upstreams.antt =====
-- internal/proxy/manager.go: the pools of backend connections, one for each backend.
pub mod Declared
pub mod Identity
use zent_proxy.Base.{
  ℕ, zero, suc, ◌+◌, ◌-◌, ◌*◌, ◌/◌, ◌%◌, ◌^◌, Bool, true, false, not, ◌&&◌, List, [], ◌∷◌, ◌++◌,
  map, ltb, if◌then◌else◌, Text, lit,
}
use zent_proxy.Base.Int.{ℤ, pos, negsuc, is_positive}
use zent_proxy.Model.{CustomLocation, Host}
use zent_proxy.Net.{Net}
use zent_proxy.Strings.Equality.{text_eq}
use zent_proxy.Strings.Trim.{is_nil, trim_space, to_lower}
use zent_proxy.Strings.Decimal.{itoa}
use zent_proxy.Strings.Sorting.{text_le, sort_by}
use zent_proxy.Strings.Split.{join}
use zent_proxy.Proxy.Names.{bracketed_ip, is_some}
use Prim.Native.Nat.{bit_xor}

pub record ProxyUpstream : Type 0 where
  pub name : Text
  pub host : Text
  pub port : ℤ
  pub scheme : Text
  pub keepalive_safe : Bool

-- `%d` of an `int`
unfoldable pub itoa_int : ℤ → Text
unfolding itoa
itoa_int (pos n) = itoa n
itoa_int (negsuc n) = b'-' ∷ itoa (n + 1)

-- hash/fnv: the 32-bit FNV-1a hash
unfoldable pub fnv32a_from : ℕ → Text → ℕ
fnv32a_from hash [] = hash
fnv32a_from hash (c ∷ s) = fnv32a_from ((bit_xor hash c * 16777619) % 2 ^ 32) s

unfoldable pub hex_digit : ℕ → ℕ
hex_digit n = if ltb n 10 then 48 + n else 87 + n

-- `%08x` of a 32-bit number: `k` digits
unfoldable pub hex : ℕ → ℕ → Text
hex zero n = []
hex (suc k) n = hex k (n / 16) ++ (hex_digit (n % 16) ∷ [])

unfoldable pub pool_name : Text → Text
pool_name identity = lit "zp_u_" ++ hex 8 (fnv32a_from 2166136261 identity)

-- the target of a location: scheme, host and port
pub record Target : Type 0 where
  pub scheme : Text
  pub host : Text
  pub port : ℤ

unfoldable pub effective_location_target : Host → CustomLocation → Target
effective_location_target h loc =
    let scheme = to_lower (trim_space loc.scheme) in
    let host = trim_space loc.forward_host in
    record {
      scheme = if text_eq scheme (lit "https") then scheme else lit "http";
      host = if is_nil host then trim_space h.forward_host else host;
      port = if is_positive loc.forward_port then loc.forward_port else h.forward_port;
    }

-- the location "/" of a host
unfoldable pub default_location : Host → CustomLocation
default_location h = record {
  path = lit "/";
  scheme = h.scheme;
  forward_host = h.forward_host;
  forward_port = h.forward_port;
  forward_path = [];
  advanced_config = [];
}

unfoldable pub locations_of : Host → List CustomLocation
locations_of h = h.custom_locations ++ (default_location h ∷ [])

-- the map from identities to pools, its keys as they were first put
unfoldable pub put_pool :
    Text → ProxyUpstream → List (Text × ProxyUpstream) → List (Text × ProxyUpstream)
put_pool k u [] = (k, u) ∷ []
put_pool k u ((j, v) ∷ m) = if text_eq j k then (k, u) ∷ m else (j, v) ∷ put_pool k u m

module _ (net : Net) where
  -- HTTPS to an address with the host name of the request preserved
  unfoldable pub is_dynamic_sni : Host → Target → Bool
  is_dynamic_sni h t =
      text_eq (to_lower (trim_space t.scheme)) (lit "https")
      && (is_some (bracketed_ip net (to_lower (trim_space t.host))) && h.preserve_host)

  unfoldable pub pool_base : Target → List Text
  pool_base t = to_lower (trim_space t.scheme) ∷ to_lower (trim_space t.host) ∷ itoa_int t.port ∷ []

  -- with whether idle connections may be kept
  unfoldable pub upstream_pool_identity : Host → Target → Text × Bool
  upstream_pool_identity h t =
      if is_dynamic_sni h t
      then (join b'|' (pool_base t ++ (lit "dynamic-sni" ∷ (lit "host:" ++ itoa h.id) ∷ [])), false)
      else (join b'|' (pool_base t), true)

  unfoldable pub upstream_name : Host → Target → Text
  upstream_name h t = pool_name (upstream_pool_identity h t).0

  unfoldable pub upstream_of : Host → Target → ProxyUpstream
  upstream_of h t = record {
    name = upstream_name h t;
    host = t.host;
    port = t.port;
    scheme = t.scheme;
    keepalive_safe = (upstream_pool_identity h t).1;
  }

  unfoldable pub is_target : Target → Bool
  is_target t = not (is_nil t.host) && is_positive t.port

  unfoldable pub collect_locations :
      Host → List CustomLocation → List (Text × ProxyUpstream) → List (Text × ProxyUpstream)
  collect_locations h [] seen = seen
  collect_locations h (loc ∷ locs) seen =
      let t = effective_location_target h loc in
      collect_locations h locs (
        if is_target t
        then put_pool (upstream_pool_identity h t).0 (upstream_of h t) seen
        else seen)

  unfoldable pub collect_hosts :
      List Host → List (Text × ProxyUpstream) → List (Text × ProxyUpstream)
  collect_hosts [] seen = seen
  collect_hosts (h ∷ hs) seen =
      collect_hosts hs (if h.enabled then collect_locations h (locations_of h) seen else seen)

  unfoldable pub name_le : ProxyUpstream → ProxyUpstream → Bool
  name_le u v = text_le u.name v.name

  -- The order of pools with one name, which `sort.Slice` leaves open, is that of their first
  -- location.
  unfoldable pub collect_proxy_upstreams : List Host → List ProxyUpstream
  collect_proxy_upstreams hosts =
      sort_by name_le (map (λ (e : Text × ProxyUpstream). e.1) (collect_hosts hosts []))

-- Opens the component for a test.
unfoldable pub upstreams : Unit {0}
unfolding itoa_int fnv32a_from hex_digit hex pool_name effective_location_target default_location
    locations_of put_pool is_dynamic_sni pool_base upstream_pool_identity upstream_name upstream_of
    is_target collect_locations collect_hosts name_le collect_proxy_upstreams is_positive
upstreams = tt
