-- ===== src/Proxy/Hosts.antt =====
-- internal/proxy/manager.go: normalising and validating a proxy host with its custom locations, and
-- conflicts between the domains of hosts. An error is a constructor, with the text that its message
-- holds; `none` is the nil error.
pub mod Valid
pub mod Accepted
pub mod Conflicts
use zent_proxy.Base.{
  ℕ, ◌-◌, ◌/◌, Bool, not, ◌&&◌, ◌||◌, Option, none, some, List, [], ◌∷◌, map, ltb, ◌==◌,
  if◌then◌else◌, length, Text, lit,
}
use zent_proxy.Base.Int.{ℤ, between, is_zero}
use zent_proxy.Model.{CustomLocation, HostInput, Host}
use zent_proxy.Net.{Net}
use zent_proxy.Strings.Equality.{text_eq, has}
use zent_proxy.Strings.Trim.{is_nil, trim_space, to_lower}
use zent_proxy.Strings.Search.{has_prefix, contains_any}
use zent_proxy.Strings.Sorting.{sort_texts}
use zent_proxy.Proxy.Names.{
  valid_forward_host, normalize_forward_host, normalize_server_name, valid_server_name,
}

pub data HostError : Type 0 where
  name_required domain_count bad_scheme bad_port bad_forward_host too_many_locations : HostError
  invalid_domain duplicate_domain : Text → HostError
  location_path location_scheme location_host location_port location_forward_path : Text → HostError
  duplicate_path : Text → HostError

-- space, tab, \r, \n, ; { } # $ \
unfoldable pub path_stops : Text
path_stops = 32 ∷ 9 ∷ 13 ∷ 10 ∷ b';' ∷ b'{' ∷ b'}' ∷ b'#' ∷ b'$' ∷ 92 ∷ []

-- the same and the quote
unfoldable pub forward_path_stops : Text
forward_path_stops = 32 ∷ 9 ∷ 13 ∷ 10 ∷ b';' ∷ b'{' ∷ b'}' ∷ b'#' ∷ b'$' ∷ 92 ∷ 34 ∷ []

unfoldable pub is_web_scheme : Text → Bool
is_web_scheme s = text_eq s (lit "http") || text_eq s (lit "https")

abbrev pub or_text : Text → Text → Text
or_text s t = if is_nil s then t else s

-- "/" in front, unless the text is empty or begins with one
unfoldable pub slashed : Text → Text
slashed p = if not (is_nil p) && not (has_prefix (lit "/") p) then b'/' ∷ p else p

-- the host and the port that a location inherits
unfoldable pub location_host_of : CustomLocation → HostInput → Text
location_host_of loc parent = or_text (trim_space loc.forward_host) parent.forward_host

unfoldable pub location_port_of : CustomLocation → HostInput → ℤ
location_port_of loc parent =
    if is_zero loc.forward_port then parent.forward_port else loc.forward_port

unfoldable pub bad_location_path : Text → Bool
bad_location_path path =
    is_nil path
    || not (has_prefix (lit "/") path)
    || text_eq path (lit "/")
    || contains_any path path_stops

unfoldable pub bad_location_forward : Text → Bool
bad_location_forward fp =
    not (is_nil fp) && (not (has_prefix (lit "/") fp) || contains_any fp forward_path_stops)

abbrev pub or_error : Option HostError → Option HostError → Option HostError
or_error (some e) rest = some e
or_error none rest = rest

-- the input that a stored host is validated as
unfoldable pub input_of_host : Host → HostInput
input_of_host h = record {
  name = h.name;
  domains = h.domains;
  scheme = h.scheme;
  forward_host = h.forward_host;
  forward_port = h.forward_port;
  enabled = h.enabled;
  web_sockets = h.web_sockets;
  preserve_host = h.preserve_host;
  statistics_enabled = h.statistics_enabled;
  store_query_string = h.store_query_string;
  trusted_proxy_provider_id = h.trusted_proxy_provider_id;
  access_list_id = h.access_list_id;
  block_common_exploits = h.block_common_exploits;
  certificate_id = h.certificate_id;
  ssl_forced = h.ssl_forced;
  http2_support = h.http2_support;
  hsts_enabled = h.hsts_enabled;
  hsts_subdomains = h.hsts_subdomains;
  caching_enabled = h.caching_enabled;
  trust_forwarded_proto = h.trust_forwarded_proto;
  advanced_config = h.advanced_config;
  custom_locations = h.custom_locations;
}

abbrev pub stored_result : Host → HostInput × Option HostError → Host × Option HostError
stored_result h (in_, some e) = (h, some e)
stored_result h (in_, none) = (
  record h {
    name = in_.name;
    domains = in_.domains;
    scheme = in_.scheme;
    forward_host = in_.forward_host;
    forward_port = in_.forward_port;
    custom_locations = in_.custom_locations;
  },
  none,
)

module _ (net : Net) where
  unfoldable pub normalize_custom_location : CustomLocation → HostInput → CustomLocation
  normalize_custom_location loc parent = record loc {
    path = or_text (trim_space loc.path) (lit "/");
    scheme = or_text (to_lower (trim_space loc.scheme)) parent.scheme;
    forward_host = normalize_forward_host net loc.forward_host;
    forward_path = slashed (trim_space loc.forward_path);
  }

  unfoldable pub validate_custom_location : CustomLocation → HostInput → Option HostError
  validate_custom_location loc parent =
      let path = trim_space loc.path in
      if bad_location_path path
      then some (location_path path)
      else if not (is_web_scheme loc.scheme)
      then some (location_scheme path)
      else if not (valid_forward_host net (location_host_of loc parent))
      then some (location_host path)
      else if not (between 1 65535 (location_port_of loc parent))
      then some (location_port path)
      else if bad_location_forward (trim_space loc.forward_path)
      then some (location_forward_path path)
      else none

  -- the loop over `in.Domains`, with the names seen so far
  unfoldable pub check_domains : List Text → List Text → Option HostError
  check_domains seen [] = none
  check_domains seen (raw ∷ ds) =
      let d = normalize_server_name net raw in
      let rest = check_domains (d ∷ seen) ds in
      if not (valid_server_name net d)
      then some (invalid_domain d)
      else if has d seen
      then some (duplicate_domain d)
      else rest

  -- the loop over `in.CustomLocations`, with the paths seen so far
  unfoldable pub check_locations : HostInput → List Text → List CustomLocation → Option HostError
  check_locations parent seen [] = none
  check_locations parent seen (loc ∷ locs) =
      let key = trim_space loc.path in
      let rest = check_locations parent (key ∷ seen) locs in
      or_error (validate_custom_location loc parent)
        (if has key seen then some (duplicate_path key) else rest)

  unfoldable pub validate_host : HostInput → Option HostError
  validate_host in_ =
      let name = trim_space in_.name in
      if is_nil name || ltb 120 (length name)
      then some name_required
      else if length in_.domains == 0 || ltb 50 (length in_.domains)
      then some domain_count
      else or_error (check_domains [] in_.domains) (
          if not (is_web_scheme in_.scheme)
          then some bad_scheme
          else if not (between 1 65535 in_.forward_port)
          then some bad_port
          else if not (valid_forward_host net (trim_space in_.forward_host))
          then some bad_forward_host
          else if ltb 50 (length in_.custom_locations)
          then some too_many_locations
          else check_locations in_ [] in_.custom_locations)

  -- the locations are normalised after the scheme and the host of their parent
  unfoldable pub normalize_host_input : HostInput → HostInput
  normalize_host_input in_ =
      let parent = record in_ {
        name = trim_space in_.name;
        scheme = to_lower (trim_space in_.scheme);
        forward_host = normalize_forward_host net in_.forward_host;
      } in
      record parent {
        custom_locations = map (λ loc. normalize_custom_location loc parent) in_.custom_locations;
        domains = sort_texts (map (normalize_server_name net) in_.domains);
      }

  unfoldable pub normalize_and_validate : HostInput → HostInput × Option HostError
  normalize_and_validate raw = let in_ = normalize_host_input raw in (in_, validate_host in_)

  unfoldable pub normalize_stored_host : Host → Host × Option HostError
  normalize_stored_host h = stored_result h (normalize_and_validate (input_of_host h))

unfoldable pub conflict_key : Text → Text
conflict_key d = to_lower (trim_space d)

-- the first domain of a host that is wanted
unfoldable pub conflict_in : List Text → List Text → Option Text
conflict_in wanted [] = none
conflict_in wanted (d ∷ ds) =
    if has (conflict_key d) wanted then some (conflict_key d) else conflict_in wanted ds

abbrev pub or_conflict : Option Text → Text → Option (Text × Text) → Option (Text × Text)
or_conflict none name rest = rest
or_conflict (some d) name rest = some (d, name)

-- the loop over the hosts, but for the one with the excluded id
unfoldable pub conflict_among : List Text → ℕ → List Host → Option (Text × Text)
conflict_among wanted exclude [] = none
conflict_among wanted exclude (h ∷ hs) =
    let rest = conflict_among wanted exclude hs in
    if h.id == exclude then rest else or_conflict (conflict_in wanted h.domains) h.name rest

-- The domain that is taken, with the name of its host.
unfoldable pub check_domain_conflicts : List Host → List Text → ℕ → Option (Text × Text)
check_domain_conflicts hosts domains exclude =
    conflict_among (map conflict_key domains) exclude hosts

-- Opens the component for a test.
unfoldable pub hosts : Unit {0}
unfolding path_stops forward_path_stops is_web_scheme slashed normalize_custom_location
    location_host_of location_port_of bad_location_path bad_location_forward
    validate_custom_location check_domains check_locations validate_host normalize_host_input
    normalize_and_validate input_of_host normalize_stored_host conflict_key conflict_in
    conflict_among check_domain_conflicts
hosts = tt
