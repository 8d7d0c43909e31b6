-- ===== src/Proxy/Startup/Closed.antt =====
-- internal/proxy/manager.go: proofs on what isolation changes of a host.
use zent_proxy.Base.{◌≡◌, refl, List, [], ◌∷◌, map, All, All-append, lit}
use zent_proxy.Base.Int.{pos, is_positive}
use zent_proxy.Model.{CustomLocation, Host}
use zent_proxy.Net.{Net}
use zent_proxy.Strings.Equality.{text_eq}
use zent_proxy.Strings.Trim.{
  is_nil, trim, trim_space, to_lower, lower_byte, trim_left, trim_right, is_space,
}
use zent_proxy.Proxy.Upstreams.{Target, effective_location_target, locations_of, default_location}
use zent_proxy.Proxy.Startup.{isolate_location, isolate_host}

-- a port of this machine that nothing listens on
abbrev pub closed_port : Target
closed_port = record { scheme = lit "http"; host = lit "127.0.0.1"; port = pos 9 }

-- All but the backend of a location: its path, its path at the backend and its added configuration.
abbrev pub location_boundary : CustomLocation → CustomLocation
location_boundary loc = record loc { scheme = []; forward_host = []; forward_port = pos 0 }

-- All but the backends of a host.
abbrev pub boundary : Host → Host
boundary h = record h {
  scheme = [];
  forward_host = [];
  forward_port = pos 0;
  custom_locations = map location_boundary h.custom_locations;
}

location-closed :
    (h : Host) (loc : CustomLocation)
    → effective_location_target (isolate_host h) (isolate_location loc) ≡ closed_port
unfolding effective_location_target isolate_host isolate_location lit is_nil trim_space trim
    trim_left trim_right is_space to_lower lower_byte text_eq is_positive
location-closed h loc = refl

default-closed :
    (h : Host)
    → effective_location_target (isolate_host h) (default_location (isolate_host h)) ≡ closed_port
unfolding effective_location_target isolate_host default_location lit is_nil trim_space trim
    trim_left trim_right is_space to_lower lower_byte text_eq is_positive
default-closed h = refl

locations-closed :
    (h : Host) (locs : List CustomLocation)
    → All
        (λ loc. effective_location_target (isolate_host h) loc ≡ closed_port)
        (map isolate_location locs)
locations-closed h [] = tt
locations-closed h (loc ∷ locs) = (location-closed h loc, locations-closed h locs)

-- Every location of an isolated host, the default one too, goes to the closed port.
pub isolate_host-closed :
    (h : Host)
    → All
        (λ loc. effective_location_target (isolate_host h) loc ≡ closed_port)
        (locations_of (isolate_host h))
unfolding locations_of
isolate_host-closed h =
    All-append (λ loc. effective_location_target (isolate_host h) loc ≡ closed_port)
      (isolate_host h).custom_locations (default_location (isolate_host h) ∷ [])
      (unfold isolate_host in locations-closed h h.custom_locations) (default-closed h, tt)
