-- ===== src/Net.antt =====
-- What the program uses of Go's `net` and `net/netip`, as an interface: the parsers of addresses
-- and prefixes, with what their documentation says. The development takes such a record as a
-- parameter; Net/Ipv4 is an instance, a parser of dotted quads.
pub mod Ipv4
use zent_proxy.Base.{
  ℕ, ◌-◌, ◌/◌, String, ◌≡◌, Bool, true, not, ◌&&◌, ◌||◌, Option, some, leb, ◌==◌, All, Text,
}

-- 0-9 a-f . :
unfoldable pub is_ip_byte : ℕ → Bool
is_ip_byte c = (leb 48 c && leb c 58) || (leb 97 c && leb c 102) || c == b'.'

-- The same with A-F.
unfoldable pub is_ip_input : ℕ → Bool
unfolding is_ip_byte
is_ip_input c = is_ip_byte c || (leb 65 c && leb c 70)

pub record Net : Type 0 where
  -- `net.ParseIP(s)` and, where it is not nil, its `String()`
  pub parse_ip : Text → Option Text
  -- `net.ParseCIDR(s)` gives no error
  pub is_cidr : Text → Bool
  -- `netip.ParsePrefix(s)` and its `Masked().String()`
  pub parse_prefix : Text → Option Text
  -- `netip.ParseAddr(s)` and the `String()` of the prefix of that one address
  pub parse_addr : Text → Option Text
  -- the canonical form is parsed to itself
  pub canonical : (s t : Text) → parse_ip s ≡ some t → parse_ip t ≡ some t
  -- it is written in lower case, in digits, dots and colons
  pub plain : (s t : Text) → parse_ip s ≡ some t → All (λ c. is_ip_byte c ≡ true) t
  -- nothing else is accepted but capital digits
  pub written : (s t : Text) → parse_ip s ≡ some t → All (λ c. is_ip_input c ≡ true) s
