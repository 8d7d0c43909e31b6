-- ===== src/ZentLoop/Handler.antt =====
-- internal/zentloop/handler.go: what a request that is intercepted is sent to, with which headers.
use zent_proxy.Base.{
  ℕ, Bool, true, false, not, ◌||◌, Option, none, some, List, [], ◌∷◌, ◌++◌, ltb, ◌==◌,
  if◌then◌else◌, length, Text, lit,
}
use zent_proxy.Model.{ZentLoopConfig}
use zent_proxy.Net.{Net}
use zent_proxy.Strings.Equality.{text_eq}
use zent_proxy.Strings.Trim.{is_nil, trim, trim_space, to_lower, to_upper}
use zent_proxy.Strings.Split.{join}
use zent_proxy.Strings.Search.{contains_any}
use zent_proxy.Strings.Decimal.{itoa}

-- What the program uses of a URL: its scheme, its host, and the URI of a request for it with the path
-- of the check in place of its own, and no query.
pub record Url : Type 0 where
  pub scheme : Text
  pub host : Text
  pub check_uri : Text

-- The packages that the bridge calls.
pub record Packages : Type 0 where
  -- `url.Parse`, where it gives no error
  pub parse_url : Text → Option Url
  -- the host that `net.SplitHostPort` gives
  pub split_host_port : Text → Option Text
  -- HMAC-SHA256 of a payload with a key, in hexadecimal digits
  pub hmac : Text → Text → Text

pub record BridgeRequest : Type 0 where
  pub method : Text
  pub host : Text
  pub request_uri : Text
  pub remote_addr : Text
  pub real_ip : Text
  pub forwarded_for : Text
  pub forwarded_host : Text
  pub forwarded_proto : Text
  pub catch_all : Text

pub record Header : Type 0 where
  pub name : Text
  pub value : Text

-- the answer itself, or the host that the request goes to with the headers that are set
pub data Bridged : Type 0 where
  answered : ℕ → Text → Bridged
  forwarded : Url → List Header → Bridged

-- the text in front of a byte
unfoldable pub before : ℕ → Text → Text
before b [] = []
before b (c ∷ s) = let rest = before b s in if c == b then [] else c ∷ rest

unfoldable pub canonical_target : Text → Text
canonical_target raw =
    let v = before b':' (to_lower (trim_space raw)) in
    if is_nil v || (ltb 255 (length v) || contains_any v (lit "/\\?#@ " ++ (9 ∷ 13 ∷ 10 ∷ [])))
    then []
    else v

unfoldable pub first_forwarded_ip : Text → Text
first_forwarded_ip v = trim_space (before b',' v)

abbrev pub is_bracket_byte : ℕ → Bool
is_bracket_byte c = c == b'[' || c == b']'

abbrev pub or_ip : Option Text → Text → Text
or_ip (some ip) rest = ip
or_ip none rest = rest

abbrev pub remote_ip : Net → Option Text → Text
remote_ip net none = []
remote_ip net (some host) = or_ip (net.parse_ip (trim is_bracket_byte host)) []

unfoldable pub header_ip : Net → Text → Option Text
header_ip net v = net.parse_ip (trim is_bracket_byte (trim_space v))

unfoldable pub canonical_client_ip : Net → Packages → BridgeRequest → Text
canonical_client_ip net pk r = or_ip (header_ip net r.real_ip) (
    or_ip (header_ip net (first_forwarded_ip r.forwarded_for))
      (remote_ip net (pk.split_host_port (trim_space r.remote_addr))))

abbrev pub flag : Bool → Text
flag true = lit "1"
flag false = lit "0"

unfoldable pub payload : Text → Text → Text → Bool → Text → Text → Text
payload timestamp name target catch_all method request_uri =
    join b'\n'
      (lit "v1" ∷ timestamp ∷ name ∷ target ∷ flag catch_all ∷ to_upper method ∷ request_uri ∷ [])

unfoldable pub signature : Packages → Text → Text → Text → Text → Bool → Text → Text → Text
signature pk secret timestamp name target catch_all method request_uri =
    pk.hmac secret (payload timestamp name target catch_all method request_uri)

abbrev pub set_unless_empty : Text → Text → List Header → List Header
set_unless_empty name [] rest = rest
set_unless_empty name (c ∷ s) rest = record { name = name; value = c ∷ s } ∷ rest

unfoldable pub target_of : BridgeRequest → Text
target_of r =
    let target = canonical_target r.host in
    if is_nil target then canonical_target r.forwarded_host else target

unfoldable pub catches_all : BridgeRequest → Bool
catches_all r = not (text_eq r.catch_all (lit "0"))

unfoldable pub signed_headers : Packages → Text → ℕ → Text → Bool → Text → Text → List Header
signed_headers pk secret now target catch_all method request_uri =
    if is_nil secret
    then []
    else (record { name = lit "X-ZentLoop-Timestamp"; value = itoa now })
      ∷ (record {
        name = lit "X-ZentLoop-Signature";
        value =
            lit "sha256="
            ++ signature pk secret (itoa now) (lit "zentproxy") target catch_all method request_uri;
      })
      ∷ []

-- the headers that `Rewrite` sets, in its order
unfoldable pub headers_out : Net → Packages → Text → ℕ → BridgeRequest → List Header
headers_out net pk secret now r =
    let ip = canonical_client_ip net pk r in
    set_unless_empty (lit "X-Real-IP") ip (
      set_unless_empty (lit "X-Forwarded-For") ip (
        set_unless_empty (lit "X-Forwarded-Proto") (trim_space r.forwarded_proto) (
          set_unless_empty (lit "X-Forwarded-Host") (trim_space r.forwarded_host) (
            (record { name = lit "X-ZentLoop-Integration"; value = lit "zentproxy" })
            ∷ (record { name = lit "X-ZentLoop-Target"; value = target_of r })
            ∷ (record { name = lit "X-ZentLoop-Catch-All"; value = flag (catches_all r) })
            ∷ signed_headers pk secret now (target_of r) (catches_all r) r.method r.request_uri))))

unfoldable pub unavailable : Text → Bridged
unavailable fallback =
    let message = lit "ZentLoop integration unavailable" in
    if text_eq fallback (lit "503") then answered 503 message else answered 403 message

abbrev pub to_upstream : Net → Packages → Text → ℕ → BridgeRequest → Option Url → Bridged
to_upstream net pk secret now r none = answered 502 (lit "integration upstream is invalid")
to_upstream net pk secret now r (some u) =
    if is_nil u.scheme || is_nil u.host
    then answered 502 (lit "integration upstream is invalid")
    else forwarded u (headers_out net pk secret now r)

-- `ServeHTTP`, with what `store.GetZentLoop` and `Healthy` give; `now` is in seconds.
unfoldable pub serve_http :
    Net → Packages → Option ZentLoopConfig → Bool → ℕ → BridgeRequest → Bridged
serve_http net pk none healthy now r = answered 404 (lit "404 page not found")
serve_http net pk (some cfg) healthy now r =
    if not cfg.enabled
    then answered 404 (lit "404 page not found")
    else if not healthy
    then unavailable cfg.fallback
    else to_upstream net pk cfg.secret now r (pk.parse_url cfg.upstream)
