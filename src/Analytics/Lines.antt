-- ===== src/Analytics/Lines.antt =====
-- internal/analytics/tailer.go: one line of the log as a stored request.
use zent_proxy.Base.{
  ℕ, Bool, true, false, ◌||◌, Option, none, some, List, [], ◌∷◌, if◌then◌else◌, Text, lit,
}
use zent_proxy.Base.Int.{ℤ}
use zent_proxy.Strings.Equality.{text_eq}
use zent_proxy.Strings.Trim.{is_nil, trim_space}
use zent_proxy.Strings.Split.{split}

pub record LogLine : Type 0 where
  pub ts : Text
  pub host : Text
  pub ip : Text
  pub method : Text
  pub path : Text
  pub query : Text
  pub status : ℤ
  pub bytes : ℤ
  pub request_time : Text
  pub upstream_time : Text
  pub user_agent : Text
  pub referer : Text
  pub http_version : Text
  pub tls_version : Text
  pub upstream_addr : Text

-- What the program uses of `encoding/json`, `time` and `strconv`, with the type of `float64`.
pub record Codec : Type 1 where
  pub Float : Type 0
  -- `json.Unmarshal` into a `logLine`
  pub unmarshal : Text → Option LogLine
  -- `time.Parse` with the layout RFC 3339
  pub parse_time : Text → Option ℕ
  -- the number that `strconv.ParseFloat` gives, with an error or not
  pub parse_float : Text → Float × Bool
  pub minus_one : Float
  pub is_negative : Float → Bool
  -- times 1000
  pub millis : Float → Float

pub record RawRequest (codec : Codec) : Type 0 where
  pub at : ℕ
  pub host : Text
  pub ip : Text
  pub method : Text
  pub path : Text
  pub query : Text
  pub status : ℤ
  pub bytes : ℤ
  pub request_time_ms : codec.Float
  pub upstream_time_ms : Option codec.Float
  pub user_agent : Text
  pub referer : Text
  pub http_version : Text
  pub tls_version : Text
  pub zent_loop : Bool

abbrev pub bridge_address : Text
bridge_address = lit "127.0.0.1:18081"

unfoldable pub any_part : List Text → Bool
any_part [] = false
any_part (p ∷ ps) = text_eq (trim_space p) bridge_address || any_part ps

unfoldable pub uses_zent_loop : Text → Bool
uses_zent_loop v = any_part (split b',' v)

-- `strings.Split(v, ",")[0]`; a split has a first part
abbrev pub first_part : List Text → Text
first_part [] = []
first_part (p ∷ ps) = p

module _ (codec : Codec) where
  abbrev pub float_or : codec.Float × Bool → codec.Float
  float_or (n, true) = n
  float_or (n, false) = codec.minus_one

  unfoldable pub first_float : Text → codec.Float
  first_float v =
      let part = trim_space (first_part (split b',' v)) in
      if is_nil part || text_eq part (lit "-")
      then codec.minus_one
      else float_or (codec.parse_float part)

  unfoldable pub upstream_millis : Text → Option codec.Float
  upstream_millis v =
      if codec.is_negative (first_float v) then none else some (codec.millis (first_float v))

  unfoldable pub request_of : ℕ → LogLine → RawRequest codec
  request_of at l = record {
    at = at;
    host = l.host;
    ip = l.ip;
    method = l.method;
    path = l.path;
    query = l.query;
    status = l.status;
    bytes = l.bytes;
    request_time_ms = codec.millis (codec.parse_float l.request_time).0;
    upstream_time_ms = upstream_millis l.upstream_time;
    user_agent = l.user_agent;
    referer = l.referer;
    http_version = l.http_version;
    tls_version = l.tls_version;
    zent_loop = uses_zent_loop l.upstream_addr;
  }

  abbrev pub with_time : LogLine → Option ℕ → Option (RawRequest codec)
  with_time l none = none
  with_time l (some at) = some (request_of at l)

  abbrev pub with_line : Option LogLine → Option (RawRequest codec)
  with_line none = none
  with_line (some l) = with_time l (codec.parse_time l.ts)

  unfoldable pub parse_log_line : Text → Option (RawRequest codec)
  parse_log_line line = if is_nil line then none else with_line (codec.unmarshal line)
